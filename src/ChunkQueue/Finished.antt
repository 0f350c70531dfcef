-- ===== src/ChunkQueue/Finished.antt =====
-- What `chunkqueue_remove_finished_chunks` takes away.
use lighttpd_autothumb.Base.{
  ℕ, ◌≡◌, refl, sym, ap, ◌∙◌, inl, inr, Bool, true, false, Option, none, some, List, [], ◌∷◌, ◌++◌,
  append-nil, append_assoc, arith, if◌then◌else◌, length, Bool-cases, Bytes, All,
}
use lighttpd_autothumb.ChunkQueue.{
  unused_chunk, mem_chunk, file_chunk, ChunkType, Effect, unlink, close, munmap, Chunk, Queue,
  unlink_effect, close_effect, reset_effects, is_finished, retire, remove_loop,
  remove_finished_chunks,
}

-- What is unlinked, closed and unmapped for one chunk: its temporary file, by name, its open
-- descriptor, and its mapping.
pub data Unlinked : Bool → Option Bytes → List Effect → Type 0 where
  temporary : {name : Bytes} → Unlinked true (some name) (unlink name ∷ [])
  nameless : Unlinked true none []
  permanent : {name : Option Bytes} → Unlinked false name []

pub data Closed : Option ℕ → List Effect → Type 0 where
  was_open : {fd : ℕ} → Closed (some fd) (close fd ∷ [])
  not_open : Closed none []

pub data Unmapped : Bool → List Effect → Type 0 where
  was_mapped : Unmapped true (munmap ∷ [])
  not_mapped : Unmapped false []

-- What is given back for the chunks of a list, in their order.
pub data Released : List Chunk → List Effect → Type 0 where
  none_released : Released [] []
  released :
      {c : Chunk} {cs : List Chunk} {u f m es : List Effect}
      → Unlinked c.is_temp c.name u
      → Closed c.fd f
      → Unmapped c.is_mapped m
      → Released cs es
      → Released (c ∷ cs) (u ++ (f ++ (m ++ es)))

-- A chunk in memory is sent up to its end, or has no buffer in use; a chunk of a file is sent up to its
-- length.
abbrev pub IsFinished : Chunk → Type 0
IsFinished c = elim c.kind [
  | mem_chunk ↦ elim c.mem [ none ↦ Unit {0} | some text ↦ c.offset ≡ length text ]
  | file_chunk ↦ c.offset ≡ c.file_length
  | unused_chunk ↦ ⊥
]

abbrev pub StartsUnfinished : List Chunk → Type 0
StartsUnfinished [] = Unit
StartsUnfinished (c ∷ cs) = ¬ IsFinished c

-- A run of finished chunks in front is gone, its resources given back in order; the rest is as it was.
pub record Removes (before : List Chunk) (cq after : Queue) : Type 0 where
  pub done : List Chunk
  pub splits : before ≡ done ++ after.chunks
  pub finished : All IsFinished done
  pub stops : StartsUnfinished after.chunks
  pub given : List Effect
  pub effects : after.effects ≡ cq.effects ++ given
  pub releases : Released done given

retire-effects : (c : Chunk) (cq : Queue) → (retire c cq).effects ≡ cq.effects ++ reset_effects c
unfolding retire
retire-effects c cq = ground arith

unlink_effect-Unlinked :
    (temp : Bool) (name : Option Bytes) → Unlinked temp name (unlink_effect temp name)
unfolding unlink_effect
unlink_effect-Unlinked true (some name) = temporary
unlink_effect-Unlinked true none = nameless
unlink_effect-Unlinked false name = permanent

close_effect-Closed : (fd : Option ℕ) → Closed fd (close_effect fd)
unfolding close_effect
close_effect-Closed (some fd) = was_open
close_effect-Closed none = not_open

munmap-Unmapped : (mapped : Bool) → Unmapped mapped (if mapped then munmap ∷ [] else [])
munmap-Unmapped true = was_mapped
munmap-Unmapped false = not_mapped

reset_effects-Released :
    (c : Chunk) (cs : List Chunk) (es : List Effect)
    → Released cs es
    → Released (c ∷ cs) (reset_effects c ++ es)
unfolding reset_effects
reset_effects-Released c cs es h =
    let u = unlink_effect c.is_temp c.name in
    let f = close_effect c.fd in
    let m = if c.is_mapped then munmap ∷ [] else [] in
    rw (append_assoc u (f ++ m) es, append_assoc f m es)
      (released (unlink_effect-Unlinked c.is_temp c.name) (close_effect-Closed c.fd)
        (munmap-Unmapped c.is_mapped) h)

is_finished-IsFinished :
    (c : Chunk) → (is_finished c ≡ true → IsFinished c) × (is_finished c ≡ false → ¬ IsFinished c)
unfolding is_finished
is_finished-IsFinished c = kind_cases c.kind c.mem
  where
    kind_cases :
        (k : ChunkType) (mem : Option Bytes)
        → (is_finished (record c { kind = k; mem = mem }) ≡ true
            → IsFinished (record c { kind = k; mem = mem }))
          × (is_finished (record c { kind = k; mem = mem }) ≡ false
              → ¬ IsFinished (record c { kind = k; mem = mem }))
    kind_cases unused_chunk mem = ((λ h. cc h), (λ h k. k))
    kind_cases mem_chunk none = ((λ h. tt), (λ h k. cc h))
    kind_cases mem_chunk (some text) = ((λ h. ground (arith, h)), (λ h k. ground (arith, h, k)))
    kind_cases file_chunk mem = ((λ h. ground (arith, h)), (λ h k. ground (arith, h, k)))

pub remove_loop-Removes : (cs : List Chunk) (cq : Queue) → Removes cs cq (remove_loop cs cq)
unfolding remove_loop
remove_loop-Removes [] cq = record {
  done = [];
  splits = refl;
  finished = tt;
  stops = tt;
  given = [];
  effects = sym (append-nil cq.effects);
  releases = none_released;
}
remove_loop-Removes (c ∷ cs) cq = elim (Bool-cases (is_finished c)) [
  | inl f ↦
      let r = remove_loop-Removes cs (retire c cq) in
      rw f (record {
        done = c ∷ r.done;
        splits = ap (◌∷◌ c) r.splits;
        finished = ((is_finished-IsFinished c).0 f, r.finished);
        stops = r.stops;
        given = reset_effects c ++ r.given;
        effects =
            r.effects
            ∙ ap (λ e. e ++ r.given) (retire-effects c cq)
            ∙ append_assoc cq.effects (reset_effects c) r.given;
        releases = reset_effects-Released c r.done r.given r.releases;
      })
  | inr u ↦ rw u (record {
    done = [];
    splits = refl;
    finished = tt;
    stops = (is_finished-IsFinished c).1 u;
    given = [];
    effects = sym (append-nil cq.effects);
    releases = none_released;
  })
]

-- Exactly the longest run of finished chunks at the front leaves the queue, the first chunk left is
-- not finished: a chunk in memory is when its offset is its length or it has no text, a chunk of a file
-- when its offset is its length. For each chunk that leaves, in order, its temporary file is unlinked,
-- its open descriptor closed and its mapping undone, and nothing else.
pub remove_finished_chunks-Removes : (cq : Queue) → Removes cq.chunks cq (remove_finished_chunks cq)
unfolding remove_finished_chunks
remove_finished_chunks-Removes cq = remove_loop-Removes cq.chunks cq
