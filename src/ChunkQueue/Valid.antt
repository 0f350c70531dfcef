-- ===== src/ChunkQueue/Valid.antt =====
-- All the calls of the queue: what each does to the pieces in it, and the cache of unused chunks.
use lighttpd_autothumb.Base.{
  ℕ, ◌≤◌, ◌≡◌, refl, sym, ap, ◌∙◌, inl, inr, false, Option, none, some, List, [], ◌∷◌, map, arith,
  ltb, ◌==◌, Bool-cases, length, Bytes, All,
}
use lighttpd_autothumb.ChunkQueue.{
  Chunk, Queue, chunk_reset, get_unused_chunk, append_chunk, prepend_chunk, append_file,
  append_buffer, append_buffer_weak, prepend_buffer, append_mem, get_append_buffer,
  get_prepend_buffer, get_append_tempfile, is_finished, retire, remove_loop, remove_finished_chunks,
  mark_written, queue_reset,
}

-- The calls; `mkstemp` and the templates stand for the file system and the configuration.
pub data Call : Type 0 where
  file : Option Bytes → ℕ → ℕ → Call
  buffer weak front : Option Bytes → Call
  mem : Bytes → ℕ → Call
  append_slot prepend_slot remove reset : Call
  tempfile : (Bytes → Option (ℕ × Bytes)) → List Bytes → Call

pub run : Call → Queue → Queue
run (file fn offset len) cq = append_file cq fn offset len
run (buffer text) cq = append_buffer cq text
run (weak text) cq = append_buffer_weak cq text
run (front text) cq = prepend_buffer cq text
run (mem text len) cq = append_mem cq text len
run append_slot cq = get_append_buffer cq
run prepend_slot cq = get_prepend_buffer cq
run remove cq = remove_finished_chunks cq
run reset cq = queue_reset cq
run (tempfile mkstemp templates) cq = get_append_tempfile mkstemp cq templates

-- A chunk in the cache holds no text, no name, no descriptor and no mapping.
pub record IsClosed (c : Chunk) : Type 0 where
  pub no_mem : c.mem ≡ none
  pub no_name : c.name ≡ none
  pub no_fd : c.fd ≡ none
  pub no_map : c.is_mapped ≡ false

-- The counter counts the cache, which holds five chunks at most, all closed.
pub record IsValid (cq : Queue) : Type 0 where
  pub counted : cq.unused_chunks ≡ length cq.unused
  pub few : cq.unused_chunks ≤ 5
  pub closed : All IsClosed cq.unused

chunk_reset-IsClosed : (c : Chunk) → IsClosed (chunk_reset c)
unfolding chunk_reset
chunk_reset-IsClosed c = record { no_mem = refl; no_name = refl; no_fd = refl; no_map = refl }

retire-IsValid : (c : Chunk) (cq : Queue) → IsValid cq → IsValid (retire c cq)
unfolding retire
retire-IsValid c cq v = elim (Bool-cases (ltb 4 cq.unused_chunks)) [
  | inl t ↦ rw t (record { counted = v.counted; few = v.few; closed = v.closed })
  | inr n ↦ rw n (record {
    counted = omega (arith, v.counted);
    few = ground arith;
    closed = (chunk_reset-IsClosed c, v.closed);
  })
]

remove_loop-IsValid : (cs : List Chunk) (cq : Queue) → IsValid cq → IsValid (remove_loop cs cq)
unfolding remove_loop
remove_loop-IsValid [] cq v = record { counted = v.counted; few = v.few; closed = v.closed }
remove_loop-IsValid (c ∷ cs) cq v = elim (Bool-cases (is_finished c)) [
  | inl t ↦ rw t (remove_loop-IsValid cs (retire c cq) (retire-IsValid c cq v))
  | inr n ↦ rw n (record { counted = v.counted; few = v.few; closed = v.closed })
]

-- A queue that shares the cache of a valid one is valid.
same_cache :
    (cq cq' : Queue)
    → IsValid cq
    → cq'.unused ≡ cq.unused
    → cq'.unused_chunks ≡ cq.unused_chunks
    → IsValid cq'
same_cache cq cq' v e f = record {
  counted = f ∙ v.counted ∙ ap length (sym e);
  few = omega (arith, v.few, f);
  closed = rw e (v.closed);
}

taken-IsValid :
    (u : List Chunk) (cq : Queue) → cq.unused ≡ u → IsValid cq → IsValid (get_unused_chunk cq).1
unfolding get_unused_chunk
taken-IsValid [] cq e v = rw (e, get_unused_chunk) v
taken-IsValid (c ∷ rest) cq e v =
    let len = v.counted ∙ ap length e in
    let cl : All IsClosed (c ∷ rest) = rw e at (v.closed) in
    rw (e, get_unused_chunk)
      (record { counted = omega (arith, len); few = omega (arith, v.few); closed = cl.1 })

-- A chunk put into a queue leaves the cache as the taking of it left it.
taken :
    (cq cq' : Queue)
    → IsValid cq
    → cq'.unused ≡ (get_unused_chunk cq).1.unused
    → cq'.unused_chunks ≡ (get_unused_chunk cq).1.unused_chunks
    → IsValid cq'
taken cq cq' v = same_cache (get_unused_chunk cq).1 cq' (taken-IsValid cq.unused cq refl v)

-- Every call keeps the cache of unused chunks: the counter is its length, it holds five chunks at
-- most, and none of them holds on to a text, a file name, a descriptor or a mapping.
pub run-IsValid : (call : Call) (cq : Queue) → IsValid cq → IsValid (run call cq)
unfolding run append_file append_buffer append_buffer_weak prepend_buffer append_mem
    get_append_buffer get_prepend_buffer get_append_tempfile append_chunk prepend_chunk queue_reset
    remove_finished_chunks
run-IsValid (file fn offset len) cq v = elim (Bool-cases (len == 0)) [
  | inl t ↦ rw t v
  | inr n ↦ rw n (taken cq _ v refl refl)
]
run-IsValid (buffer none) cq v = v
run-IsValid (buffer (some text)) cq v = taken cq _ v refl refl
run-IsValid (weak text) cq v = taken cq _ v refl refl
run-IsValid (front none) cq v = v
run-IsValid (front (some text)) cq v = taken cq _ v refl refl
run-IsValid (mem text len) cq v = elim (Bool-cases (len == 0)) [
  | inl t ↦ rw t v
  | inr n ↦ rw n (taken cq _ v refl refl)
]
run-IsValid append_slot cq v = taken cq _ v refl refl
run-IsValid prepend_slot cq v = taken cq _ v refl refl
run-IsValid remove cq v = remove_loop-IsValid cq.chunks cq v
run-IsValid reset cq v =
    let marked = record cq { chunks = map mark_written cq.chunks } in
    let done =
      remove_loop-IsValid marked.chunks marked
        (record { counted = v.counted; few = v.few; closed = v.closed }) in
    record { counted = done.counted; few = done.few; closed = done.closed }
run-IsValid (tempfile mkstemp templates) cq v = taken cq _ v refl refl
