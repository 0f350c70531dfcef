-- ===== src/ChunkQueue/Content.antt =====
-- The queue as what is left to send, behind the offset of each chunk: the bytes of its chunks in memory
-- and the spans of its files.
use lighttpd_autothumb.Base.{
  ℕ, ◌+◌, ◌-◌, ◌%◌, ◌≤◌, ◌≡◌, refl, ap, ◌≢◌, false, Option, none, some, List, [], ◌∷◌, ◌++◌, map,
  arith, ◌==◌, length, length-drop, drop, Bytes, All,
}
use lighttpd_autothumb.Buffer.Memory.{take-length_append}
use lighttpd_autothumb.ChunkQueue.{
  off_mod, ChunkType, unused_chunk, mem_chunk, file_chunk, Chunk, Queue, get_unused_chunk,
  append_chunk, prepend_chunk, append_file, append_buffer, prepend_buffer, append_mem, chunk_length,
  total_length, queue_length, total_written, queue_written,
}

-- A part of what is to be sent: bytes, or a span of a named file.
pub data Piece : Type 0 where
  bytes : Bytes → Piece
  span : Option Bytes → ℕ → ℕ → Piece

abbrev text_of : Option Bytes → Bytes
text_of none = []
text_of (some text) = text

abbrev pub piece : Chunk → Piece
piece c = elim c.kind [
  | mem_chunk ↦ bytes (drop c.offset (text_of c.mem))
  | file_chunk ↦ span c.name (c.start + c.offset) (c.file_length - c.offset)
  | unused_chunk ↦ bytes []
]

abbrev pub content : Queue → List Piece
content cq = map piece cq.chunks

abbrev pub piece_length : Piece → ℕ
piece_length (bytes text) = length text
piece_length (span name start len) = len

abbrev pub content_length : List Piece → ℕ
content_length [] = 0
content_length (p ∷ ps) = piece_length p + content_length ps

map-append_one {ℓ κ} :
    {A : Type ℓ} {B : Type κ} (f : A → B) (xs : List A) (a : A)
    → map f (xs ++ a ∷ []) ≡ map f xs ++ f a ∷ []
map-append_one f [] a = refl
map-append_one f (x ∷ xs) a = ap (◌∷◌ (f x)) (map-append_one f xs a)

taken-chunks :
    (u : List Chunk) (cq : Queue) → cq.unused ≡ u → (get_unused_chunk cq).1.chunks ≡ cq.chunks
unfolding get_unused_chunk
taken-chunks [] cq e = rw (e, get_unused_chunk)
taken-chunks (c ∷ u) cq e = rw (e, get_unused_chunk)

-- A chunk at the end or the front of the queue that a taken chunk goes to.
appended :
    (cq : Queue) (c : Chunk)
    → content (append_chunk (get_unused_chunk cq).1 c) ≡ content cq ++ piece c ∷ []
unfolding append_chunk
appended cq c = rw (taken-chunks cq.unused cq refl) (map-append_one piece cq.chunks c)

prepended :
    (cq : Queue) (c : Chunk)
    → content (prepend_chunk (get_unused_chunk cq).1 c) ≡ piece c ∷ content cq
unfolding prepend_chunk
prepended cq c = rw (taken-chunks cq.unused cq refl)

-- Appending a text, or a span whose length is not zero, puts it, from its first byte on, behind all that
-- is left to send, and prepending a text puts it in front, whether the chunk is new or used again; the
-- calls without a text, or with the length zero, change nothing.
pub append-content :
    (cq : Queue) (text : Bytes) (fn : Option Bytes) (start len : ℕ)
    → len ≢ 0
    → (content (append_buffer cq (some text)) ≡ content cq ++ bytes text ∷ [])
      × (content (prepend_buffer cq (some text)) ≡ bytes text ∷ content cq)
      × (content (append_mem cq (text ++ 0 ∷ []) (length text + 1)) ≡ content cq ++ bytes text ∷ [])
      × (content (append_file cq fn start len) ≡ content cq ++ span fn start len ∷ [])
      × (append_buffer cq none ≡ cq)
      × (prepend_buffer cq none ≡ cq)
      × (append_mem cq text 0 ≡ cq)
      × (append_file cq fn start 0 ≡ cq)
unfolding append_buffer prepend_buffer append_mem append_file
append-content cq text fn start len ne = (
  appended cq _,
  prepended cq _,
  (let some_bytes : (length text + 1 == 0) ≡ false = ground arith in
      let n : length text + 1 - 1 ≡ length text = omega arith in
      rw (some_bytes, n, take-length_append text (0 ∷ [])) (appended cq _)),
  (let some_bytes : (len == 0) ≡ false = ground arith in
      let from_start : start + 0 ≡ start = omega arith in
      let all_left : len - 0 ≡ len = omega arith in
      rw some_bytes (
        rw (from_start, all_left) at
          (appended cq (record (get_unused_chunk cq).0 {
            kind = file_chunk;
            name = fn;
            start = start;
            file_length = len;
            offset = 0;
          })))),
  refl,
  refl,
  refl,
  refl,
)

-- No more of a chunk is written than it has.
abbrev pub IsWithin : Chunk → Type 0
IsWithin c = elim c.kind [
  | mem_chunk ↦ c.offset ≤ length (text_of c.mem)
  | file_chunk ↦ c.offset ≤ c.file_length
  | unused_chunk ↦ Unit {0}
]

abbrev written : Chunk → ℕ
written c = elim c.kind [ unused_chunk ↦ 0 | _ ↦ c.offset ]

piece-written : (c : Chunk) → IsWithin c → chunk_length c ≡ piece_length (piece c) + written c
piece-written c h = kind_cases c.kind c.mem h
  where
    kind_cases :
        (k : ChunkType) (mem : Option Bytes)
        → IsWithin (record c { kind = k; mem = mem })
        → chunk_length (record c { kind = k; mem = mem })
          ≡ piece_length (piece (record c { kind = k; mem = mem }))
            + written (record c { kind = k; mem = mem })
    kind_cases unused_chunk mem h = refl
    kind_cases mem_chunk none h = omega (arith, h, length-drop {A = ℕ} c.offset [])
    kind_cases mem_chunk (some text) h = omega (arith, h, length-drop c.offset text)
    kind_cases file_chunk mem h = omega (arith, h)

total-written :
    (cs : List Chunk)
    → All IsWithin cs
    → total_length cs ≡ content_length (map piece cs) + total_written cs
total-written [] h = refl
total-written (c ∷ cs) h = omega (arith, piece-written c h.0, total-written cs h.1)

-- Where no more of any chunk is written than it has, `chunkqueue_length` is what is left to send and
-- `chunkqueue_written` together, modulo 2 ^ 64.
pub queue_length-content :
    (cq : Queue)
    → All IsWithin cq.chunks
    → queue_length cq ≡ (content_length (content cq) + queue_written cq) % off_mod
unfolding queue_length queue_written
queue_length-content cq h = omega (arith, total-written cq.chunks h)
