-- ===== src/Connection/Header.antt =====
-- The search for the end of a request header in `connection_handle_read_state`, and the copy of the
-- header. A chunk of the read queue is the text in it that is not read yet.
pub mod Found
use lighttpd_autothumb.Base.{
  ℕ, zero, suc, ◌+◌, Option, none, some, List, [], ◌∷◌, ◌++◌, ◌==◌, if◌then◌else◌, take, drop,
  Bytes,
}

-- What a chunk says of the part of `header_end` that is still to come: it differs, or it has the end,
-- with the offset behind it, or it is too short.
pub data Match : Type 0 where
  differs : Match
  found : ℕ → Match
  wants : Bytes → Match

-- The loop over `j`; `s` is the text of the chunk from `j` on.
unfoldable pub match_chunk : Bytes → ℕ → Bytes → Match
match_chunk [] j s = found j
match_chunk (w ∷ ws) j [] = wants (w ∷ ws)
match_chunk (w ∷ ws) j (c ∷ s) =
    let rest = match_chunk ws (j + 1) s in if c == w then rest else differs

-- A place in the queue: the chunks in front of the last one, and the offset in the last one.
unfoldable pub behind : Option (ℕ × ℕ) → Option (ℕ × ℕ)
behind none = none
behind (some (k, offset)) = some (suc k, offset)

-- The loop over `cc`, from a chunk's start on.
unfoldable pub match_chunks : Bytes → List Bytes → Option (ℕ × ℕ)
match_chunks w [] = none
match_chunks w (c ∷ cs) = elim (match_chunk w 0 c) [
  | differs ↦ none
  | found offset ↦ some (0, offset)
  | wants w' ↦ behind (match_chunks w' cs)
]

-- The loop over `cc`, from the offset `j` of a chunk on.
unfoldable pub match_from : Bytes → ℕ → Bytes → List Bytes → Option (ℕ × ℕ)
match_from w j s cs = elim (match_chunk w j s) [
  | differs ↦ none
  | found offset ↦ some (0, offset)
  | wants w' ↦ behind (match_chunks w' cs)
]

-- The loop over `i`; `s` is the text of the chunk from `i` on.
unfoldable pub search_chunk : ℕ → Bytes → List Bytes → Option (ℕ × ℕ)
search_chunk i [] cs = none
search_chunk i (c ∷ s) cs =
    let rest = search_chunk (i + 1) s cs in
    if c == b'\r'
    then elim (match_from (b'\n' ∷ b'\r' ∷ b'\n' ∷ []) (i + 1) s cs) [
      | none ↦ rest
      | some p ↦ some p
    ]
    else rest

-- The loop over `c`: `last_chunk` and `last_offset`.
unfoldable pub search : List Bytes → Option (ℕ × ℕ)
search [] = none
search (c ∷ cs) = elim (search_chunk 0 c cs) [ none ↦ behind (search cs) | some p ↦ some p ]

-- The header is copied: the request, and what is left in the chunks.
unfoldable pub copy_header : ℕ → ℕ → List Bytes → Bytes × List Bytes
copy_header k offset [] = ([], [])
copy_header zero offset (c ∷ cs) = (take offset c, drop offset c ∷ cs)
copy_header (suc k) offset (c ∷ cs) =
    let (request, rest) = copy_header k offset cs in (c ++ request, [] ∷ rest)

-- The request, if its header has arrived, and the chunks behind it.
unfoldable pub take_header : List Bytes → Option (Bytes × List Bytes)
take_header chunks = elim (search chunks) [
  | none ↦ none
  | some (k, offset) ↦ some (copy_header k offset chunks)
]

-- `chunkqueue_remove_finished_chunks` on the chunks of the read queue.
unfoldable pub remove_finished : List Bytes → List Bytes
remove_finished [] = []
remove_finished ([] ∷ cs) = remove_finished cs
remove_finished ((c ∷ s) ∷ cs) = (c ∷ s) ∷ cs
