-- ===== src/PathSimplify.antt =====
-- `buffer_path_simplify` of src/buffer.c.
-- The bytes that stand in `dest` in front of `out` are the list `written`, newest first, so that
-- `out - start` is its length; a move of `out` to the left drops bytes, and one to the right, which
-- the code makes only over a byte it has written, is `rewind` to one more. `src` is read at `walk`
-- only, ahead of `out` when the two buffers are one, so `walk` is the text not yet read; its end is
-- the zero byte.
pub mod Spec
pub mod Steps
pub mod Refines
pub mod Clean
pub mod Twice
use lighttpd_autothumb.Base.{
  ℕ, ◌+◌, ◌-◌, ◌*◌, ◌%◌, Bool, true, false, ◌&&◌, ◌||◌, [], ◌∷◌, ◌++◌, reverse, ltb, ◌==◌,
  if◌then◌else◌, length, drop, Bytes,
}
use lighttpd_autothumb.UrlDecode.{c_string}

-- `while (*walk == ' ') walk++;`
unfoldable pub skip_spaces : Bytes → Bytes
skip_spaces [] = []
skip_spaces (c ∷ walk) = let rest = skip_spaces walk in if c == b' ' then rest else c ∷ walk

-- `(pre << 8) | pre1` in an unsigned short. `pre1` is a signed char: a byte from 128 on is
-- negative, and sets the upper half.
unfoldable pub shift_in : ℕ → ℕ → ℕ
shift_in pre pre1 = if ltb pre1 128 then (pre * 256 + pre1) % 65536 else 0xFF00 + pre1

-- `out = start + n;` where `n` bytes or more are written.
unfoldable pub rewind : ℕ → Bytes → Bytes
rewind n written = drop (length written - n) written

-- `out--; while (out > start && *out != '/') out--;`: the byte at `out`, and those in front of it.
unfoldable pub scan_back : Bytes → ℕ × Bytes
scan_back [] = (0, [])
scan_back (x ∷ []) = (x, [])
scan_back (x ∷ y ∷ written) =
    let rest = scan_back (y ∷ written) in if x == b'/' then (x, y ∷ written) else rest

-- The branch for `..`; `front` is what stands in front of `slash`, and `one` the first byte.
unfoldable pub to_parent : Bool → Bytes → Bytes → Bytes
to_parent at_end [] one = if at_end then one else []
to_parent at_end (c ∷ front) one =
    let (at_out, rest) = scan_back (c ∷ front) in if at_end then at_out ∷ rest else rest

-- The body of `if (c == '/' || c == '\0')`; `at_end` is `c == '\0'`.
unfoldable pub close_token : Bool → Bytes → ℕ → ℕ → Bytes
close_token at_end written slash pre =
    let toklen = length written - slash in
    if toklen == 3 && pre == 0x2E2E
    then to_parent at_end (rewind slash written) (rewind 1 written)
    else if toklen == 1 || pre == 0x2F2E
    then rewind (if at_end then slash + 1 else slash) written
    else written

-- `while (1)`; the text is `c` followed by what `walk` points to, and empty where `c` is zero.
unfoldable pub simplify_loop : Bytes → ℕ → ℕ → Bytes → Bytes
simplify_loop written slash pre [] = close_token true written slash pre
simplify_loop written slash pre (c ∷ walk) =
    let written' = if c == b'/' then close_token false written slash pre else written in
    let slash' = if c == b'/' then length written' else slash in
    simplify_loop (c ∷ written') slash' (shift_in pre c) walk

-- What the call has stored in `dest`, from its first byte on, and `dest->used`.
pub record Simplified : Type 0 where
  pub stored : Bytes
  pub used : ℕ

unfoldable pub terminated : Bytes → Simplified
terminated written = record { stored = reverse written ++ 0 ∷ []; used = length written + 1 }

-- The part behind the spaces. An empty text leaves `/` and a zero, and counts one byte more.
unfoldable pub simplify_from : Bytes → Simplified
simplify_from [] = record { stored = b'/' ∷ 0 ∷ []; used = 3 }
simplify_from (pre1 ∷ walk) =
    if pre1 == b'/'
    then terminated (simplify_loop (b'/' ∷ []) 0 (shift_in 0 pre1) walk)
    else terminated (simplify_loop (pre1 ∷ b'/' ∷ []) 0 (shift_in b'/' pre1) walk)

unfoldable pub path_simplify : Bytes → Simplified
path_simplify src = simplify_from (skip_spaces (c_string src))
