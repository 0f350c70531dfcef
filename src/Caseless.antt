-- ===== src/Caseless.antt =====
-- `buffer_caseless_compare` of src/buffer.c. The first loop only skips words that are the same on
-- both sides, so the second decides. A `char` is signed: a byte from 128 on comes before all others.
use lighttpd_autothumb.Base.{ℕ, ◌+◌, ◌%◌, Bool, ◌&&◌, [], ◌∷◌, leb, if◌then◌else◌, Bytes}
use Prim.Native.Nat.{compare, Ordering}

unfoldable pub signed : ℕ → ℕ
signed c = (c + 128) % 256

abbrev pub is_upper : ℕ → Bool
is_upper c = leb b'A' c && leb c b'Z'

abbrev pub is_lower : ℕ → Bool
is_lower c = leb b'a' c && leb c b'z'

-- The two characters as they are subtracted; only a letter against one of the other case is folded.
unfoldable pub compare_chars : ℕ → ℕ → Ordering
compare_chars a b =
    if is_upper a && is_lower b
    then compare (signed (a + 32)) (signed b)
    else if is_lower a && is_upper b
    then compare (signed a) (signed (b + 32))
    else compare (signed a) (signed b)

-- The sign of what the function returns; lengths fit an `int`.
unfoldable pub caseless_compare : Bytes → Bytes → Ordering
caseless_compare [] [] = Ordering.eq
caseless_compare [] (b ∷ t) = Ordering.lt
caseless_compare (a ∷ s) [] = Ordering.gt
caseless_compare (a ∷ s) (b ∷ t) =
    let rest = caseless_compare s t in
    elim (compare_chars a b) [
      | Ordering.lt ↦ Ordering.lt
      | Ordering.eq ↦ rest
      | Ordering.gt ↦ Ordering.gt
    ]
