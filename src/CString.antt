-- ===== src/CString.antt =====
-- Functions of the C library on texts without their closing zero, with 64-bit integers that carry a
-- sign: `strchr`, and `strtoll` in base 10 with the place where it stops.
pub mod Numbers
use lighttpd_autothumb.Chars.{light_isdigit}
use lighttpd_autothumb.Number.{ℤ, pos, negsuc, pos_part, neg_part}
use lighttpd_autothumb.Request.Line.{skip_space}
use lighttpd_autothumb.Base.{
  ℕ, zero, suc, ◌+◌, ◌-◌, ◌*◌, ◌%◌, ◌^◌, Bool, true, false, Option, none, some, [], ◌∷◌, ltb, leb,
  ◌==◌, if◌then◌else◌, Bytes,
}

-- The text from the first `c` on.
unfoldable pub strchr : ℕ → Bytes → Option Bytes
strchr c [] = none
strchr c (d ∷ s) = let rest = strchr c s in if d == c then some (d ∷ s) else rest

-- The number in front, and the text behind it.
unfoldable pub digits : ℕ → Bytes → ℕ × Bytes
digits n [] = (n, [])
digits n (c ∷ s) =
    let rest = digits (n * 10 + (c - b'0')) s in if light_isdigit c then rest else (n, c ∷ s)

-- `LLONG_MAX` and `LLONG_MIN` stand for what does not fit.
unfoldable pub saturated : Bool → ℕ → ℤ
saturated minus zero = pos 0
saturated false (suc n) = pos (if ltb (suc n) (2 ^ 63) then suc n else 2 ^ 63 - 1)
saturated true (suc n) = negsuc (if ltb n (2 ^ 63) then n else 2 ^ 63 - 1)

-- Without a digit the number is 0 and the text is left whole.
unfoldable pub number_or : Bytes → Bool → Bytes → ℤ × Bytes
number_or s minus [] = (pos 0, s)
number_or s minus (c ∷ t) =
    if light_isdigit c
    then (let (n, rest) = digits 0 (c ∷ t) in (saturated minus n, rest))
    else (pos 0, s)

unfoldable pub signed_or : Bytes → Bytes → ℤ × Bytes
signed_or s [] = (pos 0, s)
signed_or s (c ∷ t) =
    if c == b'-' then number_or s true t else number_or s false (if c == b'+' then t else c ∷ t)

unfoldable pub strtoll : Bytes → ℤ × Bytes
strtoll s = signed_or s (skip_space s)

abbrev pub sub_ℕ : ℕ → ℕ → ℤ
sub_ℕ a b = if leb b a then pos (a - b) else negsuc (b - a - 1)

infixl 65 ◌+ℤ◌ ◌-ℤ◌
unfoldable pub ◌+ℤ◌ : ℤ → ℤ → ℤ
a +ℤ b = sub_ℕ (pos_part a + pos_part b) (neg_part a + neg_part b)

unfoldable pub ◌-ℤ◌ : ℤ → ℤ → ℤ
a -ℤ b = sub_ℕ (pos_part a + neg_part b) (neg_part a + pos_part b)

-- `a < b`.
abbrev pub lt_ℤ : ℤ → ℤ → Bool
lt_ℤ a b = ltb (pos_part a + neg_part b) (pos_part b + neg_part a)

-- The pattern of 64 bits.
unfoldable pub pattern_of : ℤ → ℕ
pattern_of (pos n) = n % 2 ^ 64
pattern_of (negsuc n) = (2 ^ 64 - 1 - n % 2 ^ 64) % 2 ^ 64
