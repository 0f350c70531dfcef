-- ===== src/Number/Decimal.antt =====
-- Decimal text reads back as the number.
use lighttpd_autothumb.Base.{
  ℕ, zero, suc, ◌+◌, ◌-◌, ◌*◌, ◌/◌, ◌^◌, ◌≤◌, ◌<◌, ◌≡◌, refl, ap, ◌∙◌, [], ◌∷◌, ◌++◌, reverse,
  arith, ◌==◌, if◌then◌else◌, length, Bytes, All,
}
use mathlib.Core.List.{reverse-cons}
use native.Mathlib.Nat.{pow-suc}
use lighttpd_autothumb.Number.{ℤ, pos, negsuc, digits_loop, to_digits, ltostr}
use lighttpd_autothumb.PathSimplify.Refines.{length-reverse}

-- The value of decimal digits, the lowest first and the highest first.
abbrev pub low_first : Bytes → ℕ
low_first [] = 0
low_first (d ∷ ds) = (d - b'0') + 10 * low_first ds

abbrev pub read_from : ℕ → Bytes → ℕ
read_from acc [] = acc
read_from acc (d ∷ ds) = read_from (acc * 10 + (d - b'0')) ds

abbrev pub IsDigit : ℕ → Type 0
IsDigit d = (b'0' ≤ d) × (d ≤ b'9')

digits_loop-low_first : (fuel val : ℕ) → val < 10 ^ fuel → low_first (digits_loop fuel val) ≡ val
unfolding digits_loop
digits_loop-low_first zero val h = omega arith
digits_loop-low_first (suc fuel) val h =
    let smaller : val / 10 < 10 ^ fuel = omega (arith, pow-suc 10 fuel) in
    ground (arith, digits_loop-low_first fuel (val / 10) smaller)

digits_loop-IsDigit : (fuel val : ℕ) → All IsDigit (digits_loop fuel val)
unfolding digits_loop
digits_loop-IsDigit zero val = tt
digits_loop-IsDigit (suc fuel) val = ground (arith, digits_loop-IsDigit fuel (val / 10))

length-digits_loop : (fuel val : ℕ) → length (digits_loop fuel val) ≤ fuel
unfolding digits_loop
length-digits_loop zero val = omega arith
length-digits_loop (suc fuel) val = ground (arith, length-digits_loop fuel (val / 10))

read_from-append :
    (acc : ℕ) (xs : Bytes) (d : ℕ)
    → read_from acc (xs ++ d ∷ []) ≡ read_from acc xs * 10 + (d - b'0')
read_from-append acc [] d = refl
read_from-append acc (x ∷ xs) d = read_from-append (acc * 10 + (x - b'0')) xs d

read_from-reverse : (ds : Bytes) → read_from 0 (reverse ds) ≡ low_first ds
read_from-reverse [] = refl
read_from-reverse (d ∷ ds) =
    rw (reverse-cons d ds) (read_from-append 0 (reverse ds) d ∙ omega (arith, read_from-reverse ds))

-- `strtol` on a text of digits, with or without a minus in front.
abbrev pub read_long : Bytes → ℤ
read_long [] = pos 0
read_long (c ∷ s) = if c == b'-' then negsuc (read_from 0 s - 1) else pos (read_from 0 (c ∷ s))

fits : (n : ℕ) → n ≤ 2 ^ 63 → n < 10 ^ 20
fits n h = omega arith

read-to_digits : (n : ℕ) → n ≤ 2 ^ 63 → read_from 0 (to_digits n) ≡ n
unfolding to_digits
read-to_digits n h = read_from-reverse (digits_loop 20 n) ∙ digits_loop-low_first 20 n (fits n h)

All-snoc : (P : ℕ → Type 0) (xs : Bytes) (d : ℕ) → All P xs → P d → All P (xs ++ d ∷ [])
All-snoc P [] d a p = (p, tt)
All-snoc P (x ∷ xs) d a p = (a.0, All-snoc P xs d a.1 p)

All-reverse : (P : ℕ → Type 0) (ds : Bytes) → All P ds → All P (reverse ds)
All-reverse P [] a = tt
All-reverse P (d ∷ ds) a =
    rw (reverse-cons d ds) (All-snoc P (reverse ds) d (All-reverse P ds a.1) a.0)

to_digits-IsDigit : (n : ℕ) → All IsDigit (to_digits n)
unfolding to_digits
to_digits-IsDigit n = All-reverse IsDigit (digits_loop 20 n) (digits_loop-IsDigit 20 n)

read_digits : (s : Bytes) → All IsDigit s → read_long s ≡ pos (read_from 0 s)
read_digits [] a = refl
read_digits (c ∷ s) a = ground (arith, a.0)

-- A `long` other than the least one, whose negation overflows.
abbrev pub IsNegatable : ℤ → Type 0
IsNegatable (pos n) = n < 2 ^ 63
IsNegatable (negsuc n) = n + 1 < 2 ^ 63

-- The text of a number reads back as the number, for every `long` but the least one.
pub read_long-ltostr : (z : ℤ) → IsNegatable z → read_long (ltostr z) ≡ z
unfolding ltostr
read_long-ltostr (pos n) h =
    read_digits (to_digits n) (to_digits-IsDigit n) ∙ ap pos (read-to_digits n (omega arith))
read_long-ltostr (negsuc n) h = ap negsuc (omega (arith, read-to_digits (n + 1) (omega arith)))

-- The text has at most 21 bytes, so that it fits the 32 that `buffer_append_long` asks for.
pub length-ltostr : (z : ℤ) → length (ltostr z) ≤ 21
unfolding ltostr to_digits
length-ltostr (pos n) = omega (arith, length-reverse (digits_loop 20 n), length-digits_loop 20 n)
length-ltostr (negsuc n) =
    omega (arith, length-reverse (digits_loop 20 (n + 1)), length-digits_loop 20 (n + 1))
