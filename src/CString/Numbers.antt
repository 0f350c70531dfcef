-- ===== src/CString/Numbers.antt =====
-- Where `strtoll` stops, and the sign of what it gives.
use lighttpd_autothumb.Chars.{light_isdigit}
use lighttpd_autothumb.Number.{ℤ, pos, negsuc}
use lighttpd_autothumb.Request.Line.{skip_space}
use lighttpd_autothumb.CString.{strchr, digits, saturated, number_or, signed_or, strtoll}
use lighttpd_autothumb.Base.{
  ℕ, zero, suc, ◌+◌, ◌-◌, ◌*◌, ◌≤◌, ◌≡◌, refl, ◌∙◌, ◌⊎◌, inl, inr, Bool, true, false, some, [], ◌∷◌,
  arith, ◌==◌, if◌then◌else◌, Bool-cases, length, Bytes,
}

pub length-strchr : (c : ℕ) (s m : Bytes) → strchr c s ≡ some m → length m ≤ length s
unfolding strchr
length-strchr c [] m h = cc h
length-strchr c (d ∷ s) m h = ground (arith, length-strchr c s m)

length-skip_space : (s : Bytes) → length (skip_space s) ≤ length s
unfolding skip_space
length-skip_space [] = omega arith
length-skip_space (c ∷ s) = ground (arith, length-skip_space s)

length-digits : (n : ℕ) (s : Bytes) → length (digits n s).1 ≤ length s
unfolding digits
length-digits n [] = omega arith
length-digits n (c ∷ s) = ground (arith, length-digits (n * 10 + (c - b'0')) s)

length-number_or :
    (s : Bytes) (minus : Bool) (t : Bytes)
    → length t ≤ length s
    → length (number_or s minus t).1 ≤ length s
unfolding number_or
length-number_or s minus [] h = omega arith
length-number_or s minus (c ∷ t) h = ground (arith, length-digits 0 (c ∷ t))

length-signed_or : (s t : Bytes) → length t ≤ length s → length (signed_or s t).1 ≤ length s
unfolding signed_or
length-signed_or s [] h = omega arith
length-signed_or s (c ∷ t) h =
    ground (
      arith,
      length-number_or s true t,
      length-number_or s false t,
      length-number_or s false (c ∷ t),
    )

-- The place where the number stops is in the text.
pub length-strtoll : (s : Bytes) → length (strtoll s).1 ≤ length s
unfolding strtoll
length-strtoll s = length-signed_or s (skip_space s) (length-skip_space s)

skip-strchr : (s : Bytes) → strchr b'-' (skip_space s) ≡ strchr b'-' s
unfolding skip_space strchr
skip-strchr [] = refl
skip-strchr (c ∷ s) = ground (arith, skip-strchr s)

saturated-pos : (n : ℕ) → (m : ℕ) × (saturated false n ≡ pos m)
unfolding saturated
saturated-pos zero = (0, refl)
saturated-pos (suc n) = (_, refl)

-- The number is not negative.
abbrev pub IsPos : ℤ → Type 0
IsPos (pos n) = Unit
IsPos (negsuc n) = ⊥

abbrev pub IsNonpos : ℤ → Type 0
IsNonpos (pos n) = n ≡ 0
IsNonpos (negsuc n) = Unit

number-IsPos : (s t : Bytes) → IsPos (number_or s false t).0
unfolding number_or
number-IsPos s [] = tt
number-IsPos s (c ∷ t) = elim (Bool-cases (light_isdigit c)) [
  | inl d ↦ rw (d, (saturated-pos (digits 0 (c ∷ t)).0).1) tt
  | inr d ↦ rw d tt
]

-- A negative number ends behind a minus.
minus-Stops :
    (s t : Bytes) → IsPos (number_or s true t).0 ⊎ (length (number_or s true t).1 ≤ length t)
unfolding number_or
minus-Stops s [] = inl tt
minus-Stops s (c ∷ t) = elim (Bool-cases (light_isdigit c)) [
  | inl d ↦ rw d (inr (length-digits 0 (c ∷ t)))
  | inr d ↦ rw d (inl tt)
]

signed-IsPos :
    (s t m : Bytes)
    → strchr b'-' t ≡ some m
    → length m ≤ length (signed_or s t).1
    → IsPos (signed_or s t).0
unfolding signed_or strchr
signed-IsPos s [] m h le = tt
signed-IsPos s (c ∷ t) m h le = elim (Bool-cases (c == b'-')) [
  | inl d ↦ rw d (elim (minus-Stops s t) [ inl p ↦ p | inr q ↦ absurd (ground (arith, q)) ])
  | inr d ↦ rw d (number-IsPos s (if c == b'+' then t else c ∷ t))
]

-- A number that stops at the first minus of the text, or in front of it, is not negative.
pub strtoll-IsPos :
    (s m : Bytes) → strchr b'-' s ≡ some m → length m ≤ length (strtoll s).1 → IsPos (strtoll s).0
unfolding strtoll
strtoll-IsPos s m h le = signed-IsPos s (skip_space s) m (skip-strchr s ∙ h) le

number-IsNonpos : (s t : Bytes) → IsNonpos (number_or s true t).0
unfolding number_or saturated
number-IsNonpos s [] = refl
number-IsNonpos s (c ∷ t) = elim (Bool-cases (light_isdigit c)) [
  | inl d ↦ rw d (least (digits 0 (c ∷ t)).0)
  | inr d ↦ rw d refl
]
  where
    least : (n : ℕ) → IsNonpos (saturated true n)
    least zero = refl
    least (suc n) = tt

-- A text that begins with a minus gives no positive number.
pub strtoll-IsNonpos : (t : Bytes) → IsNonpos (strtoll (b'-' ∷ t)).0
unfolding strtoll skip_space signed_or
strtoll-IsNonpos t = number-IsNonpos (b'-' ∷ t) t
