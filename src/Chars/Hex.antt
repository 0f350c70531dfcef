-- ===== src/Chars/Hex.antt =====
-- Facts about `hex2int` and `int2hex` over all bytes, checked value by value.
use lighttpd_autothumb.Base.{
  ℕ, zero, suc, ◌%◌, ◌<◌, ◌≡◌, refl, ◌⊎◌, Bool, true, false, ◌&&◌, arith, ltb, ◌==◌, if◌then◌else◌,
  ==_iff,
}
use lighttpd_autothumb.Chars.{hex2int, int2hex, light_isxdigit}

-- A test of every number below `n`.
unfoldable pub all_below : ℕ → (ℕ → Bool) → Bool
all_below zero p = true
all_below (suc n) p = p n && all_below n p

pub all_below_lem : (n : ℕ) (p : ℕ → Bool) (x : ℕ) → all_below n p ≡ true → x < n → p x ≡ true
unfolding all_below
all_below_lem zero p x h lt = absurd (omega arith)
all_below_lem (suc n) p x h lt = ground (arith, all_below_lem n p x)

nibble_table : all_below 16 (λ n. hex2int (int2hex n) == n) ≡ true
unfolding all_below hex2int int2hex
nibble_table = refl

pub hex2int-int2hex_nibble : (n : ℕ) → n < 16 → hex2int (int2hex n) ≡ n
hex2int-int2hex_nibble n h = (==_iff _ n).0 (all_below_lem 16 _ n nibble_table h)

pub int2hex_mod : (n : ℕ) → int2hex n ≡ int2hex (n % 16)
unfolding int2hex
int2hex_mod n = let e : n % 16 % 16 ≡ n % 16 = omega arith in unfold int2hex in rw e

-- `hex2int` reads back the digit that `int2hex` writes for the low four bits of any number.
pub hex2int-int2hex : (n : ℕ) → hex2int (int2hex n) ≡ n % 16
hex2int-int2hex n = rw (int2hex_mod n) (hex2int-int2hex_nibble (n % 16) (omega arith))

digit_value_table :
    all_below 256 (λ c. if light_isxdigit c then ltb (hex2int c) 16 else hex2int c == 0xFF) ≡ true
unfolding all_below hex2int light_isxdigit
digit_value_table = refl

-- `hex2int` gives a value below 16 for exactly the bytes that `light_isxdigit` accepts, and 0xFF
-- for every other byte.
pub hex2int-light_isxdigit :
    (c : ℕ)
    → c < 256
    → ((light_isxdigit c ≡ true) × (hex2int c < 16))
      ⊎ ((light_isxdigit c ≡ false) × (hex2int c ≡ 0xFF))
hex2int-light_isxdigit c h = ground (arith, all_below_lem 256 _ c digit_value_table h)
