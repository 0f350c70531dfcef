-- ===== src/Number.antt =====
-- Numbers as text: `LI_ltostr`, `buffer_append_long`, `buffer_append_long_hex` and
-- `buffer_copy_string_hex` of src/buffer.c. A `long` has 64 bits; `negsuc n` is -(n + 1).
pub mod Decimal
use lighttpd_autothumb.Base.{
  ℕ, zero, suc, ◌+◌, ◌/◌, ◌%◌, ◌^◌, [], ◌∷◌, reverse, ltb, ◌==◌, if◌then◌else◌, Bytes,
}
use lighttpd_autothumb.Chars.{int2hex}

pub data ℤ : Type 0 where
  pos : ℕ → ℤ
  negsuc : ℕ → ℤ

abbrev pub pos_part : ℤ → ℕ
pos_part (pos n) = n
pos_part (negsuc n) = 0

abbrev pub neg_part : ℤ → ℕ
neg_part (pos n) = 0
neg_part (negsuc n) = suc n

-- `while (val > 9)`, and the last digit behind the loop: the digits, lowest first. The value falls to
-- a tenth with each round, so that twenty rounds are enough for 64 bits.
unfoldable pub digits_loop : ℕ → ℕ → Bytes
digits_loop zero val = []
digits_loop (suc fuel) val =
    let rest = digits_loop fuel (val / 10) in
    if ltb 9 val then (b'0' + val % 10) ∷ rest else (b'0' + val) ∷ []

-- The loop that swaps the ends, from the outside in, turns the digits round.
unfoldable pub to_digits : ℕ → Bytes
to_digits val = reverse (digits_loop 20 val)

-- `LI_ltostr`: the text that it writes; the closing zero is behind it, and what it returns is the
-- text's length.
unfoldable pub ltostr : ℤ → Bytes
ltostr (pos n) = to_digits n
ltostr (negsuc n) = b'-' ∷ to_digits (n + 1)

-- `while (copy) { copy >>= 4; shift++; }`: the hex digits of a number below 16 ^ fuel.
unfoldable pub hex_length : ℕ → ℕ → ℕ
hex_length zero copy = 0
hex_length (suc fuel) copy =
    let rest = hex_length fuel (copy / 16) in if copy == 0 then 0 else suc rest

-- The digits that `buffer_append_long_hex` writes: at least one pair.
unfoldable pub hex_pairs : ℕ → ℕ
hex_pairs value =
    let n = hex_length 16 value in
    let shift = if n == 0 then n + 1 else n in if shift % 2 == 1 then shift + 1 else shift

-- `while (shift > 0)` from `4 * n` down.
unfoldable pub hex_loop : ℕ → ℕ → Bytes
hex_loop zero value = []
hex_loop (suc n) value = int2hex (value / 16 ^ n) ∷ hex_loop n value

unfoldable pub long_hex : ℕ → Bytes
long_hex value = hex_loop (hex_pairs value) value

-- `buffer_copy_string_hex`: two digits for each byte.
unfoldable pub string_hex : Bytes → Bytes
string_hex [] = []
string_hex (c ∷ s) = int2hex (c / 16) ∷ int2hex c ∷ string_hex s
