-- ===== src/Chars.antt =====
-- Character classes and hex digits of src/buffer.c: `hex_chars`, `int2hex`, `hex2int`, `light_is*`.
-- An `unsigned char` is a number below 256; its arithmetic is written with `% 256`.
pub mod Hex
use Prim.Native.Nat.{bit_or}
use lighttpd_autothumb.Base.{
  ℕ, ◌+◌, ◌-◌, ◌%◌, Bool, true, ◌&&◌, ◌||◌, ltb, leb, if◌then◌else◌, Bytes, codes, get_or,
}

abbrev pub hex_chars : Bytes
hex_chars = codes "0123456789abcdef"

-- `hex_chars[(c & 0x0F)]`; the low four bits of an unsigned number are its remainder by 16.
unfoldable pub int2hex : ℕ → ℕ
int2hex c = get_or hex_chars (c % 16) 0

-- The fallback of `hex2int`: `hex` comes in as `hex - '0'`, and both steps wrap at eight bits.
abbrev pub hex_letter : ℕ → ℕ
hex_letter hex = (bit_or ((hex + b'0' + 256 - 1) % 256) 0x20 + 256 - b'a' + 11) % 256

unfoldable pub hex2int : ℕ → ℕ
hex2int c =
    let hex = (c + 256 - b'0') % 256 in
    let hex' = if ltb 9 hex then hex_letter hex else hex in if ltb 15 hex' then 0xFF else hex'

unfoldable pub light_isdigit : ℕ → Bool
light_isdigit c = leb b'0' c && leb c b'9'

unfoldable pub light_isxdigit : ℕ → Bool
unfolding light_isdigit
light_isxdigit c =
    if light_isdigit c then true else let c' = bit_or c 32 in leb b'a' c' && leb c' b'f'

unfoldable pub light_isalpha : ℕ → Bool
light_isalpha c = let c' = bit_or c 32 in leb b'a' c' && leb c' b'z'

unfoldable pub light_isalnum : ℕ → Bool
unfolding light_isdigit light_isalpha
light_isalnum c = light_isdigit c || light_isalpha c
