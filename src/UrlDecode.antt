-- ===== src/UrlDecode.antt =====
-- `buffer_append_string_encoded` and `buffer_urldecode_internal` of src/buffer.c, on texts.
-- The loop of the first writes the replacement of each byte behind that of the byte before; the
-- second reads at `src` and writes at `dst`, which never overtakes `src`, so the texts that it
-- reads and writes are apart.
pub mod Tables
pub mod RoundTrip
pub mod Safe
use lighttpd_autothumb.Base.{
  ℕ, ◌+◌, ◌*◌, ◌/◌, ◌%◌, Bool, true, false, ◌&&◌, ◌||◌, Option, none, some, [], ◌∷◌, ◌++◌, ltb,
  ◌==◌, if◌then◌else◌, get_or, Bytes,
}
use Prim.Native.Nat.{bit_or}
use lighttpd_autothumb.Chars.{int2hex, hex2int}
use Tables.{
  encoded_chars_rel_uri, encoded_chars_rel_uri_part, encoded_chars_html, encoded_chars_minimal_xml,
  encoded_chars_hex, encoded_chars_http_header,
}

pub data Encoding : Type 0 where
  unset rel_uri rel_uri_part html minimal_xml hex http_header : Encoding

-- The choice of `map`; it stays NULL, and an assertion fails, for `ENCODING_UNSET`.
unfoldable pub encoded_chars : Encoding → Option Bytes
encoded_chars unset = none
encoded_chars rel_uri = some encoded_chars_rel_uri
encoded_chars rel_uri_part = some encoded_chars_rel_uri_part
encoded_chars html = some encoded_chars_html
encoded_chars minimal_xml = some encoded_chars_minimal_xml
encoded_chars hex = some encoded_chars_hex
encoded_chars http_header = some encoded_chars_http_header

-- What the second loop writes for a byte that `map` marks.
unfoldable pub replacement : Encoding → ℕ → Bytes
replacement unset c = []
replacement rel_uri c = b'%' ∷ int2hex (c / 16) ∷ int2hex c ∷ []
replacement rel_uri_part c = b'%' ∷ int2hex (c / 16) ∷ int2hex c ∷ []
replacement html c = b'&' ∷ b'#' ∷ b'x' ∷ int2hex (c / 16) ∷ int2hex c ∷ b';' ∷ []
replacement minimal_xml c = b'&' ∷ b'#' ∷ b'x' ∷ int2hex (c / 16) ∷ int2hex c ∷ b';' ∷ []
replacement hex c = int2hex (c / 16) ∷ int2hex c ∷ []
replacement http_header c = c ∷ b'\t' ∷ []

-- What the first loop adds to `d_len` for a byte that `map` marks.
unfoldable pub replacement_length : Encoding → ℕ
replacement_length unset = 0
replacement_length rel_uri = 3
replacement_length rel_uri_part = 3
replacement_length html = 6
replacement_length minimal_xml = 6
replacement_length hex = 2
replacement_length http_header = 2

unfoldable pub encode_byte : Encoding → Bytes → ℕ → Bytes
encode_byte e table c = if get_or table c 0 == 0 then c ∷ [] else replacement e c

-- The second loop: the bytes from `d` on.
unfoldable pub encode : Encoding → Bytes → Bytes → Bytes
encode e table [] = []
encode e table (c ∷ s) = encode_byte e table c ++ encode e table s

-- The first loop: `d_len`.
unfoldable pub encoded_length : Encoding → Bytes → Bytes → ℕ
encoded_length e table [] = 0
encoded_length e table (c ∷ s) =
    (if get_or table c 0 == 0 then 1 else replacement_length e) + encoded_length e table s

-- `high << 4 | low`, with the control characters mapped out.
unfoldable pub unescaped : ℕ → ℕ → ℕ
unescaped high low =
    let c = bit_or (high * 16 % 256) low in if ltb c 32 || c == 127 then b'_' else c

-- The byte that `%hl` stands for, where both are hex digits.
unfoldable pub escape_value : ℕ → ℕ → Option ℕ
escape_value h l =
    if hex2int h == 0xFF
    then none
    else if hex2int l == 0xFF
    then none
    else some (unescaped (hex2int h) (hex2int l))

--  The two bytes behind `src` matter only at a `%` that is not taken as a `+` of a query.
unfoldable pub escape : Bool → ℕ → ℕ → ℕ → Option ℕ
escape is_query c h l =
    if is_query && c == b'+' then none else if c == b'%' then escape_value h l else none

unfoldable pub plain : Bool → ℕ → ℕ
plain is_query c = if is_query && c == b'+' then b' ' else c

-- The loop over a text without its closing zero. Behind the last byte stands that zero, whose
-- `hex2int` is 0xFF, so that no escape begins at the last two bytes.
unfoldable pub urldecode : Bool → Bytes → Bytes
urldecode q [] = []
urldecode q (c ∷ []) = plain q c ∷ []
urldecode q (c ∷ h ∷ []) = plain q c ∷ urldecode q (h ∷ [])
urldecode q (c ∷ h ∷ l ∷ s) = elim (escape q c h l) [
  | some v ↦ v ∷ urldecode q s
  | none ↦ plain q c ∷ urldecode q (h ∷ l ∷ s)
]

-- Up to the first zero byte, where `while ((*src) != '\0')` stops.
unfoldable pub c_string : Bytes → Bytes
c_string [] = []
c_string (c ∷ s) = if c == 0 then [] else c ∷ c_string s

unfoldable pub urldecode_path : Bytes → Bytes
urldecode_path url = urldecode false (c_string url)

unfoldable pub urldecode_query : Bytes → Bytes
urldecode_query url = urldecode true (c_string url)
