-- ===== src/UrlDecode/Safe.antt =====
-- What cannot stand in an encoded text, nor in a decoded one.
use lighttpd_autothumb.Base.{
  ℕ, ◌/◌, ◌%◌, ◌≤◌, ◌<◌, ◌≡◌, refl, ◌≢◌, inl, inr, Bool, true, not, ◌&&◌, ◌||◌, some, [], ◌∷◌, ◌++◌,
  arith, ◌==◌, if◌then◌else◌, ==_iff, Bool-cases, Option-cases, length, get_or, Bytes, All,
}
use lighttpd_autothumb.Chars.{int2hex, hex2int}
use lighttpd_autothumb.Chars.Hex.{all_below, all_below_lem, int2hex_mod}
use lighttpd_autothumb.UrlDecode.{
  html, minimal_xml, http_header, replacement, encode, encode_byte, encoded_chars, Encoding,
  unescaped, escape_value, escape, plain, urldecode,
}
use lighttpd_autothumb.UrlDecode.Tables.{
  encoded_chars_http_header, encoded_chars_html, encoded_chars_minimal_xml,
}

pub All-append {ℓ} :
    (P : ℕ → Type ℓ) (front back : Bytes) → All P front → All P back → All P (front ++ back)
All-append P [] back f b = b
All-append P (c ∷ front) back f b = (f.0, All-append P front back f.1 b)

-- Not a control character.
abbrev pub NotControl : ℕ → Type 0
NotControl c = (31 < c) × (c ≢ 127)

unescaped-NotControl : (high low : ℕ) → NotControl (unescaped high low)
unfolding unescaped
unescaped-NotControl high low = ground arith

escape-NotControl : (q : Bool) (c h l v : ℕ) → escape q c h l ≡ some v → NotControl v
unfolding escape escape_value
escape-NotControl q c h l v e = ground (arith, unescaped-NotControl (hex2int h) (hex2int l))

plain-NotControl : (q : Bool) (c : ℕ) → NotControl c → NotControl (plain q c)
unfolding plain
plain-NotControl q c h = ground arith

-- Decoding brings no control character into a text that has none: whatever an escape stands for,
-- the result has no byte below 32 and no 127. So `%00` cannot cut a path short.
pub urldecode-NotControl :
    (q : Bool) (s : Bytes) → All NotControl s → All NotControl (urldecode q s)
unfolding urldecode
urldecode-NotControl q [] a = tt
urldecode-NotControl q (c ∷ []) a = (plain-NotControl q c a.0, tt)
urldecode-NotControl q (c ∷ h ∷ []) a =
    (plain-NotControl q c a.0, urldecode-NotControl q (h ∷ []) a.1)
urldecode-NotControl q (c ∷ h ∷ l ∷ s) a = elim (Option-cases (escape q c h l)) [
  | inl e ↦ rw (e, urldecode) (plain-NotControl q c a.0, urldecode-NotControl q (h ∷ l ∷ s) a.1)
  | inr (v, e) ↦ rw (e, urldecode) (escape-NotControl q c h l v e, urldecode-NotControl q s a.1.1.1)
]

-- Decoding never makes a text longer.
pub length-urldecode : (q : Bool) (s : Bytes) → length (urldecode q s) ≤ length s
unfolding urldecode
length-urldecode q [] = omega arith
length-urldecode q (c ∷ []) = omega arith
length-urldecode q (c ∷ h ∷ []) = omega (arith, length-urldecode q (h ∷ []))
length-urldecode q (c ∷ h ∷ l ∷ s) = elim (Option-cases (escape q c h l)) [
  | inl e ↦ rw (e, urldecode) (omega (arith, length-urldecode q (h ∷ l ∷ s)))
  | inr (v, e) ↦ rw (e, urldecode) (omega (arith, length-urldecode q s))
]

-- Markup: `<` and `>`, and the quotation mark is left alone by the source.
abbrev pub NotMarkup : ℕ → Type 0
NotMarkup c = (c ≢ b'<') × (c ≢ b'>')

markup_table :
    all_below 256 (λ c.
      if c == b'<' || c == b'>'
      then not (get_or encoded_chars_html c 0 == 0)
        && not (get_or encoded_chars_minimal_xml c 0 == 0)
      else true)
    ≡ true
unfolding all_below encoded_chars_html encoded_chars_minimal_xml
markup_table = refl

int2hex_table : all_below 16 (λ c. not (int2hex c == b'<' || int2hex c == b'>')) ≡ true
unfolding all_below int2hex
int2hex_table = refl

int2hex-NotMarkup : (c : ℕ) → NotMarkup (int2hex c)
int2hex-NotMarkup c =
    rw (int2hex_mod c) (ground (arith, all_below_lem 16 _ (c % 16) int2hex_table (omega arith)))

-- The encodings for markup.
abbrev pub IsXml : Encoding → Type 0
IsXml html = Unit
IsXml minimal_xml = Unit
IsXml _ = ⊥

replacement-NotMarkup : (e : Encoding) (c : ℕ) → IsXml e → All NotMarkup (replacement e c)
unfolding replacement
replacement-NotMarkup html c x = ground (arith, int2hex-NotMarkup (c / 16), int2hex-NotMarkup c)
replacement-NotMarkup minimal_xml c x =
    ground (arith, int2hex-NotMarkup (c / 16), int2hex-NotMarkup c)
replacement-NotMarkup _ c x = absurd x

unmarked-NotMarkup :
    (e : Encoding) (table : Bytes) (c : ℕ)
    → IsXml e
    → encoded_chars e ≡ some table
    → c < 256
    → get_or table c 0 ≡ 0
    → NotMarkup c
unfolding encoded_chars
unmarked-NotMarkup html table c x t h z = ground (arith, all_below_lem 256 _ c markup_table h)
unmarked-NotMarkup minimal_xml table c x t h z =
    ground (arith, all_below_lem 256 _ c markup_table h)
unmarked-NotMarkup _ table c x t h z = absurd x

encode_byte-NotMarkup :
    (e : Encoding) (table : Bytes) (c : ℕ)
    → IsXml e
    → encoded_chars e ≡ some table
    → c < 256
    → All NotMarkup (encode_byte e table c)
unfolding encode_byte
encode_byte-NotMarkup e table c x t h = elim (Bool-cases (get_or table c 0 == 0)) [
  | inl z ↦ rw z (unmarked-NotMarkup e table c x t h ((==_iff _ _).0 z), tt)
  | inr z ↦ rw z (replacement-NotMarkup e c x)
]

-- The two encodings for markup leave no `<` and no `>` in the result, whatever the bytes.
pub encode-NotMarkup :
    (e : Encoding) (table s : Bytes)
    → IsXml e
    → encoded_chars e ≡ some table
    → All (λ c. c < 256) s
    → All NotMarkup (encode e table s)
unfolding encode
encode-NotMarkup e table [] x t h = tt
encode-NotMarkup e table (c ∷ s) x t h =
    All-append NotMarkup (encode_byte e table c) (encode e table s)
      (encode_byte-NotMarkup e table c x t h.0) (encode-NotMarkup e table s x t h.1)

-- Each line feed is followed by a tab, so that what stands behind it is a continuation line.
abbrev pub IsFolded : Bytes → Type 0
IsFolded [] = Unit
IsFolded (c ∷ []) = c ≢ b'\n'
IsFolded (c ∷ d ∷ s) = (c ≡ b'\n' → d ≡ b'\t') × IsFolded (d ∷ s)

newline_table :
    all_below 256 (λ c.
      if c == b'\n'
      then get_or encoded_chars_http_header c 0 == 1
      else get_or encoded_chars_http_header c 0 == 0)
    ≡ true
unfolding all_below encoded_chars_http_header
newline_table = refl

IsFolded-cons : (c : ℕ) (s : Bytes) → c ≢ b'\n' → IsFolded s → IsFolded (c ∷ s)
IsFolded-cons c [] h f = h
IsFolded-cons c (d ∷ s) h f = ((λ e. absurd (h e)), f)

-- The encoding for headers lets no line of the text begin at the margin: each of its line feeds is
-- followed by a tab.
pub encode-IsFolded :
    (table s : Bytes)
    → encoded_chars http_header ≡ some table
    → All (λ c. c < 256) s
    → IsFolded (encode http_header table s)
unfolding encode encode_byte encoded_chars replacement
encode-IsFolded table [] t h = tt
encode-IsFolded table (c ∷ s) t h = elim (Bool-cases (get_or table c 0 == 0)) [
  | inl z ↦ rw z (
      IsFolded-cons c _ (ground (arith, all_below_lem 256 _ c newline_table h.0))
        (encode-IsFolded table s t h.1))
  | inr z ↦ rw z ((λ e. refl), IsFolded-cons b'\t' _ (omega arith) (encode-IsFolded table s t h.1))
]
