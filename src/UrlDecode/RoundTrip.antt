-- ===== src/UrlDecode/RoundTrip.antt =====
-- What the encoders write, and that the decoder reads it back.
use lighttpd_autothumb.Base.{
  ℕ, ◌/◌, ◌<◌, ◌≡◌, refl, ap, ◌∙◌, ◌≢◌, inl, inr, Bool, true, false, not, ◌&&◌, ◌||◌, Option, none,
  some, [], ◌∷◌, ◌++◌, arith, ltb, ◌==◌, if◌then◌else◌, ==_iff, Bool-cases, length, length-append,
  get_or, Bytes, All,
}
use lighttpd_autothumb.Chars.{int2hex, hex2int}
use lighttpd_autothumb.Chars.Hex.{all_below, all_below_lem}
use lighttpd_autothumb.UrlDecode.{
  Encoding, rel_uri, rel_uri_part, unset, encoded_chars, replacement, replacement_length,
  encode_byte, encode, encoded_length, unescaped, escape_value, escape, plain, urldecode,
}
use lighttpd_autothumb.UrlDecode.Tables.{encoded_chars_rel_uri, encoded_chars_rel_uri_part}

-- A byte that the decoder does not replace by `_`.
abbrev pub IsPrintable : ℕ → Type 0
IsPrintable c = (31 < c) × (c < 256) × (c ≢ 127)

length-encode_byte :
    (e : Encoding) (table : Bytes) (c : ℕ)
    → length (encode_byte e table c) ≡ (if get_or table c 0 == 0 then 1 else replacement_length e)
unfolding encode_byte replacement replacement_length
length-encode_byte unset table c = ground arith
length-encode_byte _ table c = ground arith

-- The first loop counts what the second one writes, for every encoding, table and text.
pub length-encode :
    (e : Encoding) (table s : Bytes) → length (encode e table s) ≡ encoded_length e table s
unfolding encode encoded_length
length-encode e table [] = refl
length-encode e table (c ∷ s) =
    length-append (encode_byte e table c) (encode e table s)
    ∙ omega (arith, length-encode_byte e table c, length-encode e table s)

is_some_of : ℕ → Option ℕ → Bool
is_some_of c none = false
is_some_of c (some v) = v == c

is_some_of_lem : (c : ℕ) (o : Option ℕ) → is_some_of c o ≡ true → o ≡ some c
unfolding is_some_of
is_some_of_lem c none h = cc
is_some_of_lem c (some v) h = ground arith

escape_table :
    all_below 256
      (λ c. ltb c 32 || c == 127 || is_some_of c (escape_value (int2hex (c / 16)) (int2hex c)))
    ≡ true
unfolding all_below escape_value unescaped int2hex hex2int is_some_of
escape_table = refl

escape_value-int2hex :
    (c : ℕ) → IsPrintable c → escape_value (int2hex (c / 16)) (int2hex c) ≡ some c
escape_value-int2hex c (lo, hi, del) =
    is_some_of_lem c _ (ground (arith, all_below_lem 256 _ c escape_table hi))

escape_percent : (q : Bool) (h l : ℕ) → escape q b'%' h l ≡ escape_value h l
unfolding escape
escape_percent true h l = refl
escape_percent false h l = refl

urldecode_escape :
    (q : Bool) (c : ℕ) (s : Bytes)
    → IsPrintable c
    → urldecode q (b'%' ∷ int2hex (c / 16) ∷ int2hex c ∷ s) ≡ c ∷ urldecode q s
unfolding urldecode
urldecode_escape q c s h = rw (escape_percent q _ _ ∙ escape_value-int2hex c h, urldecode)

-- A byte that the decoder copies, in a path and in a query.
abbrev IsPlain : ℕ → Type 0
IsPlain c = (c ≢ b'%') × (c ≢ b'+')

escape-plain : (q : Bool) (c h l : ℕ) → IsPlain c → (escape q c h l ≡ none) × (plain q c ≡ c)
unfolding escape plain
escape-plain true c h l p = ground arith
escape-plain false c h l p = ground arith

urldecode_plain :
    (q : Bool) (c : ℕ) (s : Bytes) → IsPlain c → urldecode q (c ∷ s) ≡ c ∷ urldecode q s
unfolding urldecode
urldecode_plain q c [] p = rw ((escape-plain q c 0 0 p).1)
urldecode_plain q c (h ∷ []) p = rw ((escape-plain q c 0 0 p).1)
urldecode_plain q c (h ∷ l ∷ s) p =
    rw ((escape-plain q c h l p).0, urldecode) (rw ((escape-plain q c h l p).1))

-- The encodings of a URI.
abbrev pub IsUri : Encoding → Type 0
IsUri rel_uri = Unit
IsUri rel_uri_part = Unit
IsUri _ = ⊥

uri_table :
    all_below 256 (λ c.
      if c == b'%' || c == b'+'
      then not (get_or encoded_chars_rel_uri c 0 == 0)
        && not (get_or encoded_chars_rel_uri_part c 0 == 0)
      else true)
    ≡ true
unfolding all_below encoded_chars_rel_uri encoded_chars_rel_uri_part
uri_table = refl

unmarked-IsPlain :
    (e : Encoding) (table : Bytes) (c : ℕ)
    → IsUri e
    → encoded_chars e ≡ some table
    → c < 256
    → get_or table c 0 ≡ 0
    → IsPlain c
unfolding encoded_chars
unmarked-IsPlain rel_uri table c u t h z = ground (arith, all_below_lem 256 _ c uri_table h)
unmarked-IsPlain rel_uri_part table c u t h z = ground (arith, all_below_lem 256 _ c uri_table h)
unmarked-IsPlain _ table c u t h z = absurd u

replacement-IsUri :
    (e : Encoding) (c : ℕ) → IsUri e → replacement e c ≡ b'%' ∷ int2hex (c / 16) ∷ int2hex c ∷ []
unfolding replacement
replacement-IsUri rel_uri c u = refl
replacement-IsUri rel_uri_part c u = refl
replacement-IsUri _ c u = absurd u

urldecode-encode_byte :
    (q : Bool) (e : Encoding) (table : Bytes) (c : ℕ) (s : Bytes)
    → IsUri e
    → encoded_chars e ≡ some table
    → IsPrintable c
    → urldecode q (encode_byte e table c ++ s) ≡ c ∷ urldecode q s
unfolding encode_byte
urldecode-encode_byte q e table c s u t p = elim (Bool-cases (get_or table c 0 == 0)) [
  | inl z ↦ rw z (urldecode_plain q c s (unmarked-IsPlain e table c u t p.1 ((==_iff _ _).0 z)))
  | inr z ↦ rw (z, replacement-IsUri e c u) (urldecode_escape q c s p)
]

-- Decoding, as a path or as a query, what the encoders of a URI write gives the text back, if each
-- of its bytes is at least 32, below 256 and not 127.
pub urldecode-encode :
    (q : Bool) (e : Encoding) (table s : Bytes)
    → IsUri e
    → encoded_chars e ≡ some table
    → All IsPrintable s
    → urldecode q (encode e table s) ≡ s
unfolding encode urldecode
urldecode-encode q e table [] u t p = refl
urldecode-encode q e table (c ∷ s) u t p =
    urldecode-encode_byte q e table c (encode e table s) u t p.0
    ∙ ap (◌∷◌ c) (urldecode-encode q e table s u t p.1)
