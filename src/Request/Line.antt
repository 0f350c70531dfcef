-- ===== src/Request/Line.antt =====
-- The first line of a request: `<method> <uri> <protocol>\r\n`.
pub mod Written
use lighttpd_autothumb.UrlDecode.{c_string}
use lighttpd_autothumb.KeyValue.{get_http_method_key}
use lighttpd_autothumb.Chars.{light_isdigit}
use lighttpd_autothumb.Request.{◌>>=◌, Conf, Con, Result, ok, stop, reject, reject_all}
use lighttpd_autothumb.Base.{
  ℕ, ◌+◌, ◌-◌, ◌*◌, ◌%◌, ◌^◌, Bool, true, false, not, ◌&&◌, ◌||◌, Option, none, some, [], ◌∷◌, ◌++◌,
  ltb, leb, ◌==◌, if◌then◌else◌, length, take, drop, Bytes, codes, equal,
}

pub data Line : Type 0 where
  -- the request has no line
  no_line : Line
  -- a third blank
  overlong : Line
  -- the number of blanks, the three parts, and what is behind the line
  ended : ℕ → Bytes → Bytes → Bytes → Bytes → Line

abbrev pub starts_with_lf : Bytes → Bool
starts_with_lf [] = false
starts_with_lf (c ∷ s) = c == b'\n'

-- The first loop; `part` is the text from `first` on.
unfoldable pub scan_line : ℕ → Bytes → Bytes → Bytes → Bytes → Line
scan_line stage method uri part [] = no_line
scan_line stage method uri part (c ∷ s) =
    let after_method = scan_line 1 part uri [] s in
    let after_uri = scan_line 2 method part [] s in
    let go_on = scan_line stage method uri (part ++ c ∷ []) s in
    if c == b'\r' && starts_with_lf s
    then ended stage method uri part (drop 1 s)
    else if c == b' '
    then (if stage == 0 then after_method else if stage == 1 then after_uri else overlong)
    else go_on

-- The text of the first line, without its end.
unfoldable pub first_line : Bytes → Bytes
first_line [] = []
first_line (c ∷ s) =
    let rest = first_line s in if c == b'\r' && starts_with_lf s then [] else c ∷ rest

abbrev pub is_space : ℕ → Bool
is_space c = c == b' ' || (leb 9 c && leb c 13)

unfoldable pub skip_space : Bytes → Bytes
skip_space [] = []
skip_space (c ∷ s) = let rest = skip_space s in if is_space c then rest else c ∷ s

-- Digits to the end of the text, and the number that they stand for.
unfoldable pub number_from : ℕ → Bytes → Option ℕ
number_from n [] = some n
number_from n (c ∷ s) =
    let rest = number_from (n * 10 + (c - b'0')) s in if light_isdigit c then rest else none

unfoldable pub number : Bytes → Option ℕ
number [] = none
number (c ∷ s) = number_from 0 (c ∷ s)

-- The low 32 bits of a `long`, to which `strtol` has cut the number.
unfoldable pub int_of : Bool → ℕ → ℕ
int_of minus n =
    let limit = 2 ^ 63 in
    if minus
    then (2 ^ 64 - (if ltb limit n then limit else n)) % 2 ^ 32
    else (if leb limit n then limit - 1 else n) % 2 ^ 32

unfoldable pub to_int : Bool → Option ℕ → Option ℕ
to_int minus none = none
to_int minus (some n) = some (int_of minus n)

unfoldable pub signed_number : Bytes → Option ℕ
signed_number [] = none
signed_number (c ∷ s) =
    if c == b'-'
    then to_int true (number s)
    else to_int false (number (if c == b'+' then s else c ∷ s))

-- `strtol(s, &err, 10)` into an `int`, where `*err` is the end of the text.
unfoldable pub strtol_int : Bytes → Option ℕ
strtol_int s = signed_number (skip_space s)

-- The text in front of the first dot, and the text behind it.
unfoldable pub split_dot : Bytes → Option (Bytes × Bytes)
split_dot [] = none
split_dot (c ∷ s) =
    let rest = split_dot s in
    if c == b'.'
    then some ([], s)
    else elim rest [ none ↦ none | some (front, back) ↦ some (c ∷ front, back) ]

pub data Version : Type 0 where
  invalid unsupported v1_0 v1_1 : Version

unfoldable pub version_of : ℕ → ℕ → Version
version_of major minor =
    if major == 1 && minor == 1
    then v1_1
    else if major == 1 && minor == 0
    then v1_0
    else unsupported

unfoldable pub parse_numbers : Bytes → Bytes → Version
parse_numbers [] minor = invalid
parse_numbers (c ∷ major) [] = invalid
parse_numbers (c ∷ major) (d ∷ minor) = elim (strtol_int (c ∷ major)) [
  | none ↦ invalid
  | some m ↦ elim (strtol_int (d ∷ minor)) [ none ↦ invalid | some n ↦ version_of m n ]
]

-- The protocol, as the text up to its first zero.
unfoldable pub parse_version : Bytes → Version
parse_version proto =
    if equal (take 5 proto) (codes "HTTP/")
    then elim (split_dot (drop 5 proto)) [
      | none ↦ invalid
      | some (major, minor) ↦ parse_numbers major minor
    ]
    else invalid

-- `strchr(s, '/')`: the text in front of the slash, and the text from it on.
unfoldable pub find_slash : Bytes → Option (Bytes × Bytes)
find_slash [] = none
find_slash (c ∷ s) =
    let rest = find_slash s in
    if c == 0
    then none
    else if c == b'/'
    then some ([], c ∷ s)
    else elim rest [ none ↦ none | some (front, back) ↦ some (c ∷ front, back) ]

-- `reqline_host` and the URI without it, where the URI begins with this scheme.
unfoldable pub with_scheme : Bytes → Bytes → Option (Bytes × Bytes)
with_scheme scheme uri =
    if equal (take (length scheme) uri) scheme then find_slash (drop (length scheme) uri) else none

unfoldable pub split_uri : Bytes → Option Bytes × Bytes
split_uri uri = elim (with_scheme (codes "http://") uri) [
  | some (host, path) ↦ (some host, path)
  | none ↦ elim (with_scheme (codes "https://") uri) [
    | some (host, path) ↦ (some host, path)
    | none ↦ (none, uri)
  ]
]

unfoldable pub uri_is_valid_char : ℕ → Bool
uri_is_valid_char c = not (leb c 32) && not (c == 127) && not (c == 255)

abbrev pub all_valid : Bytes → Bool
all_valid [] = true
all_valid (c ∷ s) = uri_is_valid_char c && all_valid s

-- From the protocol on.
unfoldable pub take_uri : ℕ → Bytes → Con → Result Con
take_uri version uri con =
    let (host, path) = split_uri uri in
    let con' = record con { http_version = version; reqline_host = host; uri = some path } in
    if all_valid path
    then ok (record con' { orig_uri = some path; http_status = 0 })
    else stop (reject 400 con')

unfoldable pub take_version : Conf → Bytes → Bytes → Con → Result Con
take_version conf uri proto con = elim (parse_version (c_string proto)) [
  | invalid ↦ stop (reject 400 con)
  | unsupported ↦ stop (record con { http_status = 505 })
  | v1_1 ↦ take_uri (if conf.allow_http11 then 1 else 0) uri con
  | v1_0 ↦ take_uri 0 uri con
]

-- The body of `case '\r'`.
unfoldable pub take_line : Conf → ℕ → Bytes → Bytes → Bytes → Con → Result Con
take_line conf stage method uri proto con =
    if stage == 2
    then elim (get_http_method_key (c_string method)) [
      | none ↦ stop (reject_all 501 con)
      | some r ↦ take_version conf uri proto (record con { http_method = r })
    ]
    else stop (reject_all 400 con)

-- The connection and the text behind the line, if there is a line.
unfoldable pub parse_line : Conf → Bytes → Con → Result (Con × Option Bytes)
parse_line conf text con = elim (scan_line 0 [] [] [] text) [
  | no_line ↦ ok (con, none)
  | overlong ↦ stop (reject_all 400 con)
  | ended stage method uri proto rest ↦ do
    con' ←
        take_line conf stage method uri proto (record con { request_line = some (first_line text) })
    ok (con', some rest)
]
