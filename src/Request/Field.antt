-- ===== src/Request/Field.antt =====
-- A header field of a request: the options that the parser takes a value from, and what it does with
-- each.
use lighttpd_autothumb.Caseless.{caseless_compare}
use lighttpd_autothumb.Uri.{lower}
use lighttpd_autothumb.Chars.{light_isdigit}
use lighttpd_autothumb.Array.{used}
use lighttpd_autothumb.Request.{
  ◌>>=◌, Conf, Con, Result, ok, stop, reject, insert_header, KeepAlive, keepalive, close,
}
use lighttpd_autothumb.Request.Split.{split_value}
use Prim.Native.Nat.{Ordering}
use lighttpd_autothumb.Base.{
  ℕ, ◌+◌, ◌-◌, ◌*◌, ◌^◌, Bool, true, false, ◌&&◌, ◌||◌, Option, none, some, List, [], ◌∷◌, map, ltb,
  ◌==◌, if◌then◌else◌, take, drop, Bytes, codes, equal,
}

pub data Field : Type 0 where
  connection content_length content_type expect host if_modified_since if_none_match range : Field

-- The options in the order of the comparisons.
unfoldable pub options : List (Bytes × Field)
options =
    (codes "Connection", connection)
    ∷ (codes "Content-Length", content_length)
    ∷ (codes "Content-Type", content_type)
    ∷ (codes "Expect", expect)
    ∷ (codes "Host", host)
    ∷ (codes "If-Modified-Since", if_modified_since)
    ∷ (codes "If-None-Match", if_none_match)
    ∷ (codes "Range", range)
    ∷ []

-- `else if (cmp > 0 && 0 == (cmp = buffer_caseless_compare(…)))`.
unfoldable pub find_field : Bytes → List (Bytes × Field) → Option Field
find_field key [] = none
find_field key ((name, field) ∷ fields) =
    let rest = find_field key fields in
    elim (caseless_compare key name) [
      | Ordering.eq ↦ some field
      | Ordering.gt ↦ rest
      | Ordering.lt ↦ none
    ]

abbrev pub same : Bytes → Bytes → Bool
same s t = elim (caseless_compare s t) [ Ordering.eq ↦ true | _ ↦ false ]

-- The loop over the values of a Connection header.
unfoldable pub keep_alive_of : List Bytes → KeepAlive → KeepAlive
keep_alive_of [] old = old
keep_alive_of (value ∷ values) old =
    let rest = keep_alive_of values old in
    if same value (codes "keep-alive")
    then keepalive
    else if same value (codes "close")
    then close
    else rest

abbrev pub all_digits : Bytes → Bool
all_digits [] = true
all_digits (c ∷ s) = light_isdigit c && all_digits s

unfoldable pub decimal : ℕ → Bytes → ℕ
decimal n [] = n
decimal n (c ∷ s) = decimal (n * 10 + (c - b'0')) s

-- `strtoul` on digits: a number that does not fit is the largest one.
unfoldable pub strtoul : Bytes → ℕ
strtoul s = if ltb (decimal 0 s) (2 ^ 64) then decimal 0 s else 2 ^ 64 - 1

-- The header is kept, and the request is refused.
unfoldable pub refuse : ℕ → Bytes → Bytes → Con → Result Con
refuse status key value con = do con' ← insert_header key value (reject status con); stop con'

unfoldable pub take_content_length : Bytes → Bytes → Con → Result Con
take_content_length key value con =
    if con.con_length_set
    then refuse 400 key value con
    else if all_digits value
    then insert_header key value
        (record con { con_length_set = true; content_length = strtoul value })
    else refuse 400 key value con

unfoldable pub take_content_type : Bytes → Bytes → Con → Result Con
take_content_type key value con = elim con.http_content_type [
  | none ↦ insert_header key value (record con { http_content_type = some value })
  | some old ↦ refuse 400 key value con
]

unfoldable pub take_expect : Conf → Bytes → Bytes → Con → Result Con
take_expect conf key value con =
    if conf.reject_expect_100_with_417 && same value (codes "100-continue")
    then refuse 417 key value con
    else insert_header key value con

-- A host of the request line makes all others be dropped.
unfoldable pub take_host : Bytes → Bytes → Con → Result Con
take_host key value con = elim con.reqline_host [
  | some h ↦ ok con
  | none ↦ elim con.http_host [
    | none ↦ insert_header key value (record con { http_host = some (used con.headers) })
    | some h ↦ refuse 400 key value con
  ]
]

unfoldable pub take_if_modified_since : Bytes → Bytes → Con → Result Con
take_if_modified_since key value con = elim con.http_if_modified_since [
  | none ↦ insert_header key value (record con { http_if_modified_since = some value })
  | some old ↦ if equal (map lower old) (map lower value) then ok con else refuse 400 key value con
]

unfoldable pub take_if_none_match : Bytes → Bytes → Con → Result Con
take_if_none_match key value con = elim con.http_if_none_match [
  | none ↦ insert_header key value (record con { http_if_none_match = some value })
  | some old ↦ ok con
]

abbrev pub has_minus : Bytes → Bool
has_minus [] = false
has_minus (c ∷ s) = c == b'-' || has_minus s

-- `bytes=`, in any case, and a `-` behind it.
unfoldable pub is_range : Bytes → Bool
is_range value = equal (map lower (take 6 value)) (codes "bytes=") && has_minus (drop 6 value)

unfoldable pub take_range : Bytes → Bytes → Con → Result Con
take_range key value con = elim con.http_range [
  | none ↦
      insert_header key value
        (if is_range value then record con { http_range = some (drop 6 value) } else con)
  | some old ↦ refuse 400 key value con
]

unfoldable pub take_connection : Bytes → Bytes → Con → Result Con
take_connection key value con =
    insert_header key value
      (record con { keep_alive_set = keep_alive_of (split_value value) con.keep_alive_set })

-- A field with a value that is not empty.
unfoldable pub take_field : Conf → Bytes → Bytes → Con → Result Con
take_field conf key value con = elim (find_field key options) [
  | none ↦ insert_header key value con
  | some f ↦ elim f [
    | connection ↦ take_connection key value con
    | content_length ↦ take_content_length key value con
    | content_type ↦ take_content_type key value con
    | expect ↦ take_expect conf key value con
    | host ↦ take_host key value con
    | if_modified_since ↦ take_if_modified_since key value con
    | if_none_match ↦ take_if_none_match key value con
    | range ↦ take_range key value con
  ]
]
