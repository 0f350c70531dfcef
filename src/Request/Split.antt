-- ===== src/Request/Split.antt =====
-- `http_request_split_value` of src/request.c: the values of a list that commas part. The values go
-- into an array under keys that it makes itself, so that each is appended.
use lighttpd_autothumb.Base.{
  ℕ, Bool, true, false, ◌||◌, List, [], ◌∷◌, ◌++◌, ◌==◌, if◌then◌else◌, Bytes,
}

abbrev pub is_ws : ℕ → Bool
is_ws c = c == b' ' || c == b'\t'

-- `for (; *end is white space && end > start; end--)`: the first byte stays.
unfoldable pub strip_end : Bytes → Bytes
strip_end [] = []
strip_end (c ∷ s) = elim (strip_end s) [
  | [] ↦ c ∷ []
  | d ∷ t ↦ elim t [ [] ↦ (if is_ws d then c ∷ [] else c ∷ d ∷ []) | x ∷ u ↦ c ∷ d ∷ x ∷ u ]
]

-- `state` is whether a value has begun, and `value` what of it is read.
unfoldable pub split_loop : Bool → Bytes → Bytes → List Bytes
split_loop false value [] = []
split_loop true value [] = strip_end value ∷ []
split_loop false value (c ∷ s) =
    let blank = split_loop false [] s in
    let start = split_loop true (c ∷ []) s in
    if is_ws c then blank else if c == b',' then [] ∷ blank else start
split_loop true value (c ∷ s) =
    let next = split_loop false [] s in
    let more = split_loop true (value ++ c ∷ []) s in
    if c == b',' then strip_end value ∷ next else more

unfoldable pub split_value : Bytes → List Bytes
split_value s = split_loop false [] s
