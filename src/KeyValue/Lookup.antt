-- ===== src/KeyValue/Lookup.antt =====
-- Looking up a value by its key and a key by its value are inverse in a table without repetitions.
use lighttpd_autothumb.Base.{ℕ, ◌≡◌, ◌↔◌, none, some, List, [], ◌∷◌, arith, Bytes, equal, equal_iff}
use lighttpd_autothumb.KeyValue.{
  http_versions, http_methods, get_value, get_key, get_http_version_name, get_http_method_name,
  get_http_version_key, get_http_method_key,
}

-- No key and no value stands twice.
abbrev pub Distinct : List (ℕ × Bytes) → Type 0
Distinct [] = Unit
Distinct ((key, value) ∷ kv) = (get_value kv key ≡ none) × (get_key kv value ≡ none) × Distinct kv

get_value→get_key :
    (kv : List (ℕ × Bytes)) (k : ℕ) (s : Bytes)
    → Distinct kv
    → get_value kv k ≡ some s
    → get_key kv s ≡ some k
unfolding get_value get_key
get_value→get_key [] k s d h = cc
get_value→get_key ((key, value) ∷ kv) k s d h =
    ground (arith, equal_iff value s, get_value→get_key kv k s d.2, d.0, d.1, h)

get_key→get_value :
    (kv : List (ℕ × Bytes)) (k : ℕ) (s : Bytes)
    → Distinct kv
    → get_key kv s ≡ some k
    → get_value kv k ≡ some s
unfolding get_value get_key
get_key→get_value [] k s d h = cc
get_key→get_value ((key, value) ∷ kv) k s d h =
    ground (arith, equal_iff value s, get_key→get_value kv k s d.2, d.0, d.1, h)

-- In a table in which no key and no value stands twice, a key gives a value exactly when the value
-- gives the key.
pub get_value-get_key :
    (kv : List (ℕ × Bytes)) (k : ℕ) (s : Bytes)
    → Distinct kv
    → (get_value kv k ≡ some s) ↔ (get_key kv s ≡ some k)
get_value-get_key kv k s d = (get_value→get_key kv k s d, get_key→get_value kv k s d)

http_methods-Distinct : Distinct http_methods
unfolding http_methods get_value get_key equal
http_methods-Distinct = ground arith

http_versions-Distinct : Distinct http_versions
unfolding http_versions get_value get_key equal
http_versions-Distinct = ground arith

-- The names and the numbers of the methods belong together one to one, and so do those of the
-- versions: a request's method that is recognised is printed as it came.
pub http-key-name :
    (k : ℕ) (s : Bytes)
    → ((get_http_method_name k ≡ some s) ↔ (get_http_method_key s ≡ some k))
      × ((get_http_version_name k ≡ some s) ↔ (get_http_version_key s ≡ some k))
unfolding get_http_method_name get_http_method_key get_http_version_name get_http_version_key
http-key-name k s = (
  get_value-get_key http_methods k s http_methods-Distinct,
  get_value-get_key http_versions k s http_versions-Distinct,
)
