-- ===== src/ResponseHeaders.antt =====
-- The headers of a response: `response_header_insert` and `response_header_overwrite` of
-- src/http-header-glue.c, and `data_response_insert_dup` of src/data_string.c. The array is a list of
-- keys and values in the order in which they come in; the search in the array is that of a key.
use Prim.Native.Nat.{Ordering}
use lighttpd_autothumb.Caseless.{caseless_compare}
use lighttpd_autothumb.Base.{
  Bool, true, false, Option, none, some, List, [], ◌∷◌, ◌++◌, if◌then◌else◌, Bytes, codes,
}

unfoldable pub same_key : Bytes → Bytes → Bool
same_key a b = elim (caseless_compare a b) [ Ordering.eq ↦ true | _ ↦ false ]

unfoldable pub get_header : Bytes → List (Bytes × Bytes) → Option Bytes
get_header key [] = none
get_header key ((k, v) ∷ headers) = if same_key k key then some v else get_header key headers

-- `data_response_insert_dup`, where the old value is in use: the header stands twice.
unfoldable pub response_insert_dup : Bytes → Bytes → Bytes → Bytes
response_insert_dup key old new = old ++ (codes "\r\n" ++ (key ++ (codes ": " ++ new)))

unfoldable pub header_insert : Bytes → Bytes → List (Bytes × Bytes) → List (Bytes × Bytes)
header_insert key value [] = (key, value) ∷ []
header_insert key value ((k, v) ∷ headers) =
    if same_key k key
    then (k, response_insert_dup k v value) ∷ headers
    else (k, v) ∷ header_insert key value headers

unfoldable pub header_overwrite : Bytes → Bytes → List (Bytes × Bytes) → List (Bytes × Bytes)
header_overwrite key value [] = (key, value) ∷ []
header_overwrite key value ((k, v) ∷ headers) =
    if same_key k key then (k, value) ∷ headers else (k, v) ∷ header_overwrite key value headers
