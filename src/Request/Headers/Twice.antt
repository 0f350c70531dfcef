-- ===== src/Request/Headers/Twice.antt =====
-- Two lengths of one body.
use lighttpd_autothumb.Array.{insert_key}
use lighttpd_autothumb.Request.{
  Conf, Con, Result, ok, stop, fault, ◌>>=◌, reject, string_insert_dup, insert_header,
}
use lighttpd_autothumb.Request.Field.{
  content_length, find_field, options, all_digits, strtoul, refuse as refuse_field,
  take_content_length, take_field,
}
use lighttpd_autothumb.Request.Kept.Fields.{take_field-Kept}
use lighttpd_autothumb.Request.Kept.{
  OkAll, OkAll->>=, OkAll-map, OkAll-if, Kept, Kept-same, insert_header-Kept, refuse-OkAll,
}
use lighttpd_autothumb.Request.Headers.{in_key, header_loop}
use lighttpd_autothumb.Request.Headers.Printed.{
  IsField, print_fields, take_fields, header_loop-print_fields, >>=_assoc, >>=_ext,
}
use lighttpd_autothumb.Base.{
  ℕ, Bool, ◌≡◌, refl, sym, ◌∙◌, inl, inr, true, false, Option, some, List, [], ◌∷◌, ◌++◌,
  Option-cases, Bytes, All, All-both, if_cases,
}

abbrev pub IsContentLength : Bytes → Type 0
IsContentLength key = find_field key options ≡ some content_length

length_field :
    (conf : Conf) (key value : Bytes) (con : Con)
    → IsContentLength key
    → take_field conf key value con ≡ take_content_length key value con
unfolding take_field
length_field conf key value con h = rw (h, take_field) refl

length_set :
    (conf : Conf) (key value : Bytes) (con : Con)
    → IsContentLength key
    → OkAll (λ r. r.con_length_set ≡ true) (take_field conf key value con)
unfolding take_content_length
length_set conf key value con h = rw (length_field conf key value con h) (
    OkAll-if (λ r. r.con_length_set ≡ true) con.con_length_set _ _
      (λ t. refuse-OkAll (λ r. r.con_length_set ≡ true) 400 key value con)
      (λ f.
        OkAll-if (λ r. r.con_length_set ≡ true) (all_digits value) _ _
          (λ d.
            OkAll-map (Kept taken) (λ r. r.con_length_set ≡ true) (insert_header key value taken)
              (λ r kept. (kept.3 refl).0)
              (insert_header-Kept key value taken taken (Kept-same taken)))
          (λ d. refuse-OkAll (λ r. r.con_length_set ≡ true) 400 key value con)))
  where
    taken : Con
    taken = record con { con_length_set = true; content_length = strtoul value }

-- Refused with the status 400 on a connection that is not kept alive, or a fault of the array.
abbrev pub Refused {ℓ} : {A : Type ℓ} → Result A → Type 0
Refused (ok a) = ⊥
Refused (stop con) = (con.http_status ≡ 400) × (con.keep_alive ≡ false)
Refused fault = Unit

Refused->>= {ℓ κ} :
    {A : Type ℓ} {B : Type κ} (r : Result A) (f : A → Result B) → Refused r → Refused (r >>= f)
Refused->>= (ok a) f h = absurd h
Refused->>= (stop con) f h = h
Refused->>= fault f h = tt

-- An insertion does not refuse a request, and leaves the status alone.
abbrev Inserted : ℕ → Bool → Result Con → Type 0
Inserted status keep_alive (ok r) = (r.http_status ≡ status) × (r.keep_alive ≡ keep_alive)
Inserted status keep_alive (stop r) = ⊥
Inserted status keep_alive fault = Unit

insert_header-Inserted :
    (key value : Bytes) (con : Con)
    → Inserted con.http_status con.keep_alive (insert_header key value con)
unfolding insert_header
insert_header-Inserted key value con =
    elim (Option-cases (insert_key string_insert_dup (λ a b. true) con.headers key value)) [
      | inl n ↦ rw (n, insert_header) tt
      | inr (r, is) ↦ rw (is, insert_header) (refl, refl)
    ]

stop-Refused : (r : Result Con) → Inserted 400 false r → Refused (◌>>=◌ {B = Con} r (λ c. stop c))
stop-Refused (ok c) h = h
stop-Refused (stop c) h = absurd h
stop-Refused fault h = tt

refuse-Refused : (key value : Bytes) (con : Con) → Refused (refuse_field 400 key value con)
unfolding refuse_field reject
refuse-Refused key value con =
    stop-Refused (insert_header key value (reject 400 con))
      (insert_header-Inserted key value (reject 400 con))

length_again :
    (conf : Conf) (key value : Bytes) (con : Con)
    → IsContentLength key
    → con.con_length_set ≡ true
    → Refused (take_field conf key value con)
unfolding take_content_length
length_again conf key value con h is = rw (length_field conf key value con h) (
    if_cases (λ (r : Result Con). Refused r) con.con_length_set _ _
      (λ t. refuse-Refused key value con) (λ f. cc (is, f)))

take_fields-append :
    (conf : Conf) (front back : List (Bytes × Bytes)) (con : Con)
    → take_fields conf (front ++ back) con ≡ (take_fields conf front con >>= take_fields conf back)
unfolding take_fields
take_fields-append conf [] back con = refl
take_fields-append conf ((key, value) ∷ front) back con =
    >>=_ext (take_field conf key value con) (take_fields-append conf front back)
    ∙ sym
        (>>=_assoc (take_field conf key value con) (take_fields conf front) (take_fields conf back))

still_set :
    (conf : Conf) (fields : List (Bytes × Bytes)) (con : Con)
    → con.con_length_set ≡ true
    → OkAll (λ r. r.con_length_set ≡ true) (take_fields conf fields con)
unfolding take_fields
still_set conf [] con is = is
still_set conf ((k, v) ∷ fields) con is =
    OkAll->>= (Kept con) (λ r. r.con_length_set ≡ true) (take_field conf k v con) _
      (take_field-Kept conf k v con) (λ r kept. still_set conf fields r (kept.3 is).0)

fields_set :
    (conf : Conf) (before between : List (Bytes × Bytes)) (key value : Bytes) (con : Con)
    → IsContentLength key
    → OkAll (λ r. r.con_length_set ≡ true) (take_fields conf (before ++ (key, value) ∷ between) con)
unfolding take_fields
fields_set conf [] between key value con h =
    OkAll->>= (λ r. r.con_length_set ≡ true) (λ r. r.con_length_set ≡ true)
      (take_field conf key value con) _ (length_set conf key value con h)
      (λ r is. still_set conf between r is)
fields_set conf ((k, v) ∷ before) between key value con h =
    OkAll->>= (Kept con) (λ r. r.con_length_set ≡ true) (take_field conf k v con) _
      (take_field-Kept conf k v con) (λ r kept. fields_set conf before between key value r h)

-- What is done with more lines, where the first result is what is done without them: it is refused as
-- it is already, or else as above.
abbrev pub RefusedAfter : Result (Con × Bytes) → Result (Con × Bytes) → Type 0
RefusedAfter (ok a) r = Refused r
RefusedAfter (stop con) r = r ≡ stop con
RefusedAfter fault r = r ≡ fault

fields_after :
    (conf : Conf) (after : List (Bytes × Bytes)) (key value rest : Bytes) (r : Result Con)
    → IsContentLength key
    → OkAll (λ c. c.con_length_set ≡ true) r
    → RefusedAfter
        (r >>= λ c. ok (c, rest))
        ((r >>= take_fields conf ((key, value) ∷ after)) >>= λ c. ok (c, rest))
unfolding take_fields
fields_after conf after key value rest (ok con) h is =
    Refused->>= (take_field conf key value con >>= take_fields conf after) (λ c. ok (c, rest))
      (Refused->>= (take_field conf key value con) (take_fields conf after)
        (length_again conf key value con h is))
fields_after conf after key value rest (stop con) h is = refl
fields_after conf after key value rest fault h is = refl

-- Header lines as they are written, with keys of plain characters and values that are not empty, have
-- no control character but tabs and neither begin nor end with a blank. A second line with a key that
-- the parser takes for Content-Length, wherever the two stand and whatever the values are: if the lines
-- in front of it are refused, the request is refused in the same way; else it is refused with the
-- status 400 and not kept alive, if the array of headers does not fault.
pub header_loop-twice :
    (conf : Conf) (last : Option Bytes) (before between after : List (Bytes × Bytes))
    (key value key' value' : Bytes) (con : Con) (rest : Bytes)
    → IsContentLength key
    → IsContentLength key'
    → All IsField (before ++ (key, value) ∷ between)
    → All IsField ((key', value') ∷ after)
    → RefusedAfter
        (header_loop conf false last
          (in_key [])
          con
          (print_fields (before ++ (key, value) ∷ between) rest))
        (header_loop conf false last
          (in_key [])
          con
          (print_fields ((before ++ (key, value) ∷ between) ++ (key', value') ∷ after) rest))
header_loop-twice conf last before between after key value key' value' con rest h h' front back =
    let fields = before ++ (key, value) ∷ between in
    let all = All-both IsField fields ((key', value') ∷ after) front back in
    rw
      (
        header_loop-print_fields conf last fields con rest front,
        header_loop-print_fields conf last (fields ++ (key', value') ∷ after) con rest all,
        take_fields-append conf fields ((key', value') ∷ after) con,
      )
      (fields_after conf after key' value' rest (take_fields conf fields con) h'
        (fields_set conf before between key value con h))
