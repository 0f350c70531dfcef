-- ===== src/Request/Kept/Fields.antt =====
-- The header fields leave these parts alone.
use lighttpd_autothumb.Request.Kept.{
  OkAll, OkAll-if, Kept, Kept-same, insert_header-Kept, refuse-OkAll,
}
use lighttpd_autothumb.Uri.{lower}
use lighttpd_autothumb.Request.{Conf, Con, ok}
use lighttpd_autothumb.Request.Field.{
  Field, options, find_field, refuse as refuse_field, take_content_length, take_content_type,
  take_expect, take_host, take_if_modified_since, take_if_none_match, take_range, take_connection,
  take_field, connection, content_length, content_type, expect, host, if_modified_since,
  if_none_match, range, all_digits, same, is_range,
}
use lighttpd_autothumb.Base.{
  refl, inl, inr, Bool, true, false, ◌&&◌, some, map, if◌then◌else◌, Option-cases, drop, Bytes,
  codes, equal,
}

take_content_length-Kept :
    (key value : Bytes) (con : Con) → OkAll (Kept con) (take_content_length key value con)
unfolding take_content_length
take_content_length-Kept key value con =
    OkAll-if _ con.con_length_set _ _ (λ h. refuse-OkAll _ 400 key value con)
      (λ f.
        OkAll-if _ (all_digits value) _ _
          (λ h. insert_header-Kept key value con _ (refl, refl, refl, λ t. cc (t, f)))
          (λ h. refuse-OkAll _ 400 key value con))

take_content_type-Kept :
    (key value : Bytes) (con : Con) → OkAll (Kept con) (take_content_type key value con)
unfolding take_content_type
take_content_type-Kept key value con = elim (Option-cases con.http_content_type) [
  | inl n ↦
      rw (n, take_content_type)
        (insert_header-Kept key value con _ (refl, refl, refl, λ t. (t, refl)))
  | inr (old, is) ↦ rw (is, take_content_type) (refuse-OkAll _ 400 key value con)
]

take_expect-Kept :
    (conf : Conf) (key value : Bytes) (con : Con)
    → OkAll (Kept con) (take_expect conf key value con)
unfolding take_expect
take_expect-Kept conf key value con =
    OkAll-if _ (conf.reject_expect_100_with_417 && same value (codes "100-continue")) _ _
      (λ h. refuse-OkAll _ 417 key value con)
      (λ h. insert_header-Kept key value con con (Kept-same con))

take_host-Kept : (key value : Bytes) (con : Con) → OkAll (Kept con) (take_host key value con)
unfolding take_host
take_host-Kept key value con = elim (Option-cases con.reqline_host) [
  | inr (h, is) ↦ rw (is, take_host) (Kept-same con)
  | inl n ↦ elim (Option-cases con.http_host) [
    | inl m ↦
        rw (n, m, take_host) (insert_header-Kept key value con _ (refl, refl, refl, λ t. (t, refl)))
    | inr (h, is) ↦ rw (n, is, take_host) (refuse-OkAll _ 400 key value con)
  ]
]

take_if_modified_since-Kept :
    (key value : Bytes) (con : Con) → OkAll (Kept con) (take_if_modified_since key value con)
unfolding take_if_modified_since
take_if_modified_since-Kept key value con = elim (Option-cases con.http_if_modified_since) [
  | inl n ↦
      rw (n, take_if_modified_since)
        (insert_header-Kept key value con _ (refl, refl, refl, λ t. (t, refl)))
  | inr (old, is) ↦
      rw (is, take_if_modified_since)
        (OkAll-if (Kept con) (equal (map lower old) (map lower value)) (ok con)
          (refuse_field 400 key value con) (λ h. Kept-same con)
          (λ h. refuse-OkAll (Kept con) 400 key value con))
]

take_if_none_match-Kept :
    (key value : Bytes) (con : Con) → OkAll (Kept con) (take_if_none_match key value con)
unfolding take_if_none_match
take_if_none_match-Kept key value con = elim (Option-cases con.http_if_none_match) [
  | inl n ↦
      rw (n, take_if_none_match)
        (insert_header-Kept key value con _ (refl, refl, refl, λ t. (t, refl)))
  | inr (old, is) ↦ rw (is, take_if_none_match) (Kept-same con)
]

take_range-Kept : (key value : Bytes) (con : Con) → OkAll (Kept con) (take_range key value con)
unfolding take_range
take_range-Kept key value con = elim (Option-cases con.http_range) [
  | inl n ↦ rw (n, take_range) (insert_header-Kept key value con _ (if_kept (is_range value)))
  | inr (old, is) ↦ rw (is, take_range) (refuse-OkAll _ 400 key value con)
]
  where
    if_kept :
        (b : Bool) → Kept con (if b then record con { http_range = some (drop 6 value) } else con)
    if_kept true = (refl, refl, refl, λ t. (t, refl))
    if_kept false = Kept-same con

pub take_field-Kept :
    (conf : Conf) (key value : Bytes) (con : Con) → OkAll (Kept con) (take_field conf key value con)
unfolding take_field take_connection
take_field-Kept conf key value con = elim (Option-cases (find_field key options)) [
  | inl n ↦ rw (n, take_field) (insert_header-Kept key value con con (Kept-same con))
  | inr (f, is) ↦ rw (is, take_field) (field_cases f)
]
  where
    field_cases :
        (f : Field)
        → OkAll (Kept con) (elim f [
          | connection ↦ take_connection key value con
          | content_length ↦ take_content_length key value con
          | content_type ↦ take_content_type key value con
          | expect ↦ take_expect conf key value con
          | host ↦ take_host key value con
          | if_modified_since ↦ take_if_modified_since key value con
          | if_none_match ↦ take_if_none_match key value con
          | range ↦ take_range key value con
        ])
    field_cases connection = insert_header-Kept key value con _ (refl, refl, refl, λ t. (t, refl))
    field_cases content_length = take_content_length-Kept key value con
    field_cases content_type = take_content_type-Kept key value con
    field_cases expect = take_expect-Kept conf key value con
    field_cases host = take_host-Kept key value con
    field_cases if_modified_since = take_if_modified_since-Kept key value con
    field_cases if_none_match = take_if_none_match-Kept key value con
    field_cases range = take_range-Kept key value con
