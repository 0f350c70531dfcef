-- ===== src/Request/Kept/Loop.antt =====
-- The loop over the header lines leaves these parts alone.
use lighttpd_autothumb.Request.Kept.{OkAll, OkAll->>=, OkAll-map, Kept, Kept-same, Kept-trans}
use lighttpd_autothumb.Request.Kept.Fields.{take_field-Kept}
use lighttpd_autothumb.Array.{get_index}
use lighttpd_autothumb.Request.{Conf, Con, ok, stop, ◌>>=◌, reject, reject_all}
use lighttpd_autothumb.Request.Field.{take_field}
use lighttpd_autothumb.Request.Headers.{
  Part, in_key, in_value, in_folding, Move, go, line_end, header_end, refuse, refuse_all,
  append_folded, append_place, folded, end_line, strip_trailing, close_line, move, header_loop,
}
use lighttpd_autothumb.Base.{
  ℕ, refl, inl, inr, Bool, true, false, Option, none, some, [], ◌∷◌, ◌++◌, Option-cases, get_elem?,
  drop, Bytes,
}

append_place-Kept :
    (value : Bytes) (con : Con) (place : Option ℕ) → OkAll (Kept con) (append_place value con place)
unfolding append_place
append_place-Kept value con none = Kept-same con
append_place-Kept value con (some ndx) = elim (Option-cases (get_elem? con.headers.elements ndx)) [
  | inl n ↦ rw (n, append_place) tt
  | inr (e, is) ↦ rw (is, append_place) (refl, refl, refl, λ t. (t, refl))
]

append_folded-Kept :
    (key value : Bytes) (con : Con) → OkAll (Kept con) (append_folded key value con)
unfolding append_folded
append_folded-Kept key value con = elim (Option-cases (get_index con.headers (key ++ 0 ∷ []))) [
  | inl n ↦ rw (n, append_folded) tt
  | inr (r, is) ↦ rw (is, append_folded) (append_place-Kept value con r.0)
]

folded-Kept :
    (last : Option Bytes) (value : Bytes) (con : Con) → OkAll (Kept con) (folded last value con)
unfolding folded
folded-Kept none value con = tt
folded-Kept (some []) value con = tt
folded-Kept (some (c ∷ key)) value con = append_folded-Kept (c ∷ key) value con

end_line-Kept :
    (conf : Conf) (key value : Bytes) (con : Con) → OkAll (Kept con) (end_line conf key value con)
unfolding end_line
end_line-Kept conf key value con = value_cases (strip_trailing value)
  where
    value_cases :
        (v : Bytes)
        → OkAll (Kept con) (elim v [ [] ↦ ok con | c ∷ s ↦ take_field conf key (c ∷ s) con ])
    value_cases [] = Kept-same con
    value_cases (c ∷ s) = take_field-Kept conf key (c ∷ s) con

close_line-Kept :
    (conf : Conf) (last : Option Bytes) (part : Part) (con : Con)
    → OkAll (λ r. Kept con r.0) (close_line conf last part con)
unfolding close_line
close_line-Kept conf last (in_key key) con = Kept-same con
close_line-Kept conf last (in_value key value) con =
    OkAll->>= (Kept con) (λ r. Kept con r.0) (end_line conf key value con) _
      (end_line-Kept conf key value con) (λ c h. h)
close_line-Kept conf last (in_folding value) con =
    OkAll->>= (Kept con) (λ r. Kept con r.0) (folded last value con) _ (folded-Kept last value con)
      (λ c h. h)

pub header_loop-Kept :
    (conf : Conf) (skip : Bool) (last : Option Bytes) (part : Part) (con : Con) (s : Bytes)
    → OkAll (λ r. Kept con r.0) (header_loop conf skip last part con s)
unfolding header_loop
header_loop-Kept conf skip last part con [] = tt
header_loop-Kept conf true last part con (c ∷ s) = header_loop-Kept conf false last part con s
header_loop-Kept conf false last part con (c ∷ s) =
    move_cases (λ skip l p a. header_loop-Kept conf skip l p a s) (move part c s)
  where
    move_cases :
        ((skip : Bool) (l : Option Bytes) (p : Part) (a : Con)
          → OkAll (λ r. Kept a r.0) (header_loop conf skip l p a s))
        → (m : Move)
        → OkAll
            (λ r. Kept con r.0)
            (elim m [
              | go part' ↦ header_loop conf false last part' con s
              | line_end ↦
                  close_line conf last part con >>= λ r. header_loop conf true r.1 (in_key []) r.0 s
              | header_end ↦ ok (con, drop 1 s)
              | refuse ↦ stop (reject 400 con)
              | refuse_all ↦ stop (reject_all 400 con)
            ])
    move_cases loop (go part') = loop false last part' con
    move_cases loop line_end =
        OkAll->>= (λ r. Kept con r.0) (λ r. Kept con r.0) (close_line conf last part con) _
          (close_line-Kept conf last part con)
          (λ a h.
            OkAll-map (λ (r : Con × Bytes). Kept a.0 r.0) (λ r. Kept con r.0) _
              (λ r. Kept-trans con a.0 r.0 h) (loop true a.1 (in_key []) a.0))
    move_cases loop header_end = Kept-same con
    move_cases loop refuse = tt
    move_cases loop refuse_all = tt
