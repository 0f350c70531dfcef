-- ===== src/Uri/Access.antt =====
-- `mod_access` denies exactly the paths that end in a configured value.
use lighttpd_autothumb.Base.{
  ℕ, ◌+◌, ◌-◌, ◌≤◌, ◌≡◌, refl, sym, ap, ◌∙◌, ◌⊎◌, inl, inr, Bool, true, false, Option, none, some,
  List, [], ◌∷◌, ◌++◌, map, arith, ltb, Bool-cases, length, length-append, take, drop,
  take-append-drop, length-map, Bytes, equal_iff,
}
use lighttpd_autothumb.Uri.{
  lower, same_text, go_on, finished, Connection, access_denied, access_uri_handler,
}

-- The path ends in the value: as it stands, or after both are made lower case.
abbrev pub EndsIn : Bool → Bytes → Bytes → Type 0
EndsIn true path value =
    (front : Bytes) × (back : Bytes) × (path ≡ front ++ back) × (map lower back ≡ map lower value)
EndsIn false path value = (front : Bytes) × (path ≡ front ++ value)

abbrev pub IsDenied : Bool → Bytes → List (Option Bytes) → Type 0
IsDenied fold path [] = ⊥
IsDenied fold path (none ∷ deny) = IsDenied fold path deny
IsDenied fold path (some value ∷ deny) = EndsIn fold path value ⊎ IsDenied fold path deny

drop-append : (front back : Bytes) (n : ℕ) → n ≡ length front → drop n (front ++ back) ≡ back
drop-append [] back n e = rw e
drop-append (c ∷ front) back n e = rw e (drop-append front back (length front) refl)

same_text-EndsIn :
    (fold : Bool) (path value : Bytes)
    → same_text fold (drop (length path - length value) path) value ≡ true
    → EndsIn fold path value
unfolding same_text
same_text-EndsIn true path value h =
    let n = length path - length value in
    (take n path, drop n path, sym (take-append-drop n path), (equal_iff _ _).0 h)
same_text-EndsIn false path value h =
    let n = length path - length value in
    (take n path, sym (take-append-drop n path) ∙ ap (λ t. take n path ++ t) ((equal_iff _ _).0 h))

EndsIn-same_text :
    (fold : Bool) (path value : Bytes)
    → EndsIn fold path value
    → (length value ≤ length path)
      × (same_text fold (drop (length path - length value) path) value ≡ true)
unfolding same_text
EndsIn-same_text true path value (front, back, e, l) =
    let n : length back ≡ length value =
      sym (length-map back lower) ∙ ap length l ∙ length-map value lower in
    let len : length path ≡ length front + length back = ap length e ∙ length-append front back in
    let d : drop (length path - length value) path ≡ back =
      rw e (drop-append front back _ (omega (arith, length-append front back, n))) in
    (omega (arith, n, len), rw d ((equal_iff _ _).1 l))
EndsIn-same_text false path value (front, e) =
    let len : length path ≡ length front + length value = ap length e ∙ length-append front value in
    let d : drop (length path - length value) path ≡ value =
      rw e (drop-append front value _ (omega (arith, length-append front value))) in
    (omega (arith, len), rw d ((equal_iff _ _).1 refl))

access_denied-IsDenied :
    (fold : Bool) (path : Bytes) (deny : List (Option Bytes))
    → access_denied fold path deny ≡ true
    → IsDenied fold path deny
unfolding access_denied
access_denied-IsDenied fold path [] h = absurd (cc)
access_denied-IsDenied fold path (none ∷ deny) h = access_denied-IsDenied fold path deny h
access_denied-IsDenied fold path (some value ∷ deny) h =
    elim (Bool-cases (ltb (length path) (length value))) [
      | inl long ↦ inr (access_denied-IsDenied fold path deny (rw long at h))
      | inr short ↦
          elim (Bool-cases (same_text fold (drop (length path - length value) path) value)) [
            | inl t ↦ inl (same_text-EndsIn fold path value t)
            | inr n ↦ inr (access_denied-IsDenied fold path deny (rw (short, n) at h))
          ]
    ]

IsDenied-access_denied :
    (fold : Bool) (path : Bytes) (deny : List (Option Bytes))
    → IsDenied fold path deny
    → access_denied fold path deny ≡ true
unfolding access_denied
IsDenied-access_denied fold path [] d = absurd d
IsDenied-access_denied fold path (none ∷ deny) d = IsDenied-access_denied fold path deny d
IsDenied-access_denied fold path (some value ∷ deny) (inl e) =
    let (len, same) = EndsIn-same_text fold path value e in ground (arith, len, same)
IsDenied-access_denied fold path (some value ∷ deny) (inr d) =
    ground (arith, IsDenied-access_denied fold path deny d)

-- Either the path ends in one of the values (letter case aside where file names are folded) and the
-- handler ends the request with the status 403, or it does not and the handler goes on and leaves
-- the connection alone.
pub access_uri_handler-IsDenied :
    (fold : Bool) (path : Bytes) (deny : List (Option Bytes)) (con : Connection)
    → ((access_uri_handler fold (some path) deny con
          ≡ (finished, record con { http_status = 403; direct = true }))
        × IsDenied fold path deny)
      ⊎ ((access_uri_handler fold (some path) deny con ≡ (go_on, con)) × ¬ IsDenied fold path deny)
unfolding access_uri_handler
access_uri_handler-IsDenied fold path deny con = elim (Bool-cases (access_denied fold path deny)) [
  | inl t ↦ inl (rw t (refl, access_denied-IsDenied fold path deny t))
  | inr n ↦ inr (rw n (refl, λ d. cc (n, IsDenied-access_denied fold path deny d)))
]
