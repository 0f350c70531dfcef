-- ===== src/Request/Finish/Checked.antt =====
-- What the checks behind the headers leave of the requests that they let through.
use mathlib.Core.Path.{subst}
use lighttpd_autothumb.Array.{Entry}
use lighttpd_autothumb.Request.{Conf, Con}
use lighttpd_autothumb.Request.Kept.{OkAll, OkAll->>=, OkAll-map, OkAll-if}
use lighttpd_autothumb.Request.Host.{check_hostname}
use lighttpd_autothumb.Request.Finish.{
  host_text, set_entry, set_place, set_host, is_missing, set_keep_alive, check_host, check_method,
  ssize_max, check_length, finish,
}
use lighttpd_autothumb.Base.{
  ℕ, ◌+◌, ◌*◌, ◌/◌, ◌^◌, ◌<◌, ◌≡◌, refl, sym, ap, ◌∙◌, ◌≢◌, ◌⊎◌, inl, inr, Bool, true, not, ◌&&◌,
  ◌||◌, Option, none, some, [], ◌∷◌, arith, ltb, ◌==◌, Option-cases, get_elem?, set,
  get_elem?-bound, get_elem?-set_self, Bytes,
}

-- The length of a body that is announced is within the bounds, and none is announced with another
-- length than 0 for GET and HEAD.
abbrev pub Framed : Conf → Con → Type 0
Framed conf con =
    (con.http_method ≡ 0 ⊎ con.http_method ≡ 2 → con.con_length_set ≡ true → con.content_length ≡ 0)
    × (con.http_method ≡ 1 → con.con_length_set ≡ true)
    × (con.con_length_set ≡ true → con.content_length < 2 ^ 63)
    × (con.con_length_set ≡ true
        → conf.max_request_size ≢ 0
        → con.content_length < (conf.max_request_size + 1) * 1024)

-- HTTP/1.1 has a host, and a host is what the check of host names left of it.
abbrev pub Hosted : Con → Type 0
Hosted con =
    (con.http_version ≡ 1 → host_text con ≢ none)
    × (con.http_host ≡ none
        ⊎ (before : Option Bytes) × check_hostname before ≡ (true, host_text con))

abbrev MethodChecked : Con → Type 0
MethodChecked con =
    (con.http_method ≡ 0 ⊎ con.http_method ≡ 2 → con.con_length_set ≡ true → con.content_length ≡ 0)
    × (con.http_method ≡ 1 → con.con_length_set ≡ true)

check_method-Checked : (con : Con) → OkAll (λ r. (r ≡ con) × MethodChecked con) (check_method con)
unfolding check_method
check_method-Checked con =
    OkAll-if (λ r. (r ≡ con) × MethodChecked con) (con.http_method == 0 || con.http_method == 2) _ _
      (λ get.
        OkAll-if (λ r. (r ≡ con) × MethodChecked con)
          (con.con_length_set && not (con.content_length == 0)) _ _ (λ h. tt)
          (λ h. (refl, ((λ g t. ground (arith, h, t)), (λ p. ground (arith, get, p))))))
      (λ other.
        OkAll-if (λ r. (r ≡ con) × MethodChecked con)
          (con.http_method == 1 && not con.con_length_set) _ _ (λ h. tt)
          (λ h. (refl, ((λ g t. ground (arith, other, g)), (λ p. ground (arith, h, p))))))

abbrev LengthChecked : Conf → Con → Con × Bool → Type 0
LengthChecked conf con r =
    (r.0 ≡ con)
    × (r.1 ≡ (con.con_length_set && not (con.content_length == 0)))
    × (con.con_length_set ≡ true → con.content_length < 2 ^ 63)
    × (con.con_length_set ≡ true
        → conf.max_request_size ≢ 0
        → con.content_length < (conf.max_request_size + 1) * 1024)

check_length-Checked :
    (conf : Conf) (con : Con) → OkAll (LengthChecked conf con) (check_length conf con)
unfolding check_length
check_length-Checked conf con =
    OkAll-if (LengthChecked conf con) (not con.con_length_set) _ _
      (λ h. (refl, ground (arith, h), (λ t. ground (arith, h, t)), (λ t z. ground (arith, h, t))))
      (λ is.
        OkAll-if (LengthChecked conf con) (ltb ssize_max con.content_length) _ _ (λ h. tt)
          (λ small.
            OkAll-if (LengthChecked conf con)
              (not (conf.max_request_size == 0)
                && ltb conf.max_request_size (con.content_length / 1024))
              _ _ (λ h. tt)
              (λ fits. (
                refl,
                ground (arith, is),
                (λ t. ground (arith, small)),
                (λ t z. ground (arith, fits, z)),
              ))))

-- What the checks on the host leave alone.
abbrev pub Same : Con → Con → Type 0
Same con con' =
    (con'.uri ≡ con.uri)
    × (con'.http_method ≡ con.http_method)
    × (con'.http_version ≡ con.http_version)
    × (con'.con_length_set ≡ con.con_length_set)
    × (con'.content_length ≡ con.content_length)

set_keep_alive-Same :
    (con : Con)
    → OkAll (λ r. Same con r × (r.http_version ≡ 1 → host_text r ≢ none)) (set_keep_alive con)
unfolding set_keep_alive host_text
set_keep_alive-Same con =
    OkAll-if (λ r. Same con r × (r.http_version ≡ 1 → host_text r ≢ none))
      (con.http_version == 1 && is_missing (host_text con)) _ _ (λ h. tt)
      (λ h. ((refl, refl, refl, refl, refl), λ v n. ground (arith, h, v, n)))

check_hostname-some : (s : Bytes) → (check_hostname (some s)).1 ≢ none
unfolding check_hostname
check_hostname-some [] h = cc h
check_hostname-some (c ∷ s) h = ground (arith, h)

host_placed :
    (con : Con) (ndx : ℕ) (e : Entry Bytes)
    → con.http_host ≡ some ndx
    → get_elem? con.headers.elements ndx ≡ some e
    → host_text con ≡ some e.item
unfolding host_text
host_placed con ndx e is at = rw (is, at, host_text) refl

set_host-text :
    (con : Con) (t host : Bytes)
    → host_text con ≡ some t
    → host_text (set_host con (some host)) ≡ some host
unfolding set_host set_place set_entry host_text
set_host-text con t host h = elim (Option-cases con.http_host) [
  | inl n ↦ absurd (cc (rw (n, host_text) at h))
  | inr (ndx, is) ↦ elim (Option-cases (get_elem? con.headers.elements ndx)) [
    | inl n ↦ absurd (cc (rw (is, n, host_text) at h))
    | inr (e, at) ↦
        let e' : Entry Bytes = record e { item = host } in
        let found =
          get_elem?-set_self con.headers.elements ndx e'
            (get_elem?-bound con.headers.elements ndx e at) in
        let con' : Con = record con {
          headers = record con.headers { elements = set con.headers.elements ndx e' };
        } in
        let updated : set_host con (some host) ≡ con' =
          ap (set_place con host) is ∙ ap (set_entry con host ndx) at in
        ap host_text updated ∙ host_placed con' ndx e' is found
  ]
]

set_host-Same : (con : Con) (host : Option Bytes) → Same con (set_host con host)
unfolding set_host set_place set_entry
set_host-Same con none = (refl, refl, refl, refl, refl)
set_host-Same con (some host) = place_cases con.http_host
  where
    entry_cases : (ndx : ℕ) (entry : Option (Entry Bytes)) → Same con (set_entry con host ndx entry)
    entry_cases ndx none = (refl, refl, refl, refl, refl)
    entry_cases ndx (some e) = (refl, refl, refl, refl, refl)

    place_cases : (place : Option ℕ) → Same con (set_place con host place)
    place_cases none = (refl, refl, refl, refl, refl)
    place_cases (some ndx) = entry_cases ndx (get_elem? con.headers.elements ndx)

set_host-checked :
    (con : Con)
    → host_text (set_host con (check_hostname (host_text con)).1)
      ≡ (check_hostname (host_text con)).1
unfolding check_hostname set_host
set_host-checked con = elim (Option-cases (host_text con)) [
  | inl n ↦ rw n n
  | inr (t, is) ↦ elim (Option-cases (check_hostname (some t)).1) [
    | inl m ↦ absurd (check_hostname-some t m)
    | inr (host, to) ↦ rw (is, to) (set_host-text con t host is)
  ]
]

check_host-Checked :
    (con : Con)
    → (con.http_version ≡ 1 → host_text con ≢ none)
    → OkAll (λ r. Same con r × Hosted r) (check_host con)
unfolding check_host
check_host-Checked con h = elim (Option-cases con.http_host) [
  | inl n ↦ rw (n, check_host) ((refl, refl, refl, refl, refl), (h, inl n))
  | inr (ndx, is) ↦
      let same = set_host-Same con (check_hostname (host_text con)).1 in
      rw (is, check_host)
        (OkAll-if (λ r. Same con r × Hosted r) (check_hostname (host_text con)).0 _ _
          (λ passed. (
            same,
            (
              (λ v n. h (sym same.2 ∙ v) (text_none n)),
              inr (host_text con, (λ i. (passed i, sym (set_host-checked con) i))),
            ),
          ))
          (λ refused. tt))
]
  where
    text_none :
        host_text (set_host con (check_hostname (host_text con)).1) ≡ none → host_text con ≡ none
    text_none n = elim (Option-cases (host_text con)) [
      | inl m ↦ m
      | inr (t, is) ↦ absurd (
          check_hostname-some t
            (ap (λ x. (check_hostname x).1) (sym is) ∙ (sym (set_host-checked con) ∙ n)))
    ]

abbrev pub Passed : Conf → Con → Con × Bool → Type 0
Passed conf con r =
    Same con r.0
    × Hosted r.0
    × Framed conf r.0
    × (r.1 ≡ (r.0.con_length_set && not (r.0.content_length == 0)))

Same-trans : (a b c : Con) → Same a b → Same b c → Same a c
Same-trans a b c (u, m, v, s, l) (u', m', v', s', l') = (u' ∙ u, m' ∙ m, v' ∙ v, s' ∙ s, l' ∙ l)

passed :
    (conf : Conf) (con con1 con2 con3 : Con) (r : Con × Bool)
    → Same con con1
    → Same con1 con2 × Hosted con2
    → (con3 ≡ con2) × MethodChecked con2
    → LengthChecked conf con3 r
    → Passed conf con r
passed conf con con1 con2 con3 (r, body) s1 (s2, hosted) (e, (get, post)) (e', b, bound, fits) =
    subst (λ x. Passed conf con (x, body)) (sym (e' ∙ e))
      (
        Same-trans con con1 con2 s1 s2,
        hosted,
        (get, post, subst Bounded e bound, subst Fits e fits),
        subst (λ x. body ≡ (x.con_length_set && not (x.content_length == 0))) e b,
      )
  where
    Bounded : Con → Type 0
    Bounded x = x.con_length_set ≡ true → x.content_length < 2 ^ 63

    Fits : Con → Type 0
    Fits x =
        x.con_length_set ≡ true
        → conf.max_request_size ≢ 0
        → x.content_length < (conf.max_request_size + 1) * 1024

-- The checks as a whole.
pub finish-Checked : (conf : Conf) (con : Con) → OkAll (Passed conf con) (finish conf con)
unfolding finish
finish-Checked conf con =
    OkAll->>= (λ r. Same con r × (r.http_version ≡ 1 → host_text r ≢ none)) (Passed conf con)
      (set_keep_alive con) _ (set_keep_alive-Same con)
      (λ con1 h1.
        OkAll->>= (λ r. Same con1 r × Hosted r) (Passed conf con) (check_host con1) _
          (check_host-Checked con1 h1.1)
          (λ con2 h2.
            OkAll->>= (λ r. (r ≡ con2) × MethodChecked con2) (Passed conf con) (check_method con2) _
              (check_method-Checked con2)
              (λ con3 h3.
                OkAll-map (LengthChecked conf con3) (Passed conf con) (check_length conf con3)
                  (λ r h4. passed conf con con1 con2 con3 r h1.0 h2 h3 h4)
                  (check_length-Checked conf con3))))
