-- ===== src/Request/Host/Safe.antt =====
-- What a host that passes the check looks like.
use lighttpd_autothumb.Chars.{light_isdigit, light_isxdigit, light_isalnum}
use lighttpd_autothumb.Request.Host.{
  all_digits, check_ipv6_port, check_ipv6, Stage, domainlabel, toplabel, Scan, start, leave_top,
  counted, top_step, next_label, domain_step, step, is_nil, scan, name_of, port_of, strip_dot,
  check_name, check_hostname,
}
use lighttpd_autothumb.Base.{
  ℕ, ◌≡◌, refl, ap, ◌≢◌, ◌⊎◌, inl, inr, Bool, true, false, not, ◌&&◌, Option, some, [], ◌∷◌, ◌++◌,
  arith, ◌==◌, Bool-cases, Option-cases, get_or, drop, Bytes, All,
}

abbrev pub HostChar : ℕ → Type 0
HostChar c = (light_isalnum c ≡ true) ⊎ (c ≡ b'-') ⊎ (c ≡ b'.')

abbrev pub NoDoubleDot : Bytes → Type 0
NoDoubleDot [] = Unit
NoDoubleDot (c ∷ []) = Unit
NoDoubleDot (c ∷ d ∷ s) = ¬ ((c ≡ b'.') × (d ≡ b'.')) × NoDoubleDot (d ∷ s)

digit-HostChar : (c : ℕ) → light_isdigit c ≡ true → HostChar c
unfolding light_isalnum
digit-HostChar c h = inl (rw (h, light_isalnum))

-- What a step that is taken says of its character and of the length of the label.
abbrev Taken : Bool → ℕ → Scan → Scan → Type 0
Taken last c st st' =
    HostChar c
    × (c ≡ b'.' → last ≡ false → st.label_len ≢ 0)
    × (c ≡ b'.' → st.label_len ≡ 0 ⊎ last ≡ false → st'.label_len ≡ 0)

leave_top-eq :
    (st : Scan) (right : ℕ) (st' : Scan)
    → leave_top st right ≡ some st'
    → (st.label_len ≢ 0) × (st'.label_len ≡ 0)
unfolding leave_top
leave_top-eq st right st' h = ground (arith, h)

top_step-Taken :
    (last at_front : Bool) (right c : ℕ) (st st' : Scan)
    → top_step last at_front right c st ≡ some st'
    → Taken last c st st'
unfolding top_step counted
top_step-Taken last at_front right c st st' h = (
  ground (arith, h),
  (λ e f. ground (arith, e, f, h, leave_top-eq st right st')),
  (λ e f. ground (arith, e, f, h, leave_top-eq st right st')),
)

domain_step-Taken :
    (last at_front : Bool) (right c : ℕ) (st st' : Scan)
    → domain_step at_front right c st ≡ some st'
    → Taken last c st st'
unfolding domain_step counted next_label
domain_step-Taken last at_front right c st st' h = (
  ground (arith, h, digit-HostChar c),
  (λ e f. ground (arith, e, f, h)),
  (λ e f. ground (arith, e, h)),
)

step-Taken :
    (last at_front : Bool) (right c : ℕ) (st st' : Scan)
    → step last at_front right c st ≡ some st'
    → Taken last c st st'
unfolding step
step-Taken last at_front right c st st' h = stage_cases st.stage refl
  where
    stage_cases : (g : Stage) → st.stage ≡ g → Taken last c st st'
    stage_cases toplabel e = top_step-Taken last at_front right c st st' (rw (e, step) at h)
    stage_cases domainlabel e = domain_step-Taken last at_front right c st st' (rw (e, step) at h)

-- What a scan that goes through says of the text, and of the label that it is in.
abbrev pub Scanned : Bytes → Scan → Type 0
Scanned s st = All HostChar s × NoDoubleDot s × (get_or s 0 0 ≡ b'.' → st.label_len ≡ 0)

no_double :
    (c : ℕ) (s : Bytes) (st : Scan)
    → Scanned s st
    → (c ≡ b'.' → is_nil s ≡ false → st.label_len ≢ 0)
    → NoDoubleDot (c ∷ s)
no_double c [] st a h = tt
no_double c (d ∷ s) st (a, n, z) h = ((λ p. h p.0 refl (z p.1)), n)

label_cases :
    (s : Bytes) (st : Scan) → scan false s ≡ some st → (st.label_len ≡ 0) ⊎ (is_nil s ≡ false)
unfolding scan start
label_cases [] st h = inl (ground (arith, h))
label_cases (c ∷ s) st h = inr refl

scan-Scanned : (at_front : Bool) (s : Bytes) (st : Scan) → scan at_front s ≡ some st → Scanned s st
unfolding scan
scan-Scanned at_front [] st h = (tt, tt, λ e. absurd (omega (arith, e)))
scan-Scanned at_front (c ∷ s) st h = elim (Option-cases (scan false s)) [
  | inl n ↦ absurd (cc (rw (n, scan) at h))
  | inr (old, is) ↦
      let before = scan-Scanned false s old is in
      let (ok, apart, zero_len) =
        step-Taken (is_nil s) at_front (get_or s 0 0) c old st (rw (is, scan) at h) in
      ((ok, before.0), no_double c s old before apart, (λ e. zero_len e (label_cases s old is)))
]

digits_only : (s : Bytes) → all_digits s ≡ true → All (λ c. light_isdigit c ≡ true) s
digits_only [] h = tt
digits_only (c ∷ s) h = elim (Bool-cases (light_isdigit c)) [
  | inl t ↦ (t, digits_only s (rw t at h))
  | inr f ↦ absurd (cc (rw f at h))
]

check_name-Scanned : (name : Bytes) → check_name name ≡ true → All HostChar name × NoDoubleDot name
unfolding check_name
check_name-Scanned name h = elim (Option-cases (scan true name)) [
  | inl n ↦ absurd (name_none name (rw (n, check_name) at h))
  | inr (st, is) ↦ let (a, b, z) = scan-Scanned true name st is in (a, b)
]
  where
    name_none : (name : Bytes) → (not (is_nil name) && false) ≡ true → ⊥
    name_none [] h = cc h
    name_none (c ∷ name) h = cc h

-- Nothing, or a colon and digits.
abbrev pub IsPort : Bytes → Type 0
IsPort [] = Unit
IsPort (c ∷ port) = (c ≡ b':') × All (λ d. light_isdigit d ≡ true) port

port_of-IsPort : (s : Bytes) → all_digits (drop 1 (port_of s)) ≡ true → IsPort (port_of s)
unfolding port_of
port_of-IsPort [] h = tt
port_of-IsPort (c ∷ s) h = elim (Bool-cases (c == b':')) [
  | inl t ↦ rw t (ground (arith, t), digits_only s (rw (t, port_of) at h))
  | inr f ↦ rw f (port_of-IsPort s (rw (f, port_of) at h))
]

check_name-not_nil : (name : Bytes) → check_name name ≡ true → name ≢ []
unfolding check_name
check_name-not_nil [] h = cc h
check_name-not_nil (c ∷ name) h = cc

-- A host that passes the check, and that does not begin with `[`, is left in the buffer as a name that
-- is not empty, of letters, digits, `-` and `.` without two dots in a row, and behind it nothing, or a
-- colon and a run of digits, which may be empty.
pub check_hostname-HostChar :
    (c : ℕ) (s host : Bytes)
    → c ≢ b'['
    → check_hostname (some (c ∷ s)) ≡ (true, some host)
    → (name : Bytes) × (port : Bytes) × (host ≡ name ++ port)
      × (name ≢ [])
      × All HostChar name
      × NoDoubleDot name
      × IsPort port
unfolding check_hostname
check_hostname-HostChar c s host ne h =
    let plain : (c == b'[') ≡ false = ground (arith, ne) in
    elim (Bool-cases (all_digits (drop 1 (port_of (c ∷ s))))) [
      | inr bad ↦ absurd (cc (rw (plain, bad, check_hostname) at h))
      | inl good ↦ elim (Bool-cases (is_nil (name_of (c ∷ s)))) [
        | inl bad ↦ absurd (cc (rw (plain, good, bad, check_hostname) at h))
        | inr full ↦
            let done : ◌≡◌ {A = Bool × Option Bytes}
                (
                  check_name (strip_dot (name_of (c ∷ s))),
                  some (strip_dot (name_of (c ∷ s)) ++ port_of (c ∷ s)),
                )
                (true, some host) =
              rw (plain, good, full, check_hostname) at h in
            let (a, b) =
              check_name-Scanned (strip_dot (name_of (c ∷ s)))
                (ap (λ (p : Bool × Option Bytes). p.0) done) in
            (
              strip_dot (name_of (c ∷ s)),
              port_of (c ∷ s),
              cc (ap (λ (p : Bool × Option Bytes). p.1) done),
              check_name-not_nil (strip_dot (name_of (c ∷ s)))
                  (ap (λ (p : Bool × Option Bytes). p.0) done),
              a,
              b,
              port_of-IsPort (c ∷ s) good,
            )
      ]
    ]

check_ipv6_digits :
    (n : ℕ) (inside behind : Bytes)
    → All (λ c. light_isxdigit c ≡ true) inside
    → All (λ c. (c ≢ b':') × (c ≢ b']')) inside
    → check_ipv6_port behind ≡ true
    → check_ipv6 n (inside ++ b']' ∷ behind) ≡ true
unfolding check_ipv6
check_ipv6_digits n [] behind a b h = h
check_ipv6_digits n (c ∷ inside) behind a b h =
    let colon : (c == b':') ≡ false = ground (arith, b.0) in
    let close : (c == b']') ≡ false = ground (arith, b.0) in
    rw (colon, close, a.0, check_ipv6) (check_ipv6_digits n inside behind a.1 b.1 h)

-- A host of hex digits in brackets passes with any text behind the closing bracket that does not
-- begin with a colon, slashes and dots included.
pub check_hostname_behind :
    (inside : Bytes) (d : ℕ) (behind : Bytes)
    → All (λ c. light_isxdigit c ≡ true) inside
    → All (λ c. (c ≢ b':') × (c ≢ b']')) inside
    → d ≢ b':'
    → check_hostname (some (b'[' ∷ (inside ++ b']' ∷ d ∷ behind)))
      ≡ (true, some (b'[' ∷ (inside ++ b']' ∷ d ∷ behind)))
unfolding check_hostname check_ipv6_port
check_hostname_behind inside d behind a b ne =
    let plain : (d == b':') ≡ false = ground (arith, ne) in
    rw (check_ipv6_digits 0 inside (d ∷ behind) a b (rw (plain, check_ipv6_port) refl)) refl
