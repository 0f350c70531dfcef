-- ===== src/PathSimplify/Steps.antt =====
-- One move of the loop on a path whose tokens are known: the bytes of the token that is read, newest
-- first, on a slash, on the kept segments.
use lighttpd_autothumb.Base.{
  ℕ, ◌+◌, ◌-◌, ◌*◌, ◌%◌, ◌<◌, ◌≡◌, refl, sym, ap, ◌∙◌, ◌≢◌, inl, inr, Bool, true, false, ◌&&◌, ◌||◌,
  List, [], ◌∷◌, ◌++◌, append_assoc, reverse, arith, ltb, ◌==◌, if◌then◌else◌, Bool-cases, length,
  length-append, drop, Bytes, equal, equal_iff, All,
}
use mathlib.Core.List.{reverse-reverse}
use lighttpd_autothumb.PathSimplify.Spec.{dot, dot_dot, parent, is_skipped, enter, enter_last}
use lighttpd_autothumb.PathSimplify.{shift_in, rewind, scan_back, to_parent, close_token}

abbrev pub NotSlash : ℕ → Type 0
NotSlash c = (c ≢ b'/') × (c < 256)

-- The kept segments as the loop holds them.
abbrev pub stacked : List Bytes → Bytes
stacked [] = []
stacked (g ∷ gs) = reverse g ++ (b'/' ∷ stacked gs)

drop-length_append : (u w : Bytes) → drop (length u) (u ++ w) ≡ w
drop-length_append [] w = refl
drop-length_append (x ∷ u) w = drop-length_append u w

pub rewind-append : (u w : Bytes) → rewind (length w) (u ++ w) ≡ w
unfolding rewind
rewind-append u w =
    let e : length (u ++ w) - length w ≡ length u = omega (arith, length-append u w) in
    rw e (drop-length_append u w)

pub rewind-append_suc : (u : Bytes) (c : ℕ) (w : Bytes) → rewind (length w + 1) (u ++ c ∷ w) ≡ c ∷ w
rewind-append_suc u c w =
    let e : length w + 1 ≡ length (c ∷ w) = omega arith in rw e (rewind-append u (c ∷ w))

pub rewind_first : (u : Bytes) (c : ℕ) → rewind 1 (u ++ c ∷ []) ≡ c ∷ []
rewind_first u c = rewind-append u (c ∷ [])

-- The scan stops at the slash in front of the last segment.
pub scan_back-append : (u w : Bytes) → All NotSlash u → scan_back (u ++ b'/' ∷ w) ≡ (b'/', w)
unfolding scan_back
scan_back-append [] [] a = refl
scan_back-append [] (x ∷ w) a = refl
scan_back-append (x ∷ []) w a = ground (arith, scan_back-append [] w tt)
scan_back-append (x ∷ y ∷ u) w a = ground (arith, scan_back-append (y ∷ u) w a.1)

-- What the loop remembers of the last two bytes, at a token (newest first) behind a slash.
abbrev code2 : ℕ → ℕ → ℕ
code2 y x = if ltb x 128 then y * 256 + x else 0xFF00 + x

abbrev pub Remembers : ℕ → Bytes → Type 0
Remembers pre [] = pre % 256 ≡ b'/'
Remembers pre (x ∷ []) = pre ≡ code2 b'/' x
Remembers pre (x ∷ y ∷ _) = pre ≡ code2 y x

shift_in-low : (pre c : ℕ) → c < 256 → shift_in pre c % 256 ≡ c
unfolding shift_in
shift_in-low pre c h = ground arith

shift_in-code2 : (pre y c : ℕ) → pre % 256 ≡ y → c < 256 → shift_in pre c ≡ code2 y c
unfolding shift_in
shift_in-code2 pre y c e h = ground arith

code2-low : (y x : ℕ) → x < 256 → code2 y x % 256 ≡ x
code2-low y x h = ground arith

pub shift_in-slash : (pre : ℕ) → Remembers (shift_in pre b'/') []
shift_in-slash pre = shift_in-low pre b'/' (omega arith)

pub shift_in-Remembers :
    (pre c : ℕ) (r : Bytes)
    → All NotSlash r
    → c < 256
    → Remembers pre r
    → Remembers (shift_in pre c) (c ∷ r)
shift_in-Remembers pre c [] a h m = shift_in-code2 pre b'/' c m h
shift_in-Remembers pre c (x ∷ []) a h m =
    shift_in-code2 pre x c (ap (λ (n : ℕ). n % 256) m ∙ code2-low b'/' x a.0.1) h
shift_in-Remembers pre c (x ∷ y ∷ r) a h m =
    shift_in-code2 pre x c (ap (λ (n : ℕ). n % 256) m ∙ code2-low y x a.0.1) h

-- The two tests on `toklen` and `pre` are those of the segment.
abbrev is_parent : ℕ → Bytes → Bool
is_parent pre r = length r + 1 == 3 && pre == 0x2E2E

abbrev is_self : ℕ → Bytes → Bool
is_self pre r = length r + 1 == 1 || pre == 0x2F2E

equal-reverse : (r d : Bytes) → reverse d ≡ d → equal (reverse r) d ≡ equal r d
equal-reverse r d e = elim (Bool-cases (equal (reverse r) d)) [
  | inl t ↦
      let e' : r ≡ d = sym (reverse-reverse r) ∙ ap reverse ((equal_iff _ _).0 t) ∙ e in
      t ∙ sym ((equal_iff r d).1 e')
  | inr n ↦ elim (Bool-cases (equal r d)) [
    | inl t ↦ (equal_iff _ _).1 (ap reverse ((equal_iff r d).0 t) ∙ e) ∙ sym t
    | inr m ↦ n ∙ sym m
  ]
]

is_parent-equal :
    (pre : ℕ) (r : Bytes) → All NotSlash r → Remembers pre r → is_parent pre r ≡ equal r dot_dot
unfolding equal
is_parent-equal pre [] a m = ground arith
is_parent-equal pre (x ∷ []) a m = ground arith
is_parent-equal pre (x ∷ y ∷ []) a m = ground arith
is_parent-equal pre (x ∷ y ∷ z ∷ r) a m = ground arith

is_self-equal :
    (pre : ℕ) (r : Bytes) → All NotSlash r → Remembers pre r → is_self pre r ≡ is_skipped r
unfolding equal is_skipped
is_self-equal pre [] a m = ground arith
is_self-equal pre (x ∷ []) a m = ground arith
is_self-equal pre (x ∷ y ∷ r) a m = ground arith

abbrev pub AreSegments : List Bytes → Type 0
AreSegments = All (λ g. All NotSlash (reverse g))

is_skipped-reverse : (r : Bytes) → is_skipped (reverse r) ≡ is_skipped r
unfolding is_skipped
is_skipped-reverse r = rw (equal-reverse r [] refl, equal-reverse r dot refl)

to_parent-scan_back :
    (e : Bool) (l one w : Bytes)
    → scan_back l ≡ (b'/', w)
    → to_parent e l one ≡ (if e then b'/' ∷ w else w)
unfolding to_parent scan_back
to_parent-scan_back e [] one w h = absurd (omega (arith, ap (λ (p : ℕ × Bytes). p.0) h))
to_parent-scan_back e (c ∷ l) one w h = rw h

module _ (r : Bytes) (gs : List Bytes) (pre : ℕ) (ns : All NotSlash r) (m : Remembers pre r) where
  abbrev pub front : Bytes
  front = r ++ b'/' ∷ stacked gs

  toklen : length front - length (stacked gs) ≡ length r + 1
  toklen = omega (arith, length-append r (b'/' ∷ stacked gs))

  rewind-front : rewind (length (stacked gs)) front ≡ stacked gs
  rewind-front =
      rw (← append_assoc r (b'/' ∷ []) (stacked gs)) (rewind-append (r ++ b'/' ∷ []) (stacked gs))

  close_token-eq :
      (e : Bool)
      → close_token e front (length (stacked gs)) pre ≡ (
          if equal r dot_dot
          then to_parent e (stacked gs) (rewind 1 front)
          else if is_skipped r
          then (if e then b'/' ∷ stacked gs else stacked gs)
          else front)
  unfolding close_token
  close_token-eq true = rw (
    toklen,
    is_parent-equal pre r ns m,
    is_self-equal pre r ns m,
    rewind-front,
    rewind-append_suc r b'/' (stacked gs),
  )
  close_token-eq false =
      rw (toklen, is_parent-equal pre r ns m, is_self-equal pre r ns m, rewind-front)

to_parent-enter :
    (r : Bytes) (gs : List Bytes)
    → AreSegments gs
    → to_parent false (stacked gs) (rewind 1 (r ++ b'/' ∷ stacked gs)) ≡ stacked (parent gs)
unfolding to_parent parent
to_parent-enter r [] a = refl
to_parent-enter r (g ∷ gs) a =
    to_parent-scan_back false _ _ _ (scan_back-append (reverse g) (stacked gs) a.0)

to_parent-enter_last :
    (r : Bytes) (gs : List Bytes)
    → AreSegments gs
    → to_parent true (stacked gs) (rewind 1 (r ++ b'/' ∷ stacked gs)) ≡ b'/' ∷ stacked (parent gs)
unfolding to_parent parent
to_parent-enter_last r [] a = rewind_first r b'/'
to_parent-enter_last r (g ∷ gs) a =
    to_parent-scan_back true _ _ _ (scan_back-append (reverse g) (stacked gs) a.0)

module _ (r : Bytes) (gs : List Bytes) (pre : ℕ) (ns : All NotSlash r) (m : Remembers pre r)
    (a : AreSegments gs) where
  -- A slash behind the token.
  pub close_token-enter :
      close_token false (r ++ b'/' ∷ stacked gs) (length (stacked gs)) pre
      ≡ stacked (enter gs (reverse r))
  unfolding enter
  close_token-enter =
      close_token-eq r gs pre ns m false
      ∙ rw (equal-reverse r dot_dot refl, is_skipped-reverse r, to_parent-enter r gs a)
          (elim (Bool-cases (equal r dot_dot)) [
            | inl t ↦ rw t
            | inr n ↦ elim (Bool-cases (is_skipped r)) [
              | inl t ↦ rw (n, t)
              | inr k ↦ rw (n, k, reverse-reverse r)
            ]
          ])

  -- The end of the text behind the token.
  pub close_token-enter_last :
      close_token true (r ++ b'/' ∷ stacked gs) (length (stacked gs)) pre
      ≡ stacked (enter_last gs (reverse r))
  unfolding enter_last
  close_token-enter_last =
      close_token-eq r gs pre ns m true
      ∙ rw (equal-reverse r dot_dot refl, is_skipped-reverse r, to_parent-enter_last r gs a)
          (elim (Bool-cases (equal r dot_dot)) [
            | inl t ↦ rw t
            | inr n ↦ elim (Bool-cases (is_skipped r)) [
              | inl t ↦ rw (n, t)
              | inr k ↦ rw (n, k, reverse-reverse r)
            ]
          ])
