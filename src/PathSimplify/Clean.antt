-- ===== src/PathSimplify/Clean.antt =====
-- No `.` and no `..` is left in a simplified path, and simplifying it again changes nothing.
use lighttpd_autothumb.Base.{
  ℕ, ◌≡◌, refl, sym, ap, ◌∙◌, ◌≢◌, inl, inr, false, List, [], ◌∷◌, ◌++◌, reverse, arith, ◌==◌,
  ==_iff, Bool-cases, Bytes, equal, equal_iff, All,
}
use mathlib.Core.List.{reverse-cons, append_cancel_right}
use lighttpd_autothumb.PathSimplify.Spec.{
  dot, dot_dot, onto_first, split, parent, is_skipped, enter, enter_last, resolve, render,
}
use lighttpd_autothumb.PathSimplify.Steps.{NotSlash}
use lighttpd_autothumb.PathSimplify.Refines.{
  AreBytes, Holds, source_path, segments, path_simplify-resolve, split_cons, skip_spaces-AreBytes,
  c_string-AreBytes,
}
use lighttpd_autothumb.PathSimplify.{Simplified, path_simplify}

-- A segment that stands last, and one that stands in front of a slash.
abbrev pub IsLast : Bytes → Type 0
IsLast g = (g ≢ dot) × (g ≢ dot_dot) × All NotSlash g

abbrev pub IsName : Bytes → Type 0
IsName g = (g ≢ []) × IsLast g

abbrev pub IsStack : List Bytes → Type 0
IsStack [] = ⊥
IsStack (g ∷ gs) = IsLast g × All IsName gs

pub kept-IsName :
    (g : Bytes) → All NotSlash g → equal g dot_dot ≡ false → is_skipped g ≡ false → IsName g
unfolding is_skipped
kept-IsName g ns p s = ground (arith, equal_iff g dot_dot, equal_iff g dot, equal_iff g [], ns)

parent-IsName : (gs : List Bytes) → All IsName gs → All IsName (parent gs)
unfolding parent
parent-IsName [] a = a
parent-IsName (g ∷ gs) a = a.1

enter-IsName :
    (gs : List Bytes) (g : Bytes) → All IsName gs → All NotSlash g → All IsName (enter gs g)
unfolding enter
enter-IsName gs g a ns = elim (Bool-cases (equal g dot_dot)) [
  | inl t ↦ rw t (parent-IsName gs a)
  | inr n ↦ elim (Bool-cases (is_skipped g)) [
    | inl t ↦ rw (n, t) a
    | inr k ↦ rw (n, k) (kept-IsName g ns n k, a)
  ]
]

pub nil-IsLast : IsLast []
nil-IsLast = ((λ e. cc), (λ e. cc), tt)

enter_last-IsStack :
    (gs : List Bytes) (g : Bytes) → All IsName gs → All NotSlash g → IsStack (enter_last gs g)
unfolding enter_last
enter_last-IsStack gs g a ns = elim (Bool-cases (equal g dot_dot)) [
  | inl t ↦ rw t (nil-IsLast, parent-IsName gs a)
  | inr n ↦ elim (Bool-cases (is_skipped g)) [
    | inl t ↦ rw (n, t) (nil-IsLast, a)
    | inr k ↦ rw (n, k) ((kept-IsName g ns n k).1, a)
  ]
]

resolve-IsStack :
    (hs gs : List Bytes) → All IsName gs → All (All NotSlash) hs → hs ≢ [] → IsStack (resolve gs hs)
unfolding resolve
resolve-IsStack [] gs a ns ne = absurd (ne refl)
resolve-IsStack (g ∷ []) gs a ns ne = enter_last-IsStack gs g a ns.0
resolve-IsStack (g ∷ h ∷ hs) gs a ns ne =
    resolve-IsStack (h ∷ hs) (enter gs g) (enter-IsName gs g a ns.0) ns.1 (λ e. cc)

onto_first-NotSlash :
    (c : ℕ) (gs : List Bytes)
    → NotSlash c
    → All (All NotSlash) gs
    → All (All NotSlash) (onto_first c gs)
unfolding onto_first
onto_first-NotSlash c [] n a = ((n, tt), tt)
onto_first-NotSlash c (g ∷ gs) n a = ((n, a.0), a.1)

split-NotSlash : (s : Bytes) → AreBytes s → All (All NotSlash) (split s)
unfolding split
split-NotSlash [] b = (tt, tt)
split-NotSlash (c ∷ s) b = elim (Bool-cases (c == b'/')) [
  | inl t ↦ rw t (tt, split-NotSlash s b.1)
  | inr n ↦ rw n (
      onto_first-NotSlash c (split s) ((λ q. cc (n, (==_iff c b'/').1 q)), b.0)
        (split-NotSlash s b.1))
]

not_slash : (c : ℕ) → NotSlash c → (c == b'/') ≡ false
not_slash c n = ground (arith, n.0)

pub split_unslashed : (g : Bytes) → All NotSlash g → split g ≡ g ∷ []
unfolding split onto_first
split_unslashed [] ns = refl
split_unslashed (c ∷ g) ns = rw (not_slash c ns.0, split_unslashed g ns.1)

onto_first-append :
    (c : ℕ) (gs : List Bytes) {h : Bytes} {hs : List Bytes} (ks : List Bytes)
    → gs ≡ h ∷ hs
    → onto_first c (gs ++ ks) ≡ onto_first c gs ++ ks
unfolding onto_first
onto_first-append c [] ks e = cc
onto_first-append c (g ∷ gs) ks e = refl

-- Splitting at any slash.
pub split-slash : (s t : Bytes) → split (s ++ b'/' ∷ t) ≡ split s ++ split t
unfolding split
split-slash [] t = refl
split-slash (c ∷ s) t = elim (Bool-cases (c == b'/')) [
  | inl e ↦ rw e (ap (◌∷◌ []) (split-slash s t))
  | inr n ↦
      let (h, hs, e) = split_cons s in
      rw (n, split-slash s t) (onto_first-append c (split s) (split t) e)
]

split-append : (s g : Bytes) → All NotSlash g → split (s ++ b'/' ∷ g) ≡ split s ++ g ∷ []
split-append s g ns = split-slash s g ∙ ap (λ gs. split s ++ gs) (split_unslashed g ns)

IsName-IsLast : (gs : List Bytes) → All IsName gs → All IsLast gs
IsName-IsLast [] a = tt
IsName-IsLast (g ∷ gs) a = (a.0.1, IsName-IsLast gs a.1)

pub split-render : (gs : List Bytes) → All IsLast gs → split (render gs) ≡ [] ∷ reverse gs
unfolding render split
split-render [] a = refl
split-render (g ∷ gs) a =
    split-append (render gs) g a.0.2 ∙ rw (split-render gs a.1, reverse-cons g gs)

All-snoc {ℓ} :
    (P : Bytes → Type ℓ) (gs : List Bytes) (g : Bytes) → All P gs → P g → All P (gs ++ g ∷ [])
All-snoc P [] g a p = (p, tt)
All-snoc P (h ∷ gs) g a p = (a.0, All-snoc P gs g a.1 p)

pub All-reverse {ℓ} : (P : Bytes → Type ℓ) (gs : List Bytes) → All P gs → All P (reverse gs)
All-reverse P [] a = tt
All-reverse P (g ∷ gs) a =
    rw (reverse-cons g gs) (All-snoc P (reverse gs) g (All-reverse P gs a.1) a.0)

pub stack-IsLast : (st : List Bytes) → IsStack st → All IsLast st
stack-IsLast [] i = absurd i
stack-IsLast (g ∷ gs) i = (i.0, IsName-IsLast gs i.1)

-- A text of segments in which no `.` and no `..` stands.
abbrev pub IsClean : Bytes → Type 0
IsClean text = All IsLast (split text)

render-IsClean : (st : List Bytes) → IsStack st → IsClean (render st)
render-IsClean st i =
    rw (split-render st (stack-IsLast st i)) (nil-IsLast, All-reverse IsLast st (stack-IsLast st i))

segments-NotSlash : (p : Bytes) → AreBytes p → All (All NotSlash) (segments p)
segments-NotSlash [] b = tt
segments-NotSlash (c ∷ p) b = elim (Bool-cases (c == b'/')) [
  | inl t ↦ rw t (split-NotSlash p b.1)
  | inr n ↦ rw n (split-NotSlash (c ∷ p) b)
]

segments-ne_nil : (p : Bytes) → p ≢ [] → segments p ≢ []
segments-ne_nil [] ne e = ne refl
segments-ne_nil (c ∷ p) ne e = elim (Bool-cases (c == b'/')) [
  | inl t ↦ let (h, hs, q) = split_cons p in cc (t, q, e)
  | inr n ↦ let (h, hs, q) = split_cons (c ∷ p) in cc (n, q, e)
]

abbrev pub resolved : Bytes → List Bytes
resolved src = resolve [] (segments (source_path src))

pub resolved-IsStack : (src : Bytes) → AreBytes src → source_path src ≢ [] → IsStack (resolved src)
resolved-IsStack src b ne =
    let b' = skip_spaces-AreBytes _ (c_string-AreBytes src b) in
    resolve-IsStack (segments (source_path src)) [] tt (segments-NotSlash (source_path src) b')
      (segments-ne_nil (source_path src) ne)

pub Holds-unique : (d : Simplified) (s t : Bytes) → Holds d s → Holds d t → s ≡ t
Holds-unique d s t h k = append_cancel_right s t (0 ∷ []) (sym h.0 ∙ k.0)

-- The text that `dest` holds in the end has no segment `.` and no segment `..`, for every source of
-- bytes whose path is not empty.
pub path_simplify-IsClean :
    (src text : Bytes)
    → AreBytes src
    → source_path src ≢ []
    → Holds (path_simplify src) text
    → IsClean text
path_simplify-IsClean src text b ne h =
    let e = Holds-unique (path_simplify src) _ text (path_simplify-resolve src b ne) h in
    rw e at (render-IsClean (resolved src) (resolved-IsStack src b ne))
