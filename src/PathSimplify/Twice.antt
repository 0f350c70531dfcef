-- ===== src/PathSimplify/Twice.antt =====
-- A simplified path is left as it is when it is simplified again.
use lighttpd_autothumb.Base.{
  ℕ, ◌<◌, ◌≡◌, refl, sym, ap, ◌∙◌, ◌≢◌, ◌⊎◌, inl, inr, false, List, [], ◌∷◌, ◌++◌, append-nil,
  append_assoc, reverse, arith, Bytes, equal, equal_iff, All,
}
use mathlib.Core.List.{reverse-reverse, reverse-cons}
use lighttpd_autothumb.PathSimplify.Spec.{
  dot, dot_dot, onto_first, split, parent, is_skipped, enter, enter_last, resolve, render,
}
use lighttpd_autothumb.PathSimplify.Refines.{
  AreBytes, Holds, source_path, segments, path_simplify-resolve,
}
use lighttpd_autothumb.PathSimplify.Clean.{
  IsLast, IsName, IsStack, resolved, resolved-IsStack, split-render, stack-IsLast, All-reverse,
  Holds-unique,
}
use lighttpd_autothumb.PathSimplify.{path_simplify, skip_spaces}
use lighttpd_autothumb.UrlDecode.{c_string}
use lighttpd_autothumb.UrlDecode.Safe.{All-append}

not_parent : (g : Bytes) → g ≢ dot_dot → equal g dot_dot ≡ false
not_parent g n = ground (arith, equal_iff g dot_dot, n)

not_skipped : (g : Bytes) → IsName g → is_skipped g ≡ false
unfolding is_skipped
not_skipped g n = ground (arith, equal_iff g [], equal_iff g dot, n.0, n.1.0)

enter-IsName : (gs : List Bytes) (g : Bytes) → IsName g → enter gs g ≡ g ∷ gs
unfolding enter
enter-IsName gs g n = rw (not_parent g n.1.1, not_skipped g n)

nil_or_ne {ℓ} : {A : Type ℓ} (g : List A) → (g ≡ []) ⊎ (g ≢ [])
nil_or_ne [] = inl refl
nil_or_ne (c ∷ g) = inr (λ e. cc)

enter_last-IsLast : (gs : List Bytes) (g : Bytes) → IsLast g → enter_last gs g ≡ g ∷ gs
unfolding enter_last is_skipped equal
enter_last-IsLast gs g n = elim (nil_or_ne g) [
  | inl e ↦ rw e
  | inr ne ↦ rw (not_parent g n.1, not_skipped g (ne, n))
]

-- Names, then the last segment: in this order they are only stacked.
resolve-append :
    (hs gs : List Bytes) (g : Bytes)
    → All IsName hs
    → IsLast g
    → resolve gs (hs ++ g ∷ []) ≡ g ∷ (reverse hs ++ gs)
unfolding resolve
resolve-append [] gs g a l = enter_last-IsLast gs g l
resolve-append (h ∷ []) gs g a l = rw (enter-IsName gs h a.0) (enter_last-IsLast (h ∷ gs) g l)
resolve-append (h ∷ k ∷ hs) gs g a l = rw (enter-IsName gs h a.0) (
    resolve-append (k ∷ hs) (h ∷ gs) g a.1 l
    ∙ ap (◌∷◌ g) (rw (reverse-cons h (k ∷ hs)) (sym (append_assoc (reverse (k ∷ hs)) (h ∷ []) gs))))

resolve-reverse : (st : List Bytes) → IsStack st → resolve [] (reverse st) ≡ st
resolve-reverse [] i = absurd i
resolve-reverse (g ∷ gs) i = rw (reverse-cons g gs) (
    resolve-append (reverse gs) [] g (All-reverse IsName gs i.1) i.0
    ∙ rw (append-nil (reverse (reverse gs)), reverse-reverse gs))

render-first : (g : Bytes) (gs : List Bytes) → (t : Bytes) × (render (g ∷ gs) ≡ b'/' ∷ t)
unfolding render
render-first g [] = (g, refl)
render-first g (h ∷ gs) = let (t, e) = render-first h gs in (t ++ b'/' ∷ g, rw e)

segments-slash :
    (s t : Bytes) (gs : List Bytes) → s ≡ b'/' ∷ t → split s ≡ [] ∷ gs → segments s ≡ gs
unfolding split
segments-slash s t gs e h = let h' : [] ∷ split t ≡ [] ∷ gs = rw e at h in rw e (cc h')

-- The bytes of the result are a slash and those of the path.
module _ (P : ℕ → Type 0) where
  parent-All : (gs : List Bytes) → All (All P) gs → All (All P) (parent gs)
  unfolding parent
  parent-All [] a = a
  parent-All (g ∷ gs) a = a.1

  enter-All : (gs : List Bytes) (g : Bytes) → All (All P) gs → All P g → All (All P) (enter gs g)
  unfolding enter
  enter-All gs g a p = ground (arith, parent-All gs a)

  enter_last-All :
      (gs : List Bytes) (g : Bytes) → All (All P) gs → All P g → All (All P) (enter_last gs g)
  unfolding enter_last
  enter_last-All gs g a p = ground (arith, parent-All gs a)

  resolve-All : (hs gs : List Bytes) → All (All P) gs → All (All P) hs → All (All P) (resolve gs hs)
  unfolding resolve
  resolve-All [] gs a b = a
  resolve-All (g ∷ []) gs a b = enter_last-All gs g a b.0
  resolve-All (g ∷ h ∷ hs) gs a b = resolve-All (h ∷ hs) (enter gs g) (enter-All gs g a b.0) b.1

  onto_first-All : (c : ℕ) (gs : List Bytes) → P c → All (All P) gs → All (All P) (onto_first c gs)
  unfolding onto_first
  onto_first-All c [] p a = ((p, tt), tt)
  onto_first-All c (g ∷ gs) p a = ((p, a.0), a.1)

  split-All : (s : Bytes) → All P s → All (All P) (split s)
  unfolding split
  split-All [] a = (tt, tt)
  split-All (c ∷ s) a = ground (arith, split-All s a.1, onto_first-All c (split s) a.0)

  segments-All : (s : Bytes) → All P s → All (All P) (segments s)
  segments-All [] a = tt
  segments-All (c ∷ s) a = ground (arith, split-All s a.1, split-All (c ∷ s) a)

  render-All : P b'/' → (gs : List Bytes) → All (All P) gs → All P (render gs)
  unfolding render
  render-All slash [] a = tt
  render-All slash (g ∷ gs) a =
      All-append P (render gs) (b'/' ∷ g) (render-All slash gs a.1) (slash, a.0)

  skip_spaces-All : (s : Bytes) → All P s → All P (skip_spaces s)
  unfolding skip_spaces
  skip_spaces-All [] a = a
  skip_spaces-All (c ∷ s) a = ground (arith, skip_spaces-All s a.1)

abbrev IsText : ℕ → Type 0
IsText c = (c < 256) × (c ≢ 0)

c_string-IsText : (s : Bytes) → AreBytes s → All IsText (c_string s)
unfolding c_string
c_string-IsText [] b = tt
c_string-IsText (c ∷ s) b = ground (arith, c_string-IsText s b.1)

c_string_text : (s : Bytes) → All IsText s → c_string s ≡ s
unfolding c_string
c_string_text [] a = refl
c_string_text (c ∷ s) a = ground (arith, c_string_text s a.1, a.0.1)

text-AreBytes : (s : Bytes) → All IsText s → AreBytes s
text-AreBytes [] a = tt
text-AreBytes (c ∷ s) a = (a.0.0, text-AreBytes s a.1)

skip_spaces-slash : (s t : Bytes) → s ≡ b'/' ∷ t → skip_spaces s ≡ s
unfolding skip_spaces
skip_spaces-slash s t e = rw e

resolved-IsText : (src : Bytes) → AreBytes src → All IsText (render (resolved src))
resolved-IsText src b = render-All IsText (omega arith) (resolved src) (
    resolve-All IsText (segments (source_path src)) [] tt (
      segments-All IsText (source_path src)
        (skip_spaces-All IsText (c_string src) (c_string-IsText src b))))

-- A stack renders to a text that resolves to it.
render-again :
    (st : List Bytes)
    → IsStack st
    → All IsText (render st)
    → (source_path (render st) ≢ []) × (resolved (render st) ≡ st)
render-again [] i a = absurd i
render-again (g ∷ gs) i a =
    let (t, e) = render-first g gs in
    let same : source_path (render (g ∷ gs)) ≡ render (g ∷ gs) =
      rw (c_string_text (render (g ∷ gs)) a) (skip_spaces-slash (render (g ∷ gs)) t e) in
    let parts : segments (render (g ∷ gs)) ≡ reverse (g ∷ gs) =
      segments-slash (render (g ∷ gs)) t (reverse (g ∷ gs)) e
        (split-render (g ∷ gs) (stack-IsLast (g ∷ gs) i)) in
    (rw (same, e) (λ q. cc), rw (same, parts) (resolve-reverse (g ∷ gs) i))

-- Simplifying a text that simplifying gave leaves it as it is, for every source of bytes whose path
-- is not empty.
pub path_simplify_twice :
    (src text : Bytes)
    → AreBytes src
    → source_path src ≢ []
    → Holds (path_simplify src) text
    → Holds (path_simplify text) text
path_simplify_twice src text b ne h =
    let st = resolved src in
    let e = Holds-unique (path_simplify src) _ text (path_simplify-resolve src b ne) h in
    let again = render-again st (resolved-IsStack src b ne) (resolved-IsText src b) in
    let result =
      path_simplify-resolve (render st) (text-AreBytes (render st) (resolved-IsText src b))
        again.0 in
    rw (← e) (rw again.1 at result)
