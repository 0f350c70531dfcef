-- ===== src/Response/Lower.antt =====
-- Lower case letters leave a clean path clean.
use lighttpd_autothumb.Uri.{lower}
use lighttpd_autothumb.PathSimplify.Spec.{dot, dot_dot, onto_first, split}
use lighttpd_autothumb.PathSimplify.Steps.{NotSlash}
use lighttpd_autothumb.PathSimplify.Clean.{IsClean, IsLast}
use lighttpd_autothumb.Base.{
  ℕ, ◌≡◌, refl, sym, ap, ◌∙◌, ◌≢◌, inl, inr, List, [], ◌∷◌, map, arith, ◌==◌, Bool-cases, length,
  Bytes, All,
}

-- Lower case letters make no new dots and slashes.
lower-slash : (c : ℕ) → (lower c == b'/') ≡ (c == b'/')
unfolding lower
lower-slash c = ground arith

onto-lower :
    (c : ℕ) (gs : List Bytes)
    → map (map lower) (onto_first c gs) ≡ onto_first (lower c) (map (map lower) gs)
unfolding onto_first
onto-lower c [] = refl
onto-lower c (g ∷ gs) = refl

split-lower : (s : Bytes) → split (map lower s) ≡ map (map lower) (split s)
unfolding split
split-lower [] = refl
split-lower (c ∷ s) = elim (Bool-cases (c == b'/')) [
  | inl t ↦ rw (lower-slash c, t) (ap (◌∷◌ []) (split-lower s))
  | inr f ↦
      rw (lower-slash c, f)
        (ap (onto_first (lower c)) (split-lower s) ∙ sym (onto-lower c (split s)))
]

lower-dot : (g : Bytes) → map lower g ≡ dot → g ≡ dot
unfolding lower
lower-dot [] e = cc e
lower-dot (c ∷ []) e = ground (arith, e)
lower-dot (c ∷ d ∷ g) e = absurd (omega (arith, ap length e))

lower_dots : (g : Bytes) → map lower g ≡ dot_dot → g ≡ dot_dot
unfolding lower
lower_dots [] e = cc e
lower_dots (c ∷ []) e = absurd (omega (arith, ap length e))
lower_dots (c ∷ d ∷ []) e = ground (arith, e)
lower_dots (c ∷ d ∷ f ∷ g) e = absurd (omega (arith, ap length e))

lower-NotSlash : (g : Bytes) → All NotSlash g → All NotSlash (map lower g)
unfolding lower
lower-NotSlash [] a = tt
lower-NotSlash (c ∷ g) a =
    (((λ e. unslashed c a.0.0 e), ground (arith, a.0.1)), lower-NotSlash g a.1)
  where
    unslashed : (d : ℕ) → d ≢ b'/' → lower d ≢ b'/'
    unslashed d ne e = ground (arith, ne, e)

lower-IsLast : (gs : List Bytes) → All IsLast gs → All IsLast (map (map lower) gs)
lower-IsLast [] a = tt
lower-IsLast (g ∷ gs) a = (
  ((λ e. a.0.0 (lower-dot g e)), (λ e. a.0.1 (lower_dots g e)), lower-NotSlash g a.0.2),
  lower-IsLast gs a.1,
)

pub lower-IsClean : (s : Bytes) → IsClean s → IsClean (map lower s)
lower-IsClean s a = rw (split-lower s) (lower-IsLast (split s) a)
