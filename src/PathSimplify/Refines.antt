-- ===== src/PathSimplify/Refines.antt =====
-- `buffer_path_simplify` resolves the segments of its path.
use lighttpd_autothumb.Base.{
  ℕ, ◌+◌, ◌<◌, ◌≡◌, refl, sym, ap, ◌∙◌, ◌≢◌, inl, inr, false, List, [], ◌∷◌, ◌++◌, append-nil,
  append_assoc, reverse, arith, ◌==◌, if◌then◌else◌, ==_iff, Bool-cases, length, length-append,
  Bytes, equal, All,
}
use mathlib.Core.List.{reverse-append, reverse-reverse, reverse-cons}
use lighttpd_autothumb.PathSimplify.Spec.{
  dot_dot, onto_first, split, parent, is_skipped, enter, resolve, render,
}
use lighttpd_autothumb.PathSimplify.Steps.{
  NotSlash, stacked, AreSegments, Remembers, shift_in-slash, shift_in-Remembers, close_token-enter,
  close_token-enter_last,
}
use lighttpd_autothumb.PathSimplify.{
  Simplified, shift_in, simplify_loop, terminated, simplify_from, skip_spaces, path_simplify,
}
use lighttpd_autothumb.UrlDecode.{c_string}

abbrev pub AreBytes : Bytes → Type 0
AreBytes = All (λ c. c < 256)

abbrev prepend : Bytes → List Bytes → List Bytes
prepend p [] = []
prepend p (g ∷ gs) = (p ++ g) ∷ gs

prepend-onto_first :
    (r : Bytes) (c : ℕ) (gs : List Bytes) {h : Bytes} {hs : List Bytes}
    → gs ≡ h ∷ hs
    → prepend (reverse (c ∷ r)) gs ≡ prepend (reverse r) (onto_first c gs)
unfolding onto_first
prepend-onto_first r c [] e = cc
prepend-onto_first r c (g ∷ gs) e = rw (reverse-append (c ∷ []) r, append_assoc)

pub split_cons : (w : Bytes) → (h : Bytes) × (hs : List Bytes) × (split w ≡ h ∷ hs)
unfolding split onto_first
split_cons [] = ([], [], refl)
split_cons (c ∷ w) = elim (Bool-cases (c == b'/')) [
  | inl t ↦ ([], split w, rw t)
  | inr n ↦ let (h, hs, e) = split_cons w in (c ∷ h, hs, rw (n, e))
]

prepend-nil : (gs : List Bytes) → prepend [] gs ≡ gs
prepend-nil [] = refl
prepend-nil (g ∷ gs) = refl

parent-AreSegments : (gs : List Bytes) → AreSegments gs → AreSegments (parent gs)
unfolding parent
parent-AreSegments [] a = a
parent-AreSegments (g ∷ gs) a = a.1

enter-AreSegments :
    (gs : List Bytes) (r : Bytes)
    → AreSegments gs
    → All NotSlash r
    → AreSegments (enter gs (reverse r))
unfolding enter
enter-AreSegments gs r a ns = elim (Bool-cases (equal (reverse r) dot_dot)) [
  | inl t ↦ rw t (parent-AreSegments gs a)
  | inr n ↦ elim (Bool-cases (is_skipped (reverse r))) [
    | inl t ↦ rw (n, t) a
    | inr k ↦ rw (n, k) (rw (reverse-reverse r) ns, a)
  ]
]

resolve-enter :
    (gs : List Bytes) (g h : Bytes) (rest hs : List Bytes)
    → rest ≡ h ∷ hs
    → resolve gs (g ∷ rest) ≡ resolve (enter gs g) rest
unfolding resolve
resolve-enter gs g h [] hs e = cc
resolve-enter gs g h (x ∷ rest) hs e = refl

resolve_slash :
    (gs : List Bytes) (r w : Bytes)
    → resolve (enter gs (reverse r)) (prepend [] (split w))
      ≡ resolve gs ((reverse r ++ []) ∷ split w)
resolve_slash gs r w =
    let (h, hs, e) = split_cons w in
    rw (prepend-nil (split w), append-nil (reverse r))
      (sym (resolve-enter gs (reverse r) h (split w) hs e))

split_keep : (c : ℕ) (p : Bytes) → (c == b'/') ≡ false → split (c ∷ p) ≡ onto_first c (split p)
unfolding split
split_keep c p n = rw n

prepend_first : (c : ℕ) (p : Bytes) → prepend (reverse (c ∷ [])) (split p) ≡ onto_first c (split p)
prepend_first c p =
    let (h, hs, e) = split_cons p in
    prepend-onto_first [] c (split p) e ∙ prepend-nil (onto_first c (split p))

-- The loop, at a token `r` behind the kept segments `gs`, ends with the segments resolved.
pub simplify_loop-resolve :
    (w r : Bytes) (gs : List Bytes) (pre : ℕ)
    → AreBytes w
    → All NotSlash r
    → Remembers pre r
    → AreSegments gs
    → simplify_loop (r ++ b'/' ∷ stacked gs) (length (stacked gs)) pre w
      ≡ stacked (resolve gs (prepend (reverse r) (split w)))
unfolding simplify_loop split resolve
simplify_loop-resolve [] r gs pre b ns m a =
    rw (append-nil (reverse r)) (close_token-enter_last r gs pre ns m a)
simplify_loop-resolve (c ∷ w) r gs pre b ns m a = elim (Bool-cases (c == b'/')) [
  | inl t ↦
      let c' : c ≡ b'/' = (==_iff c b'/').0 t in
      rw (t, c', close_token-enter r gs pre ns m a)
        (simplify_loop-resolve w [] (enter gs (reverse r)) (shift_in pre b'/') b.1 tt
            (shift_in-slash pre) (enter-AreSegments gs r a ns)
          ∙ ap stacked (resolve_slash gs r w))
  | inr n ↦
      let (h, hs, e) = split_cons w in
      let c' : NotSlash c = (λ q. cc (n, (==_iff c b'/').1 q), b.0) in
      rw n (
        simplify_loop-resolve w (c ∷ r) gs (shift_in pre c) b.1 (c', ns)
          (shift_in-Remembers pre c r ns b.0 m) a
        ∙ ap (λ x. stacked (resolve gs x)) (prepend-onto_first r c (split w) e))
]

reverse-stacked : (gs : List Bytes) → reverse (stacked gs) ≡ render gs
unfolding render
reverse-stacked [] = refl
reverse-stacked (g ∷ gs) =
    reverse-append (reverse g) (b'/' ∷ stacked gs)
    ∙ rw (reverse-reverse g, reverse-cons b'/' (stacked gs), reverse-stacked gs)
        (append_assoc (render gs) (b'/' ∷ []) g)

pub length-reverse : (w : Bytes) → length (reverse w) ≡ length w
length-reverse [] = refl
length-reverse (c ∷ w) =
    rw (reverse-cons c w) (omega (arith, length-append (reverse w) (c ∷ []), length-reverse w))

-- The segments of a path, whose first slash may be missing.
abbrev pub segments : Bytes → List Bytes
segments [] = []
segments (c ∷ p) = if c == b'/' then split p else split (c ∷ p)

-- `dest` holds a text of bytes that are not zero, behind it the zero, and `used` counts both.
abbrev pub Holds : Simplified → Bytes → Type 0
Holds d text = (d.stored ≡ text ++ 0 ∷ []) × (d.used ≡ length text + 1)

terminated-Holds : (gs : List Bytes) → Holds (terminated (stacked gs)) (render gs)
unfolding terminated
terminated-Holds gs = (
  ap (λ w. w ++ 0 ∷ []) (reverse-stacked gs),
  omega (arith, length-reverse (stacked gs), ap length (reverse-stacked gs)),
)

simplify_from-Holds :
    (c : ℕ) (p : Bytes)
    → AreBytes (c ∷ p)
    → Holds (simplify_from (c ∷ p)) (render (resolve [] (segments (c ∷ p))))
unfolding simplify_from
simplify_from-Holds c p b = elim (Bool-cases (c == b'/')) [
  | inl t ↦
      let c' : c ≡ b'/' = (==_iff c b'/').0 t in
      rw
        (
          t,
          c',
          simplify_loop-resolve p [] [] (shift_in 0 b'/') b.1 tt (shift_in-slash 0) tt,
          prepend-nil (split p),
        )
        (terminated-Holds (resolve [] (split p)))
  | inr n ↦
      let c' : NotSlash c = (λ q. cc (n, (==_iff c b'/').1 q), b.0) in
      rw
        (
          n,
          simplify_loop-resolve p (c ∷ []) [] (shift_in b'/' c) b.1 (c', tt)
              (shift_in-Remembers b'/' c [] tt b.0 refl) tt,
          prepend_first c p,
          split_keep c p n,
        )
        (terminated-Holds (resolve [] (onto_first c (split p))))
]

pub skip_spaces-AreBytes : (s : Bytes) → AreBytes s → AreBytes (skip_spaces s)
unfolding skip_spaces
skip_spaces-AreBytes [] b = b
skip_spaces-AreBytes (c ∷ s) b = ground (arith, skip_spaces-AreBytes s b.1)

pub c_string-AreBytes : (s : Bytes) → AreBytes s → AreBytes (c_string s)
unfolding c_string
c_string-AreBytes [] b = b
c_string-AreBytes (c ∷ s) b = ground (arith, c_string-AreBytes s b.1)

-- The path that is simplified: `src` up to its zero, without the spaces in front.
abbrev pub source_path : Bytes → Bytes
source_path src = skip_spaces (c_string src)

simplify_from-ne_nil :
    (p : Bytes) → AreBytes p → p ≢ [] → Holds (simplify_from p) (render (resolve [] (segments p)))
simplify_from-ne_nil [] b ne = absurd (ne refl)
simplify_from-ne_nil (c ∷ p) b ne = simplify_from-Holds c p b

-- For every source of bytes whose path is not empty, `dest` holds the path with its segments
-- resolved: `.` and empty ones are left out, `..` takes the one in front of it away, and nothing
-- above the root; a last one that is left out leaves a slash.
pub path_simplify-resolve :
    (src : Bytes)
    → AreBytes src
    → source_path src ≢ []
    → Holds (path_simplify src) (render (resolve [] (segments (source_path src))))
unfolding path_simplify
path_simplify-resolve src b ne =
    simplify_from-ne_nil (source_path src) (skip_spaces-AreBytes _ (c_string-AreBytes src b)) ne

-- Where the path is empty, or only spaces, `used` is not the length of the text with its zero: it
-- says 3, and the call has written two bytes.
pub path_simplify_empty :
    (src : Bytes)
    → source_path src ≡ []
    → ((path_simplify src).stored ≡ b'/' ∷ 0 ∷ []) × ((path_simplify src).used ≡ 3)
unfolding path_simplify simplify_from
path_simplify_empty src e = rw e (refl, refl)
