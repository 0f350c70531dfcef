-- ===== src/Uri/Alias.antt =====
-- `mod_alias` maps a clean URI to a clean path where alias and target both end with a slash, and
-- only then.
use lighttpd_autothumb.Base.{
  All-front, All-both, ℕ, zero, suc, ◌-◌, ◌≡◌, refl, sym, ap, ◌∙◌, ◌≢◌, ◌↔◌, true, false, Option,
  none, some, List, [], ◌∷◌, ◌++◌, append_assoc, arith, ltb, length, length-append, drop, Bytes,
  equal, equal_iff, All,
}
use lighttpd_autothumb.Uri.{same_text, Physical, alias_loop, alias_physical_handler}
use lighttpd_autothumb.Buffer.Memory.{take-length_append}
use lighttpd_autothumb.PathSimplify.Spec.{split, dot_dot}
use lighttpd_autothumb.PathSimplify.Steps.{NotSlash}
use lighttpd_autothumb.PathSimplify.Clean.{IsClean, IsLast, split-slash, split_unslashed}

IsClean-slash : (s t : Bytes) → IsClean (s ++ b'/' ∷ t) ↔ (IsClean s × IsClean t)
IsClean-slash s t =
    rw (split-slash s t)
      (All-front IsLast (split s) (split t), λ p. All-both IsLast (split s) (split t) p.0 p.1)

drop-length_append : (a w : Bytes) → drop (length a) (a ++ w) ≡ w
drop-length_append [] w = refl
drop-length_append (x ∷ a) w = drop-length_append a w

abbrev pub text_of : Option Bytes → Bytes
text_of none = []
text_of (some text) = text

-- What of the path is behind the base directory.
abbrev pub uri_of : Physical → Bytes
uri_of physical = drop (length physical.basedir - 1) (text_of physical.path)

loop_first :
    (key value rest : Bytes) (alias : List (Option Bytes × Bytes)) (physical : Physical)
    → alias_loop false (key ++ rest) ((some key, value) ∷ alias) physical
      ≡ record { basedir = value; path = some (value ++ rest) }
unfolding alias_loop same_text
loop_first key value rest alias physical =
    let long : ltb (length (key ++ rest)) (length key) ≡ false =
      ground (arith, length-append key rest) in
    let same : equal key key ≡ true = (equal_iff key key).1 refl in
    rw (long, take-length_append key rest, same, drop-length_append key rest)

drop_nil : (n : ℕ) → drop n (text_of none) ≡ []
drop_nil zero = refl
drop_nil (suc n) = refl

front_nil {ℓ} : {A : Type ℓ} (a b : List A) → a ++ b ≡ [] → a ≡ []
front_nil [] b e = refl
front_nil (x ∷ a) b e = cc

front_not_nil {ℓ} : {A : Type ℓ} (a : List A) (x : A) (b : List A) → a ++ x ∷ b ≢ []
front_not_nil [] x b e = cc
front_not_nil (y ∷ a) x b e = cc

alias_at :
    (key value rest : Bytes) (alias : List (Option Bytes × Bytes)) (basedir : Bytes)
    (path : Option Bytes)
    → key ≢ []
    → drop (length basedir - 1) (text_of path) ≡ key ++ rest
    → text_of
        (alias_physical_handler false
          ((some key, value) ∷ alias)
          (record { basedir = basedir; path = path })).path
      ≡ value ++ rest
unfolding alias_physical_handler
alias_at key value rest alias basedir none ne e =
    absurd (ne (front_nil key rest (sym e ∙ drop_nil (length basedir - 1))))
alias_at key value rest alias basedir (some path) ne e =
    rw (e, loop_first key value rest alias (record { basedir = basedir; path = some path }))

-- The first alias matches: the target takes the place of the alias.
alias_first :
    (key value rest : Bytes) (alias : List (Option Bytes × Bytes)) (physical : Physical)
    → key ≢ []
    → uri_of physical ≡ key ++ rest
    → text_of (alias_physical_handler false ((some key, value) ∷ alias) physical).path
      ≡ value ++ rest
alias_first key value rest alias physical ne e =
    alias_at key value rest alias physical.basedir physical.path ne e

-- Where letters are not folded, and the first alias is `k/` for a target `v/` whose `v` has no segment
-- `.` or `..`: a URI that begins with `k/` and has none is mapped to a path that has none.
pub alias-IsClean :
    (k v rest : Bytes) (alias : List (Option Bytes × Bytes)) (physical : Physical)
    → uri_of physical ≡ (k ++ b'/' ∷ []) ++ rest
    → IsClean ((k ++ b'/' ∷ []) ++ rest)
    → IsClean v
    → IsClean (
        text_of
          (alias_physical_handler false
            ((some (k ++ b'/' ∷ []), v ++ b'/' ∷ []) ∷ alias)
            physical).path)
alias-IsClean k v rest alias physical e clean target =
    rw
      (
        alias_first (k ++ b'/' ∷ []) (v ++ b'/' ∷ []) rest alias physical
            (λ n. front_not_nil k (b'/') [] n) e,
        append_assoc v (b'/' ∷ []) rest,
      )
      ((IsClean-slash v rest).1
        (target, ((IsClean-slash k rest).0 (rw (append_assoc k (b'/' ∷ []) rest) at clean)).1))

name-IsLast : (name : Bytes) → All NotSlash name → name ≢ [] → IsLast (name ++ dot_dot)
name-IsLast [] ns ne = absurd (ne refl)
name-IsLast (c ∷ name) ns ne = (
  (λ e. absurd (omega (arith, ap length e, length-append (c ∷ name) dot_dot))),
  (λ e. absurd (omega (arith, ap length e, length-append (c ∷ name) dot_dot))),
  All-both NotSlash (c ∷ name) dot_dot ns (omega arith),
)

segment-IsClean : (name : Bytes) → All NotSlash name → name ≢ [] → IsClean (name ++ dot_dot)
segment-IsClean name ns ne =
    let last = name-IsLast name ns ne in rw (split_unslashed (name ++ dot_dot) last.2) (last, tt)

parent_escapes : (rest : Bytes) → ¬ IsClean (dot_dot ++ b'/' ∷ rest)
parent_escapes rest clean =
    let front = ((IsClean-slash dot_dot rest).0 clean).0 in
    let only : All IsLast (dot_dot ∷ []) = rw (split_unslashed dot_dot (omega arith)) at front in
    only.0.1 refl

regroup :
    (p name rest : Bytes)
    → (p ++ b'/' ∷ name) ++ (dot_dot ++ b'/' ∷ rest)
      ≡ p ++ b'/' ∷ ((name ++ dot_dot) ++ b'/' ∷ rest)
regroup p name rest =
    append_assoc p (b'/' ∷ name) (dot_dot ++ b'/' ∷ rest)
    ∙ ap (λ t. p ++ b'/' ∷ t) (sym (append_assoc name dot_dot (b'/' ∷ rest)))

-- Where letters are not folded, and the first alias is `p/name` without a slash at its end, for a target
-- `v/`: where `p` and `rest` have no segment `.` or `..`, and `name` has characters and no slash, the
-- URI `p/name../rest` has none either, and the path that the handler maps it to has one.
pub alias_escapes :
    (p name v rest : Bytes) (alias : List (Option Bytes × Bytes)) (physical : Physical)
    → All NotSlash name
    → name ≢ []
    → IsClean p
    → IsClean rest
    → uri_of physical ≡ (p ++ b'/' ∷ name) ++ (dot_dot ++ b'/' ∷ rest)
    → IsClean ((p ++ b'/' ∷ name) ++ (dot_dot ++ b'/' ∷ rest))
      × ¬ IsClean (
          text_of
            (alias_physical_handler false
              ((some (p ++ b'/' ∷ name), v ++ b'/' ∷ []) ∷ alias)
              physical).path)
alias_escapes p name v rest alias physical ns ne cp cr e = (
  rw (regroup p name rest) (
      (IsClean-slash p _).1
        (cp, (IsClean-slash (name ++ dot_dot) rest).1 (segment-IsClean name ns ne, cr))),
  λ clean.
      let mapped =
        rw
          (
            alias_first (p ++ b'/' ∷ name) (v ++ b'/' ∷ []) (dot_dot ++ b'/' ∷ rest) alias physical
                (λ n. front_not_nil p (b'/') name n) e,
            append_assoc v (b'/' ∷ []) (dot_dot ++ b'/' ∷ rest),
          )
          at clean in
      parent_escapes rest ((IsClean-slash v (dot_dot ++ b'/' ∷ rest)).0 mapped).1,
)
