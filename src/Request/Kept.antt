-- ===== src/Request/Kept.antt =====
-- What the parts of the parser leave alone when they go on: the URI, the method and the version, and a
-- body length that is set.
pub mod Fields
pub mod Loop
use lighttpd_autothumb.Array.{insert_key}
use lighttpd_autothumb.Request.{
  Con, Result, ok, stop, fault, ◌>>=◌, reject, string_insert_dup, insert_header,
}
use lighttpd_autothumb.Request.Field.{refuse as refuse_field, content_length}
use lighttpd_autothumb.Base.{
  ℕ, ◌≡◌, refl, ◌∙◌, inl, inr, Bool, true, false, if◌then◌else◌, Option-cases, Bytes,
}

-- What holds of the result, if there is one.
abbrev pub OkAll {ℓ κ} : {A : Type ℓ} → (A → Type κ) → Result A → Type κ
OkAll p (ok a) = p a
OkAll p (stop con) = Unit
OkAll p fault = Unit

pub OkAll->>= {ℓ κ ℓ' κ'} :
    {A : Type ℓ} {B : Type κ} (p : A → Type ℓ') (q : B → Type κ') (r : Result A) (f : A → Result B)
    → OkAll p r
    → ((a : A) → p a → OkAll q (f a))
    → OkAll q (r >>= f)
OkAll->>= p q (ok a) f h k = k a h
OkAll->>= p q (stop con) f h k = tt
OkAll->>= p q fault f h k = tt

abbrev pub Kept : Con → Con → Type 0
Kept con con' =
    (con'.uri ≡ con.uri)
    × (con'.http_method ≡ con.http_method)
    × (con'.http_version ≡ con.http_version)
    × (con.con_length_set ≡ true
        → (con'.con_length_set ≡ true) × (con'.content_length ≡ con.content_length))

pub Kept-same : (con : Con) → Kept con con
Kept-same con = (refl, refl, refl, λ h. (h, refl))

pub Kept-trans : (a b c : Con) → Kept a b → Kept b c → Kept a c
Kept-trans a b c (u, m, v, l) (u', m', v', l') =
    (u' ∙ u, m' ∙ m, v' ∙ v, λ h. let (x, y) = l h in let (x', y') = l' x in (x', y' ∙ y))

pub insert_header-Kept :
    (key value : Bytes) (start con : Con)
    → Kept start con
    → OkAll (Kept start) (insert_header key value con)
unfolding insert_header
insert_header-Kept key value start con h =
    elim (Option-cases (insert_key string_insert_dup (λ a b. true) con.headers key value)) [
      | inl n ↦ rw (n, insert_header) tt
      | inr (r, is) ↦ rw (is, insert_header) h
    ]

OkAll-stop {ℓ} : (p : Con → Type ℓ) (r : Result Con) → OkAll p (r >>= λ con. stop con)
OkAll-stop p (ok con) = tt
OkAll-stop p (stop con) = tt
OkAll-stop p fault = tt

pub refuse-OkAll {ℓ} :
    (p : Con → Type ℓ) (status : ℕ) (key value : Bytes) (con : Con)
    → OkAll p (refuse_field status key value con)
unfolding refuse_field
refuse-OkAll p status key value con = OkAll-stop p (insert_header key value (reject status con))

pub OkAll-map {ℓ κ κ'} :
    {A : Type ℓ} (p : A → Type κ) (q : A → Type κ') (r : Result A)
    → ((a : A) → p a → q a)
    → OkAll p r
    → OkAll q r
OkAll-map p q (ok a) f h = f a h
OkAll-map p q (stop con) f h = tt
OkAll-map p q fault f h = tt

pub OkAll-if {ℓ κ} :
    {A : Type ℓ} (p : A → Type κ) (b : Bool) (x y : Result A)
    → (b ≡ true → OkAll p x)
    → (b ≡ false → OkAll p y)
    → OkAll p (if b then x else y)
OkAll-if p true x y h k = h refl
OkAll-if p false x y h k = k refl
