-- ===== src/Connection/Read/Body.antt =====
-- Which part of the read queue becomes the body of a request.
use lighttpd_autothumb.Connection.Header.Found.{concat}
use lighttpd_autothumb.Connection.Read.{Moved, smaller, move_body}
use lighttpd_autothumb.Base.{
  ℕ, zero, suc, ◌+◌, ◌-◌, ◌*◌, ◌≤◌, ◌≡◌, refl, sym, ap, ◌∙◌, inl, inr, false, ◌&&◌, List, [], ◌∷◌,
  ◌++◌, append-nil, append_assoc, arith, ltb, ◌==◌, Bool-cases, length, take, drop, Bytes,
}

-- The bytes that are left in the chunks.
abbrev pub unread : List Bytes → ℕ
unread [] = 0
unread (c ∷ cs) = length c + unread cs

take-append : (k : ℕ) (c t : Bytes) → take k (c ++ t) ≡ take k c ++ take (k - length c) t
take-append zero c t = let z : 0 - length c ≡ 0 = omega arith in rw z refl
take-append (suc k) [] t = let z : suc k - 0 ≡ suc k = omega arith in rw z refl
take-append (suc k) (d ∷ c) t =
    let z : suc k - suc (length c) ≡ k - length c = omega arith in
    rw z (ap (λ x. d ∷ x) (take-append k c t))

drop-append : (k : ℕ) (c t : Bytes) → drop k (c ++ t) ≡ drop k c ++ drop (k - length c) t
drop-append zero c t = let z : 0 - length c ≡ 0 = omega arith in rw z refl
drop-append (suc k) [] t = let z : suc k - 0 ≡ suc k = omega arith in rw z refl
drop-append (suc k) (d ∷ c) t =
    let z : suc k - suc (length c) ≡ k - length c = omega arith in rw z (drop-append k c t)

take_all : (k : ℕ) (c : Bytes) → length c ≤ k → take k c ≡ c
take_all zero [] h = refl
take_all (suc k) [] h = refl
take_all zero (d ∷ c) h = absurd (omega (arith, h))
take_all (suc k) (d ∷ c) h = ap (λ x. d ∷ x) (take_all k c (omega (arith, h)))

drop_all : (k : ℕ) (c : Bytes) → length c ≤ k → drop k c ≡ []
drop_all zero [] h = refl
drop_all (suc k) [] h = refl
drop_all zero (d ∷ c) h = absurd (omega (arith, h))
drop_all (suc k) (d ∷ c) h = drop_all k c (omega (arith, h))

-- At most so much is taken as the text has.
take-smaller : (k : ℕ) (c : Bytes) → take (smaller (length c) k) c ≡ take k c
take-smaller k c = elim (Bool-cases (ltb k (length c))) [
  | inl t ↦ rw t refl
  | inr f ↦
      let h : length c ≤ k = ground (arith, f) in
      rw f (take_all (length c) c (omega arith) ∙ sym (take_all k c h))
]

drop-smaller : (k : ℕ) (c : Bytes) → drop (smaller (length c) k) c ≡ drop k c
drop-smaller k c = elim (Bool-cases (ltb k (length c))) [
  | inl t ↦ rw t refl
  | inr f ↦
      let h : length c ≤ k = ground (arith, f) in
      rw f (drop_all (length c) c (omega arith) ∙ sym (drop_all k c h))
]

-- What the loop over the chunks gives when no write has failed: the body grows by what it lacks, or
-- by all that has arrived.
abbrev pub BodyTaken : ℕ → ℕ → Bytes → List Bytes → Moved → Type 0
BodyTaken size done content chunks moved =
    (moved.moved_in ≡ smaller (done + unread chunks) size)
    × (moved.moved_content ≡ content ++ take (size - done) (concat chunks))
    × (concat moved.moved_rest ≡ drop (size - done) (concat chunks))

-- With a body that has at most the announced length, and no write that fails, the loop over the chunks
-- moves the first bytes of the queue into the body, as many as it lacks or else all of them, in their
-- order, and leaves the others, however they are cut into chunks.
pub move_body-BodyTaken :
    (writes size done : ℕ) (content : Bytes) (chunks : List Bytes)
    → done ≤ size
    → (move_body writes size done content chunks).denied ≡ false
    → BodyTaken size done content chunks (move_body writes size done content chunks)
unfolding move_body
move_body-BodyTaken writes size done content [] h ok = (
  ground (arith, h),
  (rw (take_all (size - done) [] (omega arith)) (sym (append-nil content))),
  sym (drop_all (size - done) [] (omega arith)),
)
move_body-BodyTaken writes size done content (c ∷ cs) h ok = elim (Bool-cases (done == size)) [
  | inl e ↦
      let z : size - done ≡ 0 = ground (arith, e) in
      let same : done ≡ size = ground (arith, e) in
      rw e (ground (arith, same), rw z (sym (append-nil content)), rw z refl)
  | inr f ↦ elim (Bool-cases (ltb (64 * 1024) size && writes == 0)) [
    | inl d ↦ absurd (cc (rw (f, d, move_body) at ok))
    | inr g ↦
        let k = size - done in
        let n = smaller (length c) k in
        let next =
          move_body-BodyTaken (writes - 1) size (done + n) (content ++ take n c) cs
            (ground (arith, h)) (rw (f, g, move_body) at ok) in
        let lacks : size - (done + n) ≡ k - length c = ground (arith, h) in
        rw (f, g)
          (
            next.0 ∙ ground (arith, h),
            next.1 ∙ taken k lacks,
            ap (λ t. drop n c ++ t) next.2 ∙ left k lacks,
          )
  ]
]
  where
    taken :
        (k : ℕ)
        → size - (done + smaller (length c) k) ≡ k - length c
        → ((content ++ take (smaller (length c) k) c)
            ++ take (size - (done + smaller (length c) k)) (concat cs))
          ≡ content ++ take k (c ++ concat cs)
    taken k lacks =
        rw
          (
            lacks,
            take-smaller k c,
            append_assoc content (take k c) (take (k - length c) (concat cs)),
          )
          (ap (λ t. content ++ t) (sym (take-append k c (concat cs))))

    left :
        (k : ℕ)
        → size - (done + smaller (length c) k) ≡ k - length c
        → (drop (smaller (length c) k) c ++ drop (size - (done + smaller (length c) k)) (concat cs))
          ≡ drop k (c ++ concat cs)
    left k lacks = rw (lacks, drop-smaller k c) (sym (drop-append k c (concat cs)))
