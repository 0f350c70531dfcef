-- ===== src/Array/Search.antt =====
-- The search in the index: it reads nothing outside the array, it ends next to the index at most,
-- and it finds the place of a key at which the key parts the index.
use lighttpd_autothumb.Number.{ℤ, pos, negsuc, pos_part, neg_part}
use lighttpd_autothumb.Array.{
  Entry, Array, Probe, here, left, right, Result, move_left, move_right, used, entry_at, compare_at,
  probe, search_loop, get_index,
}
use native.Mathlib.Nat.{pow-suc}
use mathlib.Core.Path.{subst}
use lighttpd_autothumb.Base.{
  ℕ, zero, suc, ◌+◌, ◌/◌, ◌^◌, ◌≤◌, ◌<◌, ◌≡◌, refl, sym, ap, ◌∙◌, ◌⊎◌, inl, inr, true, false, none,
  some, List, [], ◌∷◌, arith, leb, ◌==◌, leb→le, Bool-cases, length, get_elem?, Bytes, All,
}

pub move_right_parts :
    (z : ℤ) (i : ℕ)
    → pos_part (move_right z i) + neg_part z ≡ neg_part (move_right z i) + pos_part z + i
unfolding move_right
move_right_parts (pos n) i = omega arith
move_right_parts (negsuc n) i = ground arith

pub move_left_parts :
    (z : ℤ) (i : ℕ)
    → pos_part (move_left z i) + neg_part z + i ≡ neg_part (move_left z i) + pos_part z
unfolding move_left
move_left_parts (pos n) i = ground arith
move_left_parts (negsuc n) i = omega arith

pub parts_one_sided : (z : ℤ) → (pos_part z ≡ 0) ⊎ (neg_part z ≡ 0)
parts_one_sided (pos n) = inr refl
parts_one_sided (negsuc n) = inl refl

move_right_zero : (z : ℤ) → move_right z 0 ≡ z
unfolding move_right
move_right_zero (pos n) = ap pos (omega arith)
move_right_zero (negsuc n) = ground arith

move_left_zero : (z : ℤ) → move_left z 0 ≡ z
unfolding move_left
move_left_zero (pos n) = ground arith
move_left_zero (negsuc n) = ap negsuc (omega arith)

-- The steps of the search, from the last one, which is 0, to the first.
abbrev pub half : ℕ → ℕ
half zero = 0
half (suc k) = 2 ^ k

half_next : (k : ℕ) → half (suc k) / 2 ≡ half k
half_next zero = refl
half_next (suc k) = omega (arith, pow-suc 2 k)

pub half_of : (k : ℕ) → 2 ^ k / 2 ≡ half k
half_of zero = refl
half_of (suc k) = omega (arith, pow-suc 2 k)

pub pow_pos : (k : ℕ) → 0 < 2 ^ k
pow_pos zero = omega arith
pow_pos (suc k) = omega (arith, pow_pos k, pow-suc 2 k)

pub half-lt : (k : ℕ) → half k < 2 ^ k
half-lt zero = omega arith
half-lt (suc k) = omega (arith, pow_pos k, pow-suc 2 k)

-- The index names the elements that there are, and a power of two bounds their number.
pub record IsValid {A : Type 0} (a : Array A) : Type 0 where
  pub indexed : length a.sorted ≡ length a.elements
  pub names : All (λ ndx. ndx < length a.elements) a.sorted
  pub power : (k : ℕ) × (a.next_power_of_2 ≡ 2 ^ k) × (k < 64)
  pub bounded : length a.elements ≤ a.next_power_of_2

pub get_elem?-lt {ℓ} :
    {A : Type ℓ} (xs : List A) (n : ℕ) → n < length xs → (x : A) × (get_elem? xs n ≡ some x)
get_elem?-lt [] n h = absurd (omega (arith, h))
get_elem?-lt (x ∷ xs) zero h = (x, refl)
get_elem?-lt (x ∷ xs) (suc n) h = get_elem?-lt xs n (omega (arith, h))

pub get_elem?-All {ℓ κ} :
    {A : Type ℓ} (P : A → Type κ) (xs : List A) (n : ℕ) (x : A)
    → All P xs
    → get_elem? xs n ≡ some x
    → P x
get_elem?-All P [] n x a e = cc e
get_elem?-All P (y ∷ xs) zero x a e = let same : y ≡ x = cc e in rw same at (a.0)
get_elem?-All P (y ∷ xs) (suc n) x a e = get_elem?-All P xs n x a.1 e

module _ {A : Type 0} (a : Array A) (key : Bytes) where
  pub entry_at-IsValid :
      IsValid a → (n : ℕ) → n < used a → (e : ℕ × Entry A) × (entry_at a n ≡ some e)
  unfolding used entry_at
  entry_at-IsValid v n h =
      let (ndx, is) = get_elem?-lt a.sorted n (omega (arith, h, v.indexed)) in
      let (e, entry) = get_elem?-lt a.elements ndx (get_elem?-All _ a.sorted n ndx v.names is) in
      ((ndx, e), rw (is, entry, entry_at) refl)

  pub probe_total : IsValid a → (z : ℤ) → (r : Probe) × (probe key a z ≡ some r)
  unfolding probe
  probe_total v (negsuc n) = (right, refl)
  probe_total v (pos n) = elim (Bool-cases (leb (used a) n)) [
    | inl out ↦ (left, rw out refl)
    | inr inside ↦
        let (e, is) = entry_at-IsValid v n (ground (arith, inside)) in
        (compare_at key e, rw (inside, is, probe) refl)
  ]

  -- What the search ends with: an element found in some round, or the position after the last.
  abbrev pub Post {κ} : (ℕ → ℤ → Type κ) → Result → Type κ
  Post Inv (some ndx, z) = (k : ℕ) × Inv k z × (probe key a z ≡ some (here ndx))
  Post Inv (none, z) = Inv 0 z × ((probe key a z ≡ some left) ⊎ (probe key a z ≡ some right))

  module _ {κ} (Inv : ℕ → ℤ → Type κ) where
    last_round :
        (n : ℕ) (z : ℤ) (p : Probe)
        → probe key a z ≡ some p
        → Inv 0 z
        → (r : Result) × (search_loop (suc n) key a 0 z ≡ some r) × Post Inv r
    unfolding search_loop
    last_round n z (here ndx) e i = ((some ndx, z), rw (e, search_loop) refl, (0, i, e))
    last_round n z left e i = ((none, z), rw (e, search_loop, move_left_zero z) refl, (i, inl e))
    last_round n z right e i = ((none, z), rw (e, search_loop, move_right_zero z) refl, (i, inr e))

    next_round :
        (n k : ℕ) (z : ℤ) (p : Probe)
        → probe key a z ≡ some p
        → Inv (suc k) z
        → (probe key a z ≡ some left
            → (r : Result) × (search_loop n key a (half k) (move_left z (2 ^ k)) ≡ some r)
              × Post Inv r)
        → (probe key a z ≡ some right
            → (r : Result) × (search_loop n key a (half k) (move_right z (2 ^ k)) ≡ some r)
              × Post Inv r)
        → (r : Result) × (search_loop (suc n) key a (2 ^ k) z ≡ some r) × Post Inv r
    unfolding search_loop
    next_round n k z (here ndx) e i l r = ((some ndx, z), rw (e, search_loop) refl, (suc k, i, e))
    next_round n k z left e i l r =
        let more : (2 ^ k == 0) ≡ false = ground (arith, pow_pos k) in
        let (res, runs, post) = l e in (res, rw (e, search_loop, more, half_next k) runs, post)
    next_round n k z right e i l r =
        let more : (2 ^ k == 0) ≡ false = ground (arith, pow_pos k) in
        let (res, runs, post) = r e in (res, rw (e, search_loop, more, half_next k) runs, post)

    -- An invariant of the rounds that are left, kept by the two moves, holds in the end.
    pub search_loop-Post :
        IsValid a
        → ((k : ℕ) (z : ℤ)
            → Inv (suc k) z
            → probe key a z ≡ some left
            → Inv k (move_left z (2 ^ k)))
        → ((k : ℕ) (z : ℤ)
            → Inv (suc k) z
            → probe key a z ≡ some right
            → Inv k (move_right z (2 ^ k)))
        → (n k : ℕ) (z : ℤ) → k < n
        → Inv k z
        → (r : Result) × (search_loop n key a (half k) z ≡ some r) × Post Inv r
    search_loop-Post v to_left to_right zero k z h i = absurd (omega (arith, h))
    search_loop-Post v to_left to_right (suc n) zero z h i =
        let (p, e) = probe_total v z in last_round n z p e i
    search_loop-Post v to_left to_right (suc n) (suc k) z h i =
        let (p, e) = probe_total v z in
        next_round n k z p e i
          (λ l.
            search_loop-Post v to_left to_right n k (move_left z (2 ^ k)) (omega (arith, h))
              (to_left k z i l))
          (λ r.
            search_loop-Post v to_left to_right n k (move_right z (2 ^ k)) (omega (arith, h))
              (to_right k z i r))

    pub get_index-Post :
        (v : IsValid a)
        → ((k : ℕ) (z : ℤ)
            → Inv (suc k) z
            → probe key a z ≡ some left
            → Inv k (move_left z (2 ^ k)))
        → ((k : ℕ) (z : ℤ)
            → Inv (suc k) z
            → probe key a z ≡ some right
            → Inv k (move_right z (2 ^ k)))
        → Inv (v.power.0) (pos (half (v.power.0)))
        → (r : Result) × (get_index a key ≡ some r) × Post Inv r
    unfolding get_index
    get_index-Post v to_left to_right i =
        let (k, e, small) = v.power in
        let first : a.next_power_of_2 / 2 ≡ half k = ap (λ (n : ℕ). n / 2) e ∙ half_of k in
        subst (λ i. (r : Result) × (search_loop 65 key a i (pos i) ≡ some r) × Post Inv r)
          (sym first)
          (search_loop-Post v to_left to_right 65 k (pos (half k)) (omega (arith, small)) i)

  pub probe-left : (z : ℤ) → probe key a z ≡ some left → neg_part z ≡ 0
  unfolding probe
  probe-left (pos n) e = refl
  probe-left (negsuc n) e = cc e

  pub probe_negative : (n : ℕ) → probe key a (negsuc n) ≡ some right
  unfolding probe
  probe_negative n = refl

  pub probe_outside : (n : ℕ) → used a ≤ n → probe key a (pos n) ≡ some left
  unfolding probe
  probe_outside n h = let out : leb (used a) n ≡ true = ground arith in rw out refl

  pub probe_right : (z : ℤ) → probe key a z ≡ some right → pos_part z + 1 ≤ used a + neg_part z
  probe_right (negsuc n) e = omega arith
  probe_right (pos n) e = elim (Bool-cases (leb (used a) n)) [
    | inl out ↦ cc (e, probe_outside n (leb→le _ _ out))
    | inr inside ↦ ground (arith, inside)
  ]

  -- The position stays as near to the index as the steps that are left are long.
  abbrev pub InRange : ℕ → ℤ → Type 0
  InRange k z = (neg_part z ≤ 2 ^ k) × (pos_part z + 1 ≤ used a + 2 ^ k)

  -- The search in a valid array ends, reads nothing outside it, and the position that it ends with is
  -- in the index or next to it.
  pub get_index-InRange : IsValid a → (r : Result) × (get_index a key ≡ some r) × Post InRange r
  get_index-InRange v =
      get_index-Post InRange v
        (λ k z i e. omega (
          arith,
          i.0,
          i.1,
          move_left_parts z (2 ^ k),
          parts_one_sided (move_left z (2 ^ k)),
          probe-left z e,
          pow-suc 2 k,
        ))
        (λ k z i e. omega (
          arith,
          i.0,
          i.1,
          move_right_parts z (2 ^ k),
          parts_one_sided (move_right z (2 ^ k)),
          probe_right z e,
          pow-suc 2 k,
        ))
        (omega arith, omega (arith, half-lt (v.power.0)))
