-- ===== src/Array/Find.antt =====
-- Where the search ends for a key that parts the index at its place.
use lighttpd_autothumb.Number.{ℤ, pos, negsuc, pos_part, neg_part}
use lighttpd_autothumb.Array.{Array, here, left, right, Result, used, probe, get_index}
use lighttpd_autothumb.Array.Search.{
  move_left_parts, move_right_parts, half-lt, IsValid, Post, get_index-Post, probe-left,
  probe_outside, probe_negative,
}
use native.Mathlib.Nat.{pow-suc}
use lighttpd_autothumb.Base.{
  ℕ, ◌+◌, ◌^◌, ◌≤◌, ◌<◌, ◌≡◌, inl, inr, none, some, arith, ltb, ◌==◌, ltb→lt, Bool-cases, Bytes,
}

module _ {A : Type 0} (a : Array A) (key : Bytes) where
  -- At `p` the key would stand in the index: all before it are smaller, and all from it on are larger.
  pub record Gap (p : ℕ) : Type 0 where
    pub inside : p ≤ used a
    pub before : (q : ℕ) → q < p → probe key a (pos q) ≡ some right
    pub after : (q : ℕ) → p ≤ q → q < used a → probe key a (pos q) ≡ some left

  -- At `p` the key stands in the index, as the key of the element `ndx`.
  pub record Stands (p ndx : ℕ) : Type 0 where
    pub inside : p < used a
    pub before : (q : ℕ) → q < p → probe key a (pos q) ≡ some right
    pub at : probe key a (pos p) ≡ some (here ndx)
    pub after : (q : ℕ) → p < q → q < used a → probe key a (pos q) ≡ some left

  beyond :
      (p n : ℕ)
      → ((q : ℕ) → p ≤ q → q < used a → probe key a (pos q) ≡ some left)
      → p ≤ n
      → probe key a (pos n) ≡ some left
  beyond p n after h = elim (Bool-cases (ltb n (used a))) [
    | inl t ↦ after n h (ltb→lt _ _ t)
    | inr f ↦ probe_outside a key n (ground (arith, f))
  ]

  Gap-left : (p : ℕ) → Gap p → (z : ℤ) → probe key a z ≡ some left → p ≤ pos_part z
  Gap-left p g (negsuc n) e = absurd (omega (arith, probe-left a key (negsuc n) e))
  Gap-left p g (pos n) e = elim (Bool-cases (ltb n p)) [
    | inl t ↦ cc (e, g.before n (ltb→lt _ _ t))
    | inr f ↦ ground (arith, f)
  ]

  Gap-right :
      (p : ℕ) → Gap p → (z : ℤ) → probe key a z ≡ some right → pos_part z + 1 ≤ p + neg_part z
  Gap-right p g (negsuc n) e = omega arith
  Gap-right p g (pos n) e = elim (Bool-cases (ltb n p)) [
    | inl t ↦ ground (arith, t)
    | inr f ↦ cc (e, beyond p n g.after (ground (arith, f)))
  ]

  NearGap : ℕ → ℕ → ℤ → Type 0
  NearGap p k z = (p + neg_part z ≤ pos_part z + 2 ^ k) × (pos_part z + 1 ≤ p + neg_part z + 2 ^ k)

  Gap-Post :
      (p : ℕ) (r : Result)
      → Gap p
      → Post a key (NearGap p) r
      → get_index a key ≡ some r
      → (z : ℤ) × (get_index a key ≡ some (none, z))
        × (pos_part z ≤ p + neg_part z)
        × (p + neg_part z ≤ pos_part z + 1)
  unfolding NearGap
  Gap-Post p (none, z) g (near, side) runs = (z, runs, omega (arith, near.1), omega (arith, near.0))
  Gap-Post p (some ndx, negsuc n) g (k, near, e) runs = cc (e, probe_negative a key n)
  Gap-Post p (some ndx, pos n) g (k, near, e) runs = elim (Bool-cases (ltb n p)) [
    | inl t ↦ cc (e, g.before n (ltb→lt _ _ t))
    | inr f ↦ cc (e, beyond p n g.after (ground (arith, f)))
  ]

  -- Where the key has a gap, the search says that it is not there and ends at the gap or in front of
  -- it.
  pub get_index-Gap :
      IsValid a
      → (p : ℕ) → Gap p
      → (z : ℤ) × (get_index a key ≡ some (none, z))
        × (pos_part z ≤ p + neg_part z)
        × (p + neg_part z ≤ pos_part z + 1)
  unfolding NearGap used
  get_index-Gap v p g =
      let (r, runs, post) =
        get_index-Post a key (NearGap p) v
          (λ k z i e. omega (
            arith,
            i.0,
            i.1,
            move_left_parts z (2 ^ k),
            Gap-left p g z e,
            probe-left a key z e,
            pow-suc 2 k,
          ))
          (λ k z i e.
            omega (arith, i.0, i.1, move_right_parts z (2 ^ k), Gap-right p g z e, pow-suc 2 k))
          (omega (arith, g.inside, v.bounded, v.power.1), omega (arith, half-lt (v.power.0))) in
      Gap-Post p r g post runs

  Stands-left :
      (p ndx : ℕ) → Stands p ndx → (z : ℤ) → probe key a z ≡ some left → p + 1 ≤ pos_part z
  Stands-left p ndx s (negsuc n) e = absurd (omega (arith, probe-left a key (negsuc n) e))
  Stands-left p ndx s (pos n) e = elim (Bool-cases (ltb n p)) [
    | inl t ↦ cc (e, s.before n (ltb→lt _ _ t))
    | inr f ↦ elim (Bool-cases (n == p)) [
      | inl same ↦ let is : n ≡ p = ground (arith, same) in cc (rw is at e, s.at)
      | inr other ↦ ground (arith, f, other)
    ]
  ]

  Stands-right :
      (p ndx : ℕ)
      → Stands p ndx
      → (z : ℤ) → probe key a z ≡ some right
      → pos_part z + 1 ≤ p + neg_part z
  Stands-right p ndx s (negsuc n) e = omega arith
  Stands-right p ndx s (pos n) e = elim (Bool-cases (ltb n p)) [
    | inl t ↦ ground (arith, t)
    | inr f ↦ elim (Bool-cases (n == p)) [
      | inl same ↦ let is : n ≡ p = ground (arith, same) in cc (rw is at e, s.at)
      | inr other ↦
          cc (e, beyond (p + 1) n (λ q h. s.after q (omega (arith, h))) (ground (arith, f, other)))
    ]
  ]

  NearKey : ℕ → ℕ → ℤ → Type 0
  NearKey p k z = (p + neg_part z < pos_part z + 2 ^ k) × (pos_part z < p + neg_part z + 2 ^ k)

  Stands-Post :
      (p ndx : ℕ) (r : Result)
      → Stands p ndx
      → Post a key (NearKey p) r
      → get_index a key ≡ some r
      → get_index a key ≡ some (some ndx, pos p)
  unfolding NearKey
  Stands-Post p ndx (none, z) s (near, inl e) runs =
      absurd (omega (arith, near.1, Stands-left p ndx s z e, probe-left a key z e))
  Stands-Post p ndx (none, z) s (near, inr e) runs =
      absurd (omega (arith, near.0, Stands-right p ndx s z e))
  Stands-Post p ndx (some m, negsuc n) s (k, near, e) runs = cc (e, probe_negative a key n)
  Stands-Post p ndx (some m, pos n) s (k, near, e) runs = elim (Bool-cases (ltb n p)) [
    | inl t ↦ cc (e, s.before n (ltb→lt _ _ t))
    | inr f ↦ elim (Bool-cases (n == p)) [
      | inl same ↦
          let is : n ≡ p = ground (arith, same) in
          let one : m ≡ ndx = cc (rw is at e, s.at) in rw (is, one) at runs
      | inr other ↦
          cc (e, beyond (p + 1) n (λ q h. s.after q (omega (arith, h))) (ground (arith, f, other)))
    ]
  ]

  -- Where the key stands in the index, the search finds it there.
  pub get_index-Stands :
      IsValid a → (p ndx : ℕ) → Stands p ndx → get_index a key ≡ some (some ndx, pos p)
  unfolding NearKey used
  get_index-Stands v p ndx s =
      let (r, runs, post) =
        get_index-Post a key (NearKey p) v
          (λ k z i e. omega (
            arith,
            i.0,
            i.1,
            move_left_parts z (2 ^ k),
            Stands-left p ndx s z e,
            probe-left a key z e,
            pow-suc 2 k,
          ))
          (λ k z i e.
            omega
              (arith, i.0, i.1, move_right_parts z (2 ^ k), Stands-right p ndx s z e, pow-suc 2 k))
          (omega (arith, s.inside, v.bounded, v.power.1), omega (arith, half-lt (v.power.0))) in
      Stands-Post p ndx r s post runs
