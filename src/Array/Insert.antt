-- ===== src/Array/Insert.antt =====
-- Inserting: it stays inside the index whatever the comparison says, and it puts a new key where the
-- search expects it, so that the next search finds it.
use lighttpd_autothumb.Number.{ℤ, pos, negsuc}
use lighttpd_autothumb.Array.{
  Entry, Array, Probe, here, left, right, Result, used, entry_at, compare_at, probe, get_index,
  item_at, set_item, insert_position, place, int_max, insert_new, insert_key,
}
use lighttpd_autothumb.Array.Search.{
  pow_pos, get_elem?-lt, get_elem?-All, Post, probe_outside, probe_negative, IsValid, InRange,
  entry_at-IsValid, get_index-InRange,
}
use native.Mathlib.Nat.{pow-suc}
use lighttpd_autothumb.Base.{
  ℕ, zero, suc, ◌+◌, ◌*◌, ◌^◌, ◌≤◌, ◌<◌, ◌≡◌, refl, sym, ◌∙◌, inl, inr, Bool, true, false, none,
  some, List, [], ◌∷◌, ◌++◌, arith, ltb, leb, ◌==◌, if◌then◌else◌, ltb→lt, leb→le, Bool-cases,
  Option-cases, length, get_elem?, length-append, length-set, take, drop, Bytes, All, All-both,
  All-map,
}

pow_mono : (k : ℕ) → 31 ≤ k → 2 ^ 31 ≤ 2 ^ k
pow_mono zero h = absurd (omega (arith, h))
pow_mono (suc k) h = elim (Bool-cases (k == 30)) [
  | inl t ↦ let e : k ≡ 30 = ground (arith, t) in rw e (omega arith)
  | inr f ↦ omega (arith, pow_mono k (ground (arith, h, f)), pow-suc 2 k)
]

All-take {ℓ κ} : {B : Type ℓ} (P : B → Type κ) (n : ℕ) (xs : List B) → All P xs → All P (take n xs)
All-take P zero xs a = tt
All-take P (suc n) [] a = tt
All-take P (suc n) (x ∷ xs) a = (a.0, All-take P n xs a.1)

All-drop {ℓ κ} : {B : Type ℓ} (P : B → Type κ) (n : ℕ) (xs : List B) → All P xs → All P (drop n xs)
All-drop P zero xs a = a
All-drop P (suc n) [] a = tt
All-drop P (suc n) (x ∷ xs) a = All-drop P n xs a.1

length-put {ℓ} :
    {B : Type ℓ} (n : ℕ) (x : B) (xs : List B)
    → n ≤ length xs
    → length (take n xs ++ x ∷ drop n xs) ≡ length xs + 1
length-put zero x xs h = omega arith
length-put (suc n) x [] h = absurd (omega (arith, h))
length-put (suc n) x (y ∷ xs) h = omega (arith, length-put n x xs (omega (arith, h)))

module _ {A : Type 0} where
  doubled :
      (a : Array A)
      → IsValid a
      → used a ≤ int_max
      → (k : ℕ) × ((if a.next_power_of_2 == used a
            then a.next_power_of_2 * 2
            else a.next_power_of_2)
          ≡ 2 ^ k)
        × (k < 64)
  unfolding used
  doubled a v h =
      let (k, e, small) = v.power in
      elim (Bool-cases (a.next_power_of_2 == used a)) [
        | inl t ↦
            let below : k < 31 = elim (Bool-cases (ltb k 31)) [
              | inl less ↦ ltb→lt _ _ less
              | inr more ↦ absurd (ground (arith, t, h, e, pow_mono k (ground (arith, more))))
            ] in
            (suc k, rw t (omega (arith, e, pow-suc 2 k)), omega (arith, below))
        | inr f ↦ (k, rw f e, small)
      ]

  place_bounded :
      (a : Array A) (e : Entry A)
      → IsValid a
      → length (a.elements ++ e ∷ [])
        ≤ (if a.next_power_of_2 == used a then a.next_power_of_2 * 2 else a.next_power_of_2)
  unfolding used
  place_bounded a e v =
      let len = length-append a.elements (e ∷ []) in
      elim (Bool-cases (a.next_power_of_2 == used a)) [
        | inl t ↦ rw t (omega (arith, len, v.bounded, v.power.1, pow_pos (v.power.0)))
        | inr f ↦ rw f (ground (arith, f, len, v.bounded))
      ]

  pub place-IsValid :
      (a : Array A) (e : Entry A) (n : ℕ)
      → IsValid a
      → used a ≤ int_max
      → n ≤ used a
      → IsValid (place a e n)
  unfolding place used
  place-IsValid a e n v fits h = record {
    indexed =
        length-put n (used a) a.sorted (omega (arith, h, v.indexed))
        ∙ omega (arith, v.indexed, length-append a.elements (e ∷ []));
    names =
        let wider : All (λ ndx. ndx < length (a.elements ++ e ∷ [])) a.sorted =
          All-map _ _ a.sorted (λ ndx less. omega (arith, less, length-append a.elements (e ∷ [])))
            v.names in
        All-both _ (take n a.sorted) _ (All-take _ n a.sorted wider)
          (omega (arith, length-append a.elements (e ∷ [])), All-drop _ n a.sorted wider);
    power = doubled a v fits;
    bounded = place_bounded a e v;
  }

  insert_position-le :
      (a : Array A) (key : Bytes) (z : ℤ)
      → IsValid a
      → InRange a key 0 z
      → (n : ℕ) × (insert_position a key z ≡ some n) × (n ≤ used a)
  unfolding insert_position
  insert_position-le a key (negsuc zero) v r = (0, refl, omega arith)
  insert_position-le a key (negsuc (suc n)) v r = absurd (omega (arith, r.0))
  insert_position-le a key (pos n) v r = elim (Bool-cases (n == used a)) [
    | inl t ↦ (n, rw t refl, ground (arith, t))
    | inr f ↦
        let less : n < used a = ground (arith, f, r.1) in
        let (e, is) = entry_at-IsValid a key v n less in
        let (m, moved, near) = after_compare n (compare_at key e) in
        (m, rw (f, is, insert_position) moved, omega (arith, near, less))
  ]
    where
      after_compare :
          (n : ℕ) (p : Probe)
          → (m : ℕ) × (elim p [ right ↦ some (n + 1) | _ ↦ some n ] ≡ some m) × (m ≤ n + 1)
      after_compare n (here ndx) = (n, refl, omega arith)
      after_compare n left = (n, refl, omega arith)
      after_compare n right = (n + 1, refl, omega arith)

  compare_at-here :
      (key : Bytes) (m : ℕ) (e : Entry A) (ndx : ℕ) → compare_at key (m, e) ≡ here ndx → m ≡ ndx
  unfolding compare_at
  compare_at-here key m e ndx h = ground (arith, h)

  -- What is found is there.
  found_entry :
      (a : Array A) (key : Bytes) (z : ℤ) (ndx : ℕ)
      → IsValid a
      → probe key a z ≡ some (here ndx)
      → (e : Entry A) × (get_elem? a.elements ndx ≡ some e)
  unfolding probe entry_at used
  found_entry a key (negsuc n) ndx v h = absurd (cc (h, probe_negative a key n))
  found_entry a key (pos n) ndx v h = elim (Bool-cases (leb (used a) n)) [
    | inl out ↦ absurd (cc (h, probe_outside a key n (leb→le _ _ out)))
    | inr inside ↦
        let (m, is) = get_elem?-lt a.sorted n (ground (arith, inside, v.indexed)) in
        let (e, entry) = get_elem?-lt a.elements m (get_elem?-All _ a.sorted n m v.names is) in
        let met : some (compare_at key (m, e)) ≡ some (here ndx) =
          rw (inside, is, entry, entry_at) at h in
        (e, rw (compare_at-here key m e ndx (cc met)) at entry)
  ]

  set_item-IsValid : (a : Array A) (ndx : ℕ) (item : A) → IsValid a → IsValid (set_item a ndx item)
  unfolding set_item
  set_item-IsValid a ndx item v = elim (Option-cases (get_elem? a.elements ndx)) [
    | inl n ↦ rw (n, set_item) v
    | inr (e, is) ↦
        let len = length-set a.elements ndx (record e { item = item }) in
        rw (is, set_item)
          (record {
            indexed = v.indexed ∙ sym len;
            names = All-map _ _ a.sorted (λ m less. omega (arith, less, len)) v.names;
            power = v.power;
            bounded = omega (arith, v.bounded, len);
          })
  ]

  module _ (insert_dup : A → A → A) (same_type : A → A → Bool) where
    insert_new-IsValid :
        (a : Array A) (e : Entry A) (z : ℤ)
        → IsValid a
        → InRange a (e.key ++ 0 ∷ []) 0 z
        → (a' : Array A) × (ok : Bool) × (insert_new a e z ≡ some (a', ok)) × IsValid a'
    unfolding insert_new
    insert_new-IsValid a e z v r = elim (Bool-cases (ltb int_max (used a + 1))) [
      | inl t ↦ (a, false, rw t refl, v)
      | inr f ↦
          let (n, is, le) = insert_position-le a (e.key ++ 0 ∷ []) z v r in
          (
            place a e n,
            true,
            rw (f, is, insert_new) refl,
            place-IsValid a e n v (ground (arith, f)) le,
          )
    ]

    after_search :
        (a : Array A) (key : Bytes) (item : A) (r : Result)
        → IsValid a
        → ((x y : A) → same_type x y ≡ true)
        → get_index a (key ++ 0 ∷ []) ≡ some r
        → Post a (key ++ 0 ∷ []) (InRange a (key ++ 0 ∷ [])) r
        → (a' : Array A) × (ok : Bool) × (insert_key insert_dup same_type a key item
            ≡ some (a', ok))
          × IsValid a'
    unfolding insert_key item_at set_item
    after_search a key item (none, z) v same runs post =
        let (a', ok, is, valid) =
          insert_new-IsValid a (record { key = key; item = item }) z v post.0 in
        (a', ok, rw (runs, insert_key) is, valid)
    after_search a key item (some ndx, z) v same runs (k, near, found) =
        let (e, is) = found_entry a (key ++ 0 ∷ []) z ndx v found in
        (
          set_item a ndx (insert_dup e.item item),
          true,
          rw (runs, insert_key, is, item_at, same e.item item) refl,
          set_item-IsValid a ndx (insert_dup e.item item) v,
        )

    -- Inserting into a valid array ends and gives a valid array, whatever its keys and the new key are:
    -- no position outside the index is read or written. The elements are of one type.
    pub insert_key-IsValid :
        (a : Array A) (key : Bytes) (item : A)
        → IsValid a
        → ((x y : A) → same_type x y ≡ true)
        → (a' : Array A) × (ok : Bool) × (insert_key insert_dup same_type a key item
            ≡ some (a', ok))
          × IsValid a'
    insert_key-IsValid a key item v same =
        let (r, runs, post) = get_index-InRange a (key ++ 0 ∷ []) v in
        after_search a key item r v same runs post
