-- ===== src/Array/Lookup.antt =====
-- A key that is inserted where the index has a gap for it is found by the next search.
use lighttpd_autothumb.Number.{ℤ, pos, negsuc, pos_part, neg_part}
use lighttpd_autothumb.Caseless.{caseless_compare, compare_chars}
use lighttpd_autothumb.Array.{
  Entry, Array, here, left, right, used, entry_at, compare_at, probe, get_element, item_at,
  insert_position, place, int_max, insert_new, insert_key,
}
use lighttpd_autothumb.Array.Search.{get_elem?-lt, get_elem?-All, IsValid, entry_at-IsValid}
use lighttpd_autothumb.Array.Find.{Gap, Stands, get_index-Gap, get_index-Stands}
use lighttpd_autothumb.Array.Insert.{place-IsValid}
use Prim.Native.Nat.{Ordering}
use lighttpd_autothumb.Base.{
  ℕ, zero, suc, ◌+◌, ◌≤◌, ◌<◌, ◌≡◌, refl, sym, ap, ◌∙◌, inl, inr, Bool, true, false, some, List, [],
  ◌∷◌, ◌++◌, arith, ltb, leb, ◌==◌, Bool-cases, length, get_elem?, length-append, take, drop, Bytes,
}

compare_chars_self : (c : ℕ) → compare_chars c c ≡ Ordering.eq
unfolding compare_chars
compare_chars_self c = ground arith

-- The comparison is reflexive.
pub caseless_compare_self : (s : Bytes) → caseless_compare s s ≡ Ordering.eq
unfolding caseless_compare
caseless_compare_self [] = refl
caseless_compare_self (c ∷ s) =
    rw (compare_chars_self c, caseless_compare) (caseless_compare_self s)

module _ {ℓ} {B : Type ℓ} where
  get_elem?-front :
      (xs ys : List B) (n : ℕ) → n < length xs → get_elem? (xs ++ ys) n ≡ get_elem? xs n
  get_elem?-front [] ys n h = absurd (omega (arith, h))
  get_elem?-front (x ∷ xs) ys zero h = refl
  get_elem?-front (x ∷ xs) ys (suc n) h = get_elem?-front xs ys n (omega (arith, h))

  get_elem?-last : (xs : List B) (x : B) → get_elem? (xs ++ x ∷ []) (length xs) ≡ some x
  get_elem?-last [] x = refl
  get_elem?-last (y ∷ xs) x = get_elem?-last xs x

  put_before :
      (n : ℕ) (x : B) (xs : List B) (q : ℕ)
      → q < n
      → n ≤ length xs
      → get_elem? (take n xs ++ x ∷ drop n xs) q ≡ get_elem? xs q
  put_before zero x xs q h k = absurd (omega (arith, h))
  put_before (suc n) x [] q h k = absurd (omega (arith, k))
  put_before (suc n) x (y ∷ xs) zero h k = refl
  put_before (suc n) x (y ∷ xs) (suc q) h k =
      put_before n x xs q (omega (arith, h)) (omega (arith, k))

  put_at :
      (n : ℕ) (x : B) (xs : List B)
      → n ≤ length xs
      → get_elem? (take n xs ++ x ∷ drop n xs) n ≡ some x
  put_at zero x xs k = refl
  put_at (suc n) x [] k = absurd (omega (arith, k))
  put_at (suc n) x (y ∷ xs) k = put_at n x xs (omega (arith, k))

  put_after :
      (n : ℕ) (x : B) (xs : List B) (q : ℕ)
      → n ≤ q
      → n ≤ length xs
      → get_elem? (take n xs ++ x ∷ drop n xs) (suc q) ≡ get_elem? xs q
  put_after zero x xs q h k = refl
  put_after (suc n) x [] q h k = absurd (omega (arith, k))
  put_after (suc n) x (y ∷ xs) zero h k = absurd (omega (arith, h))
  put_after (suc n) x (y ∷ xs) (suc q) h k =
      put_after n x xs q (omega (arith, h)) (omega (arith, k))

module _ {A : Type 0} where
  used-place : (a : Array A) (e : Entry A) (p : ℕ) → used (place a e p) ≡ used a + 1
  unfolding used place
  used-place a e p = length-append a.elements (e ∷ []) ∙ omega arith

  -- The entries of the old index, where they are now.
  entry_moved :
      (a : Array A) (e : Entry A) (p : ℕ) (v : IsValid a) (q r : ℕ)
      → q < used a
      → get_elem? (place a e p).sorted r ≡ get_elem? a.sorted q
      → entry_at (place a e p) r ≡ entry_at a q
  unfolding entry_at place used
  entry_moved a e p v q r h same =
      let (m, is) = get_elem?-lt a.sorted q (omega (arith, h, v.indexed)) in
      let inside : m < length a.elements = get_elem?-All _ a.sorted q m v.names is in
      rw (same ∙ is, entry_at, get_elem?-front a.elements (e ∷ []) m inside, is) refl

  probe_same :
      (a b : Array A) (key : Bytes) (q r : ℕ)
      → q < used a
      → r < used b
      → entry_at b r ≡ entry_at a q
      → probe key b (pos r) ≡ probe key a (pos q)
  unfolding probe
  probe_same a b key q r h k same =
      let one : leb (used a) q ≡ false = ground (arith, h) in
      let two : leb (used b) r ≡ false = ground (arith, k) in rw (one, two, same, probe) refl

  probe_inside :
      (a : Array A) (key : Bytes) (q : ℕ) (e : ℕ × Entry A)
      → q < used a
      → entry_at a q ≡ some e
      → probe key a (pos q) ≡ some (compare_at key e)
  unfolding probe
  probe_inside a key q e h is =
      let one : leb (used a) q ≡ false = ground (arith, h) in rw (one, is, probe) refl

  compare_at_self :
      (key : Bytes) (m : ℕ) (item : A)
      → compare_at (key ++ 0 ∷ []) (m, record { key = key; item = item }) ≡ here m
  unfolding compare_at
  compare_at_self key m item = rw (caseless_compare_self (key ++ 0 ∷ []), compare_at) refl

  module _ (a : Array A) (key : Bytes) (item : A) (p : ℕ) (v : IsValid a)
      (g : Gap a (key ++ 0 ∷ []) p) where
    abbrev added : Entry A
    added = record { key = key; item = item }

    abbrev grown_array : Array A
    grown_array = place a added p

    gap_inside : p ≤ length a.sorted
    unfolding used
    gap_inside = omega (arith, g.inside, v.indexed)

    added_before : (q : ℕ) → q < p → probe (key ++ 0 ∷ []) grown_array (pos q) ≡ some right
    added_before q h =
        probe_same a grown_array (key ++ 0 ∷ []) q q (omega (arith, h, g.inside))
          (omega (arith, h, g.inside, used-place a added p))
          (entry_moved a added p v q q (omega (arith, h, g.inside))
            (unfold place in put_before p (used a) a.sorted q h gap_inside))
        ∙ g.before q h

    added_after :
        (q : ℕ)
        → p < q
        → q < used grown_array
        → probe (key ++ 0 ∷ []) grown_array (pos q) ≡ some left
    added_after zero h k = absurd (omega (arith, h))
    added_after (suc q) h k =
        let less : q < used a = omega (arith, k, used-place a added p) in
        probe_same a grown_array (key ++ 0 ∷ []) q (suc q) less k (
          entry_moved a added p v q (suc q) less
            (unfold place in put_after p (used a) a.sorted q (omega (arith, h)) gap_inside))
        ∙ g.after q (omega (arith, h)) less

    added_entry : entry_at grown_array p ≡ some (used a, added)
    unfolding entry_at place used
    added_entry =
        rw (entry_at, put_at p (used a) a.sorted gap_inside, get_elem?-last a.elements added) refl

    added_at : probe (key ++ 0 ∷ []) grown_array (pos p) ≡ some (here (used a))
    unfolding probe
    added_at =
        let inside : leb (used grown_array) p ≡ false =
          ground (arith, g.inside, used-place a added p) in
        rw (inside, added_entry, probe) (ap some (compare_at_self key (used a) item))

    added-Stands : Stands grown_array (key ++ 0 ∷ []) p (used a)
    added-Stands = record {
      inside = omega (arith, g.inside, used-place a added p);
      before = added_before;
      at = added_at;
      after = added_after;
    }

    got_added : IsValid grown_array → get_element grown_array key ≡ some (some item)
    unfolding get_element item_at place used
    got_added valid =
        let found = get_index-Stands grown_array (key ++ 0 ∷ []) valid p (used a) added-Stands in
        rw (found, get_element, item_at, get_elem?-last a.elements added) refl

    -- The search ends at the gap or in front of it, and the comparison there says which.
    insert_position-Gap :
        (z : ℤ)
        → pos_part z ≤ p + neg_part z
        → p + neg_part z ≤ pos_part z + 1
        → insert_position a (key ++ 0 ∷ []) z ≡ some p
    unfolding insert_position
    insert_position-Gap (negsuc zero) h k = ap some (omega (arith, k))
    insert_position-Gap (negsuc (suc n)) h k = absurd (omega (arith, k))
    insert_position-Gap (pos n) h k = elim (Bool-cases (n == used a)) [
      | inl t ↦ rw t (ap some (ground (arith, t, h, g.inside)))
      | inr f ↦
          let less : n < used a = ground (arith, f, h, g.inside) in
          let (en, is) = entry_at-IsValid a (key ++ 0 ∷ []) v n less in
          let probed = probe_inside a (key ++ 0 ∷ []) n en less is in
          elim (Bool-cases (n == p)) [
            | inl t ↦
                let same : n ≡ p = ground (arith, t) in
                let on : some (compare_at (key ++ 0 ∷ []) en) ≡ some left =
                  sym probed ∙ g.after n (omega (arith, same)) less in
                let on' : compare_at (key ++ 0 ∷ []) en ≡ left = cc on in
                rw (f, is, insert_position, on') (ap some same)
            | inr u ↦
                let next : n + 1 ≡ p = ground (arith, u, h, k) in
                let on : some (compare_at (key ++ 0 ∷ []) en) ≡ some right =
                  sym probed ∙ g.before n (omega (arith, next)) in
                let on' : compare_at (key ++ 0 ∷ []) en ≡ right = cc on in
                rw (f, is, insert_position, on') (ap some next)
          ]
    ]

  -- A new key for which the index has a gap is put into the gap and behind the elements, the array
  -- stays valid, and getting the key gives the item. The array is not full.
  pub get_element-insert_key :
      (insert_dup : A → A → A) (same_type : A → A → Bool) (a : Array A) (key : Bytes) (item : A)
      (p : ℕ)
      → IsValid a
      → Gap a (key ++ 0 ∷ []) p
      → used a < int_max
      → (a' : Array A) × (insert_key insert_dup same_type a key item ≡ some (a', true))
        × IsValid a'
        × (a'.elements ≡ a.elements ++ record { key = key; item = item } ∷ [])
        × (a'.sorted ≡ take p a.sorted ++ used a ∷ drop p a.sorted)
        × (get_element a' key ≡ some (some item))
  unfolding insert_key insert_new
  get_element-insert_key insert_dup same_type a key item p v g room =
      let (z, runs, above, below) = get_index-Gap a (key ++ 0 ∷ []) v p g in
      let fits : ltb int_max (used a + 1) ≡ false = ground (arith, room) in
      let put = insert_position-Gap a key item p v g z above below in
      let valid = place-IsValid a (added a key item p v g) p v (omega (arith, room)) g.inside in
      (
        grown_array a key item p v g,
        rw (runs, insert_key, fits, put, insert_new) refl,
        valid,
        (unfold place in refl),
        (unfold place in refl),
        got_added a key item p v g valid,
      )
