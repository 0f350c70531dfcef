-- ===== src/Array.antt =====
-- The array of src/array.c and src/array.h: elements in the order of their insertion, with an index
-- that is sorted by key and searched in halving steps.
-- `elements` is what `data` holds below `used`, and `sorted` what the index holds there. A key is
-- compared with its closing zero. Reading an index or an element that is not there is `none`. What
-- differs from one type of element to another is `insert_dup` and `same_type`.
pub mod Search
pub mod Find
pub mod Insert
pub mod Lookup
use lighttpd_autothumb.Caseless.{caseless_compare}
use lighttpd_autothumb.Number.{ℤ, pos, negsuc, to_digits}
use Prim.Native.Nat.{Ordering}
use lighttpd_autothumb.Base.{
  ℕ, zero, suc, ◌+◌, ◌-◌, ◌*◌, ◌/◌, ◌^◌, Bool, true, false, Option, none, some, List, [], ◌∷◌, ◌++◌,
  ltb, leb, ◌==◌, if◌then◌else◌, length, get_elem?, set, take, drop, Bytes,
}

pub record Entry (A : Type 0) : Type 0 where
  pub key : Bytes
  pub item : A

pub record Array (A : Type 0) : Type 0 where
  pub elements : List (Entry A)
  pub sorted : List ℕ
  pub size : ℕ
  pub next_power_of_2 : ℕ
  pub unique_ndx : ℕ

unfoldable pub array_init : {A : Type 0} → Array A
array_init = record { elements = []; sorted = []; size = 0; next_power_of_2 = 1; unique_ndx = 0 }

-- `pos += i` and `pos -= i`.
unfoldable pub move_right : ℤ → ℕ → ℤ
move_right (pos n) i = pos (n + i)
move_right (negsuc n) i = if ltb n i then pos (i - n - 1) else negsuc (n - i)

unfoldable pub move_left : ℤ → ℕ → ℤ
move_left (pos n) i = if leb i n then pos (n - i) else negsuc (i - n - 1)
move_left (negsuc n) i = negsuc (n + i)

-- What the body of the search does: it is found, or it goes on to the left or to the right.
pub data Probe : Type 0 where
  here : ℕ → Probe
  left right : Probe

pub data Element (A : Type 0) : Type 0 where
  string_key : Bytes → A → Element A
  index_key : A → Element A

-- The search gives the element's index, if it is found, and the last position.
abbrev pub Result : Type 0
Result = Option ℕ × ℤ

abbrev pub int_max : ℕ
int_max = 2 ^ 31 - 1

module _ {A : Type 0} where
  unfoldable pub used : Array A → ℕ
  used a = length a.elements

  -- `a->data[a->sorted[pos]]`.
  unfoldable pub entry_at : Array A → ℕ → Option (ℕ × Entry A)
  entry_at a n = elim (get_elem? a.sorted n) [
    | none ↦ none
    | some ndx ↦ elim (get_elem? a.elements ndx) [ none ↦ none | some e ↦ some (ndx, e) ]
  ]

  unfoldable pub compare_at : Bytes → ℕ × Entry A → Probe
  compare_at key (ndx, e) = elim (caseless_compare key (e.key ++ 0 ∷ [])) [
    | Ordering.eq ↦ here ndx
    | Ordering.lt ↦ left
    | Ordering.gt ↦ right
  ]

  unfoldable pub probe : Bytes → Array A → ℤ → Option Probe
  probe key a (negsuc n) = some right
  probe key a (pos n) =
      if leb (used a) n
      then some left
      else elim (entry_at a n) [ none ↦ none | some e ↦ some (compare_at key e) ]

  -- `for (i = pos = a->next_power_of_2 / 2; ; i >>= 1)` with the rounds left.
  unfoldable pub search_loop : ℕ → Bytes → Array A → ℕ → ℤ → Option Result
  search_loop zero key a i p = none
  search_loop (suc rounds) key a i p = elim (probe key a p) [
    | none ↦ none
    | some (here ndx) ↦ some (some ndx, p)
    | some left ↦
        let rest = search_loop rounds key a (i / 2) (move_left p i) in
        if i == 0 then some (none, move_left p i) else rest
    | some right ↦
        let rest = search_loop rounds key a (i / 2) (move_right p i) in
        if i == 0 then some (none, move_right p i) else rest
  ]

  -- `array_get_index`; 64 bits are halved to nothing in 64 rounds.
  unfoldable pub get_index : Array A → Bytes → Option Result
  get_index a key = let i = a.next_power_of_2 / 2 in search_loop 65 key a i (pos i)

  unfoldable pub item_at : Array A → Option ℕ → Option A
  item_at a none = none
  item_at a (some ndx) = elim (get_elem? a.elements ndx) [ none ↦ none | some e ↦ some e.item ]

  -- `array_get_element`; the outer `none` is a read outside the array.
  unfoldable pub get_element : Array A → Bytes → Option (Option A)
  get_element a key = elim (get_index a (key ++ 0 ∷ [])) [
    | none ↦ none
    | some (found, p) ↦ some (item_at a found)
  ]

  unfoldable pub set_item : Array A → ℕ → A → Array A
  set_item a ndx item = elim (get_elem? a.elements ndx) [
    | none ↦ a
    | some e ↦ record a { elements = set a.elements ndx (record e { item = item }) }
  ]

  -- `pos` after `if (pos != ndx && …) pos++`; the new element is compared with the one at `pos`. A
  -- position outside the index would be read or written there.
  unfoldable pub insert_position : Array A → Bytes → ℤ → Option ℕ
  insert_position a key (negsuc zero) = some 0
  insert_position a key (negsuc (suc n)) = none
  insert_position a key (pos n) = if n == used a then some n else elim (entry_at a n) [
    | none ↦ none
    | some e ↦ elim (compare_at key e) [ right ↦ some (n + 1) | _ ↦ some n ]
  ]

  -- Room for sixteen more where the array is full.
  unfoldable pub grown : Array A → ℕ
  grown a = if a.size == used a then a.size + 16 else a.size

  -- The elements from `pos` on move one step to the right.
  unfoldable pub place : Array A → Entry A → ℕ → Array A
  place a e n = record a {
    elements = a.elements ++ e ∷ [];
    sorted = take n a.sorted ++ used a ∷ drop n a.sorted;
    size = grown a;
    next_power_of_2 =
        if a.next_power_of_2 == used a then a.next_power_of_2 * 2 else a.next_power_of_2;
  }

  unfoldable pub insert_new : Array A → Entry A → ℤ → Option (Array A × Bool)
  insert_new a e p =
      if ltb int_max (used a + 1)
      then some (a, false)
      else elim (insert_position a (e.key ++ 0 ∷ []) p) [
        | none ↦ none
        | some n ↦ some (place a e n, true)
      ]

  -- `array_insert_unique` for a key that is given: the new array, and whether 0 is returned. An
  -- element of another type under the key ends the process, which is `none` as well.
  unfoldable pub insert_key :
      (A → A → A) → (A → A → Bool) → Array A → Bytes → A → Option (Array A × Bool)
  insert_key insert_dup same_type a key item = elim (get_index a (key ++ 0 ∷ [])) [
    | none ↦ none
    | some (none, p) ↦ insert_new a (record { key = key; item = item }) p
    | some (some ndx, p) ↦ elim (item_at a (some ndx)) [
      | none ↦ none
      | some old ↦
          if same_type old item then some (set_item a ndx (insert_dup old item), true) else none
    ]
  ]

  -- The unique index is the key of an element without one.
  unfoldable pub insert_unique :
      (A → A → A) → (A → A → Bool) → Array A → Element A → Option (Array A × Bool)
  insert_unique insert_dup same_type a (string_key key item) =
      insert_key insert_dup same_type a key item
  insert_unique insert_dup same_type a (index_key item) =
      insert_key insert_dup same_type (record a { unique_ndx = a.unique_ndx + 1 })
        (to_digits a.unique_ndx) item

  -- `array_replace`: the old element, where there was one.
  unfoldable pub replace :
      (A → A → A) → (A → A → Bool) → Array A → Bytes → A → Option (Array A × Option A)
  replace insert_dup same_type a key item = elim (get_index a (key ++ 0 ∷ [])) [
    | none ↦ none
    | some (some ndx, p) ↦
        let e : Entry A = record { key = key; item = item } in
        some (record a { elements = set a.elements ndx e }, item_at a (some ndx))
    | some (none, p) ↦ elim (insert_key insert_dup same_type a key item) [
      | none ↦ none
      | some (a', ok) ↦ some (a', none)
    ]
  ]

-- `array_reset`, and the buffers of the index stay.
unfoldable pub array_reset : {A : Type 0} → Array A → Array A
array_reset a = record a { elements = []; sorted = [] }
