-- ===== src/Tests/Arrays.antt =====
-- The array, on concrete inputs.

use lighttpd_autothumb.Caseless.{caseless_compare, compare_chars, signed}
use lighttpd_autothumb.Array.{
  Array, array_init, used, entry_at, compare_at, probe, get_index, get_element, int_max, insert_key,
  insert_new, insert_position, grown, place, search_loop, move_left, move_right, item_at,
}
use lighttpd_autothumb.Array.Search.{IsValid as IsValidArray}
use lighttpd_autothumb.Array.Find.{Gap, Stands}
use lighttpd_autothumb.Array.Insert.{insert_key-IsValid}
use lighttpd_autothumb.Array.Lookup.{get_element-insert_key}
use lighttpd_autothumb.Base.{
  ℕ, ◌<◌, ◌≡◌, refl, Bool, true, Option, none, some, List, [], ◌∷◌, ◌++◌, arith, take, drop, Bytes,
  codes,
}
use Prim.Native.Nat.{Ordering}

abbrev no_headers : Array ℕ
no_headers = array_init

nil-IsValid : IsValidArray no_headers
unfolding array_init
nil-IsValid = record {
  indexed = refl;
  names = tt;
  power = (0, refl, omega arith);
  bounded = omega arith;
}

nil-Gap : Gap no_headers (codes "Host" ++ 0 ∷ []) 0
unfolding array_init used
nil-Gap = record {
  inside = omega arith;
  before = λ q h. absurd (omega (arith, h));
  after = λ q h k. absurd (omega (arith, k));
}

nil-room : used no_headers < int_max
unfolding array_init used
nil-room = omega arith

insert_key-IsValid_example :
    (a' : Array ℕ) × (done : Bool) × (insert_key
        (λ x y. y)
        (λ x y. true)
        no_headers
        (codes "Host")
        7
      ≡ some (a', done))
    × IsValidArray a'
insert_key-IsValid_example =
    insert_key-IsValid (λ x y. y) (λ x y. true) no_headers (codes "Host") 7 nil-IsValid
      (λ x y. refl)

get_element-insert_key_example :
    (a' : Array ℕ) × (insert_key (λ x y. y) (λ x y. true) no_headers (codes "Host") 7
      ≡ some (a', true))
    × IsValidArray a'
    × (a'.elements ≡ no_headers.elements ++ record { key = codes "Host"; item = 7 } ∷ [])
    × (a'.sorted ≡ take 0 no_headers.sorted ++ used no_headers ∷ drop 0 no_headers.sorted)
    × (get_element a' (codes "Host") ≡ some (some 7))
get_element-insert_key_example =
    get_element-insert_key (λ x y. y) (λ x y. true) no_headers (codes "Host") 7 0 nil-IsValid
      nil-Gap nil-room

abbrev one_header : Array ℕ
one_header = record {
  elements = record { key = codes "Host"; item = 7 } ∷ [];
  sorted = 0 ∷ [];
  size = 16;
  next_power_of_2 = 1;
  unique_ndx = 0;
}

one-IsValid : IsValidArray one_header
one-IsValid = record {
  indexed = refl;
  names = (omega arith, tt);
  power = (0, refl, omega arith);
  bounded = omega arith;
}

one-Stands : Stands one_header (codes "HOST" ++ 0 ∷ []) 0 0
unfolding used probe entry_at compare_at caseless_compare compare_chars signed
one-Stands = record {
  inside = omega arith;
  before = λ q h. absurd (omega (arith, h));
  at = refl;
  after = λ q h k. absurd (omega (arith, h, k));
}

-- The comparison goes round in a circle where `_` meets letters of both cases.
circle_runs :
    (caseless_compare (codes "a") (codes "B") ≡ Ordering.lt)
    × (caseless_compare (codes "B") (codes "_") ≡ Ordering.lt)
    × (caseless_compare (codes "_") (codes "a") ≡ Ordering.lt)
unfolding caseless_compare compare_chars signed
circle_runs = (refl, refl, refl)

abbrev insert_keys : List Bytes → Array ℕ → Option (Array ℕ)
insert_keys [] a = some a
insert_keys (key ∷ keys) a = elim (insert_key (λ x y. y) (λ x y. true) a key 7) [
  | none ↦ none
  | some (a', done) ↦ insert_keys keys a'
]

abbrev three_headers : Array ℕ
three_headers = record {
  elements =
      record { key = codes "a"; item = 7 }
      ∷ record { key = codes "B"; item = 7 }
      ∷ record { key = codes "_"; item = 7 }
      ∷ [];
  sorted = 0 ∷ 1 ∷ 2 ∷ [];
  size = 16;
  next_power_of_2 = 4;
  unique_ndx = 0;
}

insert_keys_runs :
    insert_keys (codes "a" ∷ codes "B" ∷ codes "_" ∷ []) no_headers ≡ some three_headers
unfolding array_init insert_key insert_new insert_position grown place get_index search_loop used
    probe entry_at compare_at caseless_compare compare_chars signed move_left move_right
insert_keys_runs = refl

lost_runs : get_element three_headers (codes "a") ≡ some none
unfolding get_element item_at get_index search_loop used probe entry_at compare_at caseless_compare
    compare_chars signed move_left move_right
lost_runs = refl
