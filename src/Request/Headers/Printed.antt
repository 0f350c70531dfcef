-- ===== src/Request/Headers/Printed.antt =====
-- Header lines as they are written, and what the loop does with them.
use lighttpd_autothumb.Request.{Conf, Con, Result, ok, stop, fault, ◌>>=◌}
use lighttpd_autothumb.Request.Split.{is_ws}
use lighttpd_autothumb.Request.Field.{take_field}
use lighttpd_autothumb.Request.Headers.{
  plain, key_byte, strip_trailing, end_line, Part, in_key, in_value, go, key_move, value_move, move,
  close_line, header_loop,
}
use lighttpd_autothumb.Base.{
  ℕ, ◌≤◌, ◌≡◌, refl, sym, ap, ◌∙◌, ◌≢◌, ◌⊎◌, true, false, ◌&&◌, Option, some, List, [], ◌∷◌, ◌++◌,
  append-nil, append_assoc, arith, get_or, Bytes, equal, All,
}

abbrev pub IsValueChar : ℕ → Type 0
IsValueChar c = (c ≡ b'\t') ⊎ (32 ≤ c)

-- A key of plain characters, and a value that neither begins nor ends with a blank.
abbrev pub IsField : Bytes × Bytes → Type 0
IsField (key, value) =
    All (λ c. key_byte c ≡ plain) key
    × All IsValueChar value
    × (value ≢ [])
    × (is_ws (get_or value 0 0) ≡ false)
    × (strip_trailing value ≡ value)

-- A line `key: value`.
abbrev pub print_fields : List (Bytes × Bytes) → Bytes → Bytes
print_fields [] rest = b'\r' ∷ b'\n' ∷ rest
print_fields ((key, value) ∷ fields) rest =
    key ++ b':' ∷ b' ' ∷ (value ++ b'\r' ∷ b'\n' ∷ print_fields fields rest)

-- The fields one after the other.
unfoldable pub take_fields : Conf → List (Bytes × Bytes) → Con → Result Con
take_fields conf [] con = ok con
take_fields conf ((key, value) ∷ fields) con =
    take_field conf key value con >>= take_fields conf fields

pub >>=_assoc {ℓ κ μ} :
    {A : Type ℓ} {B : Type κ} {C : Type μ} (r : Result A) (f : A → Result B) (g : B → Result C)
    → ((r >>= f) >>= g) ≡ (r >>= λ a. f a >>= g)
>>=_assoc (ok a) f g = refl
>>=_assoc (stop con) f g = refl
>>=_assoc fault f g = refl

pub >>=_ext {ℓ κ} :
    {A : Type ℓ} {B : Type κ} {f g : A → Result B} (r : Result A)
    → ((a : A) → f a ≡ g a)
    → (r >>= f) ≡ (r >>= g)
>>=_ext (ok a) e = e a
>>=_ext (stop con) e = refl
>>=_ext fault e = refl

loop_go :
    (conf : Conf) (last : Option Bytes) (part part' : Part) (con : Con) (c : ℕ) (s : Bytes)
    → move part c s ≡ go part'
    → header_loop conf false last part con (c ∷ s) ≡ header_loop conf false last part' con s
unfolding header_loop
loop_go conf last part part' con c s h = rw (h, header_loop) refl

key_loop :
    (conf : Conf) (last : Option Bytes) (read key : Bytes) (con : Con) (s : Bytes)
    → All (λ c. key_byte c ≡ plain) key
    → header_loop conf false last (in_key read) con (key ++ b':' ∷ s)
      ≡ header_loop conf false last (in_value (read ++ key) []) con s
unfolding move key_move key_byte
key_loop conf last read [] con s h =
    rw (append-nil read) (loop_go conf last (in_key read) (in_value read []) con b':' s refl)
key_loop conf last read (c ∷ key) con s (p, h) =
    loop_go conf last (in_key read) (in_key (read ++ c ∷ [])) con c (key ++ b':' ∷ s) (plain_move p)
    ∙ (key_loop conf last (read ++ c ∷ []) key con s h
        ∙ ap (λ k. header_loop conf false last (in_value k []) con s)
            (append_assoc read (c ∷ []) key))
  where
    plain_move :
        key_byte c ≡ plain → move (in_key read) c (key ++ b':' ∷ s) ≡ go (in_key (read ++ c ∷ []))
    plain_move p = rw (p, key_move, move) refl

value_go :
    (key read : Bytes) (c : ℕ) (s : Bytes)
    → IsValueChar c
    → (is_ws c && equal read []) ≡ false
    → move (in_value key read) c s ≡ go (in_value key (read ++ c ∷ []))
unfolding move value_move
value_go key read c s v h = ground (arith, v, h)

value_loop :
    (conf : Conf) (last : Option Bytes) (key : Bytes) (d : ℕ) (read value : Bytes) (con : Con)
    (s : Bytes)
    → All IsValueChar value
    → header_loop conf false last (in_value key (d ∷ read)) con (value ++ b'\r' ∷ b'\n' ∷ s) ≡ (
        end_line conf key (d ∷ read ++ value) con >>= λ con'.
        header_loop conf false (some key) (in_key []) con' s)
unfolding header_loop move value_move close_line equal
value_loop conf last key d read [] con s h = rw (append-nil read) (
    >>=_assoc (end_line conf key (d ∷ read) con) (λ con'. ok (con', some key))
      (λ r. header_loop conf true r.1 (in_key []) r.0 (b'\n' ∷ s)))
value_loop conf last key d read (c ∷ value) con s (v, h) =
    loop_go conf last (in_value key (d ∷ read)) (in_value key (d ∷ read ++ c ∷ [])) con c
      (value ++ b'\r' ∷ b'\n' ∷ s)
      (value_go key (d ∷ read) c (value ++ b'\r' ∷ b'\n' ∷ s) v (ground arith))
    ∙ (value_loop conf last key d (read ++ c ∷ []) value con s h
        ∙ ap
            (λ t. end_line conf key (d ∷ t) con >>= λ con'.
              header_loop conf false (some key) (in_key []) con' s)
            (append_assoc read (c ∷ []) value))

line_loop :
    (conf : Conf) (last : Option Bytes) (key value : Bytes) (con : Con) (s : Bytes)
    → IsField (key, value)
    → header_loop conf false last
        (in_key [])
        con
        (key ++ b':' ∷ b' ' ∷ (value ++ b'\r' ∷ b'\n' ∷ s))
      ≡ (take_field conf key value con >>= λ con'.
          header_loop conf false (some key) (in_key []) con' s)
unfolding end_line move value_move equal
line_loop conf last key [] con s (k, v, full, front, back) = absurd (full refl)
line_loop conf last key (c ∷ value) con s (k, v, full, front, back) =
    key_loop conf last [] key con (b' ' ∷ (c ∷ value ++ b'\r' ∷ b'\n' ∷ s)) k
    ∙ (loop_go conf last (in_value key []) (in_value key []) con b' '
          (c ∷ value ++ b'\r' ∷ b'\n' ∷ s) refl
        ∙ (loop_go conf last (in_value key []) (in_value key (c ∷ [])) con c
              (value ++ b'\r' ∷ b'\n' ∷ s)
              (value_go key [] c (value ++ b'\r' ∷ b'\n' ∷ s) v.0 (ground (arith, front)))
            ∙ (value_loop conf last key c [] value con s v.1
                ∙ ap (λ r. r >>= λ con'. header_loop conf false (some key) (in_key []) con' s)
                    taken)))
  where
    taken : end_line conf key (c ∷ value) con ≡ take_field conf key (c ∷ value) con
    taken = rw (back, end_line) refl

-- The loop on header lines as they are written, with an empty line behind them, takes the fields one
-- after the other, and stops in front of what follows the empty line.
pub header_loop-print_fields :
    (conf : Conf) (last : Option Bytes) (fields : List (Bytes × Bytes)) (con : Con) (rest : Bytes)
    → All IsField fields
    → header_loop conf false last (in_key []) con (print_fields fields rest)
      ≡ (take_fields conf fields con >>= λ con'. ok (con', rest))
unfolding take_fields header_loop move key_move key_byte
header_loop-print_fields conf last [] con rest h = refl
header_loop-print_fields conf last ((key, value) ∷ fields) con rest h =
    line_loop conf last key value con (print_fields fields rest) h.0
    ∙ (>>=_ext (take_field conf key value con)
          (λ con'. header_loop-print_fields conf (some key) fields con' rest h.1)
        ∙ sym (
            >>=_assoc (take_field conf key value con) (take_fields conf fields)
              (λ con'. ok (con', rest))))
