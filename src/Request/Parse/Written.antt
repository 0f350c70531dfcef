-- ===== src/Request/Parse/Written.antt =====
-- A request as it is written, and what the parser makes of it.
use lighttpd_autothumb.Request.{Conf, Con, Result, ok, ◌>>=◌}
use lighttpd_autothumb.Request.Line.{take_line, parse_line}
use lighttpd_autothumb.Request.Line.Written.{
  IsWord, print_line, scan_line-print_line, first_line-print_line,
}
use lighttpd_autothumb.Request.Headers.Printed.{
  IsField, print_fields, take_fields, header_loop-print_fields, >>=_assoc, >>=_ext,
}
use lighttpd_autothumb.Request.Finish.{finish}
use lighttpd_autothumb.Request.Parse.{
  skip_line_end, check_uri, add_host, begin, read_headers, request_parse,
}
use lighttpd_autothumb.Base.{
  ℕ, ◌-◌, ◌≡◌, refl, ap, ◌∙◌, ◌≢◌, inl, inr, Bool, false, Option, none, some, List, [], ◌∷◌, ◌++◌,
  arith, ltb, ◌==◌, Bool-cases, length, Bytes, equal, All,
}

abbrev pub print_request : Bytes → Bytes → Bytes → List (Bytes × Bytes) → Bytes → Bytes
print_request method uri proto fields rest = print_line method uri proto (print_fields fields rest)

-- What the parser does, on the parts of the request.
abbrev pub parse_parts :
    Conf → Bytes → Bytes → Bytes → List (Bytes × Bytes) → ℕ → Con → Result (Con × Bool)
parse_parts conf method uri proto fields header_len con = do
  con0 ←
      take_line conf 2 method uri proto
        (record con { request_line = some (method ++ b' ' ∷ (uri ++ b' ' ∷ proto)) })
  con1 ← check_uri con0
  con2 ← add_host con1
  con3 ← take_fields conf fields con2
  finish conf (record con3 { header_len = header_len })

skip_other : (n c : ℕ) (s : Bytes) → c ≢ b'\r' → skip_line_end n (c ∷ s) ≡ c ∷ s
unfolding skip_line_end equal
skip_other n c s h = elim (Bool-cases (ltb 1 n)) [
  | inl t ↦ let r : (c == b'\r') ≡ false = ground (arith, h) in rw (t, r, skip_line_end) refl
  | inr f ↦ rw (f, skip_line_end) refl
]

skip_none :
    (n : ℕ) (method s : Bytes)
    → IsWord method
    → skip_line_end n (method ++ b' ' ∷ s) ≡ method ++ b' ' ∷ s
skip_none n [] s h = skip_other n b' ' s (λ e. omega (arith, e))
skip_none n (c ∷ method) s ((blank, return), h) = skip_other n c (method ++ b' ' ∷ s) return

parse_line-print_line :
    (conf : Conf) (method uri proto rest : Bytes) (con : Con)
    → IsWord method
    → IsWord uri
    → IsWord proto
    → parse_line conf (print_line method uri proto rest) con ≡ (
        take_line conf 2 method uri proto
          (record con { request_line = some (method ++ b' ' ∷ (uri ++ b' ' ∷ proto)) })
        >>= λ con'. ok (con', some rest))
unfolding parse_line
parse_line-print_line conf method uri proto rest con m u p =
    rw
      (
        scan_line-print_line method uri proto rest m u p,
        first_line-print_line method uri proto rest m u p,
        parse_line,
      )
      refl

read_headers-print_fields :
    (conf : Conf) (text : Bytes) (fields : List (Bytes × Bytes)) (rest : Bytes) (con : Con)
    → All IsField fields
    → read_headers conf text (some (print_fields fields rest)) con ≡ (
        take_fields conf fields con >>= λ con'.
        ok (record con' { header_len = length text - length rest }))
unfolding read_headers
read_headers-print_fields conf text fields rest con h =
    ap
      (λ r. r >>= λ (read : Con × Bytes).
        ok (record read.0 { header_len = length text - length read.1 }))
      (header_loop-print_fields conf none fields con rest h)
    ∙ >>=_assoc (take_fields conf fields con) (λ con'. ok (con', rest))
        (λ (read : Con × Bytes). ok (record read.0 { header_len = length text - length read.1 }))

-- On a request as it is written, whose method, URI and protocol have no blank and no carriage return,
-- whose keys have plain characters, and whose values are not empty, have no control character but tabs
-- and neither begin nor end with a blank, the parser of bytes does what `parse_parts` does with these
-- parts one after the other, refusals included, whatever follows the request.
pub request_parse-print_request :
    (conf : Conf) (n : ℕ) (method uri proto : Bytes) (fields : List (Bytes × Bytes)) (rest : Bytes)
    (con : Con)
    → IsWord method
    → IsWord uri
    → IsWord proto
    → All IsField fields
    → request_parse conf n (print_request method uri proto fields rest) con
      ≡ parse_parts conf method uri proto fields
          (length (print_request method uri proto fields rest) - length rest)
          (begin con)
unfolding request_parse
request_parse-print_request conf n method uri proto fields rest con m u p h =
    ap
      (λ t. parse_line conf t (begin con) >>= λ line. check_uri line.0 >>= λ con1.
        add_host con1 >>= λ con2. read_headers conf t line.1 con2 >>= finish conf)
      (skip_none n method (uri ++ b' ' ∷ (proto ++ b'\r' ∷ b'\n' ∷ print_fields fields rest)) m)
    ∙ (ap (λ r. r >>= after)
          (parse_line-print_line conf method uri proto (print_fields fields rest) (begin con) m u p)
        ∙ (>>=_assoc (taken) (λ con'. ok (con', some (print_fields fields rest))) after
            ∙ >>=_ext (taken) (λ con0. >>=_ext (check_uri con0) (λ con1.
              >>=_ext (add_host con1) (λ con2.
                ap (λ r. r >>= finish conf)
                  (read_headers-print_fields conf (print_request method uri proto fields rest)
                    fields rest con2 h)
                ∙ >>=_assoc (take_fields conf fields con2)
                    (λ con'. ok (record con' {
                      header_len =
                          length (print_request method uri proto fields rest) - length rest;
                    }))
                    (finish conf))))))
  where
    after : Con × Option Bytes → Result (Con × Bool)
    after line = check_uri line.0 >>= λ con1. add_host con1 >>= λ con2.
        read_headers conf (print_request method uri proto fields rest) line.1 con2 >>= finish conf

    taken : Result Con
    taken =
        take_line conf 2 method uri proto
          (record (begin con) { request_line = some (method ++ b' ' ∷ (uri ++ b' ' ∷ proto)) })
