-- ===== src/Request/Line/Written.antt =====
-- A request line as it is written.
use lighttpd_autothumb.Request.Line.{ended, scan_line, first_line}
use lighttpd_autothumb.Base.{
  ℕ, ◌≡◌, refl, ap, ◌∙◌, ◌≢◌, false, [], ◌∷◌, ◌++◌, append-nil, append_assoc, arith, ◌==◌, Bytes,
  All,
}

-- A part of the line: no blank, and no carriage return.
abbrev pub IsWord : Bytes → Type 0
IsWord = All (λ c. (c ≢ b' ') × (c ≢ b'\r'))

abbrev pub print_line : Bytes → Bytes → Bytes → Bytes → Bytes
print_line method uri proto rest = method ++ b' ' ∷ (uri ++ b' ' ∷ (proto ++ b'\r' ∷ b'\n' ∷ rest))

word_loop :
    (stage : ℕ) (method uri part word : Bytes) (d : ℕ) (s : Bytes)
    → IsWord word
    → scan_line stage method uri part (word ++ d ∷ s)
      ≡ scan_line stage method uri (part ++ word) (d ∷ s)
unfolding scan_line
word_loop stage method uri part [] d s h = rw (append-nil part) refl
word_loop stage method uri part (c ∷ word) d s ((blank, return), h) =
    let b : (c == b' ') ≡ false = ground (arith, blank) in
    let r : (c == b'\r') ≡ false = ground (arith, return) in
    one b r
    ∙ (word_loop stage method uri (part ++ c ∷ []) word d s h
        ∙ ap (λ p. scan_line stage method uri p (d ∷ s)) (append_assoc part (c ∷ []) word))
  where
    one :
        (c == b' ') ≡ false
        → (c == b'\r') ≡ false
        → scan_line stage method uri part (c ∷ word ++ d ∷ s)
          ≡ scan_line stage method uri (part ++ c ∷ []) (word ++ d ∷ s)
    one b r = rw (b, r, scan_line) refl

-- A request line as it is written is taken apart into its method, its URI and its protocol, and what
-- follows the line is left.
pub scan_line-print_line :
    (method uri proto rest : Bytes)
    → IsWord method
    → IsWord uri
    → IsWord proto
    → scan_line 0 [] [] [] (print_line method uri proto rest) ≡ ended 2 method uri proto rest
unfolding scan_line
scan_line-print_line method uri proto rest m u p =
    word_loop 0 [] [] [] method b' ' (uri ++ b' ' ∷ (proto ++ b'\r' ∷ b'\n' ∷ rest)) m
    ∙ (word_loop 1 method [] [] uri b' ' (proto ++ b'\r' ∷ b'\n' ∷ rest) u
        ∙ word_loop 2 method uri [] proto b'\r' (b'\n' ∷ rest) p)

first_word : (word s : Bytes) → IsWord word → first_line (word ++ s) ≡ word ++ first_line s
unfolding first_line
first_word [] s h = refl
first_word (c ∷ word) s ((blank, return), h) =
    let r : (c == b'\r') ≡ false = ground (arith, return) in
    rw (r, first_line) (ap (λ t. c ∷ t) (first_word word s h))

pub first_line-print_line :
    (method uri proto rest : Bytes)
    → IsWord method
    → IsWord uri
    → IsWord proto
    → first_line (print_line method uri proto rest) ≡ method ++ b' ' ∷ (uri ++ b' ' ∷ proto)
unfolding first_line
first_line-print_line method uri proto rest m u p =
    first_word method _ m
    ∙ ap (λ t. method ++ b' ' ∷ t)
        (first_word uri (b' ' ∷ (proto ++ b'\r' ∷ b'\n' ∷ rest)) u
          ∙ ap (λ t. uri ++ b' ' ∷ t)
              (first_word proto (b'\r' ∷ b'\n' ∷ rest) p ∙ append-nil proto))
