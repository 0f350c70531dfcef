-- ===== src/Response/PathInfo/Longest.antt =====
-- The loop finds the longest beginning of the path that is an entry.
use lighttpd_autothumb.Response.PathInfo.{
  Stat, StatResult, entry, eacces, enoent, enotdir, other_error, split_last, is_behind, next_cut,
  take_entry, find_loop, find_file,
}
use lighttpd_autothumb.Base.{
  ℕ, zero, suc, ◌+◌, ◌≤◌, ◌<◌, ◌≡◌, refl, sym, ap, ◌∙◌, ◌≢◌, ◌⊎◌, inl, inr, false, Option, none,
  some, [], ◌∷◌, ◌++◌, arith, ltb, ◌==◌, if◌then◌else◌, ltb→lt, ==_iff, Bool-cases, length,
  get_elem?, get_elem?-bound, take, drop, take-append-drop, take-length, drop-length, length-take,
  Bytes, if_cases,
}

-- A path may be cut in front of a slash, or not at all.
abbrev pub IsCut : Bytes → ℕ → Type 0
IsCut path n = (n ≡ length path) ⊎ (get_elem? path n ≡ some b'/')

abbrev pub NoEntry : StatResult → Type 0
NoEntry (entry sce) = ⊥
NoEntry eacces = Unit
NoEntry enoent = Unit
NoEntry enotdir = Unit
NoEntry other_error = Unit

-- No longer cut than the one at `n` is an entry.
abbrev pub Missed : (Bytes → StatResult) → Bytes → ℕ → Type 0
Missed stat path n = (m : ℕ) → IsCut path m → n < m → NoEntry (stat (take m path))

-- What is found is a cut, at the end or behind the base, that is an entry while no longer one is; or
-- none of the cuts at the end or behind the base is an entry.
abbrev pub Longest : (Bytes → StatResult) → ℕ → Bytes → Option (Bytes × Bytes × Stat) → Type 0
Longest stat base path none =
    (m : ℕ) → IsCut path m → (m ≡ length path) ⊎ (base ≤ m) → NoEntry (stat (take m path))
Longest stat base path (some (front, info, sce)) =
    (n : ℕ) × (front ≡ take n path)
    × (info ≡ drop n path)
    × IsCut path n
    × ((n ≡ length path) ⊎ (base ≤ n))
    × (stat front ≡ entry sce)
    × Missed stat path n

take-take : (k n : ℕ) (s : Bytes) → k ≤ n → take k (take n s) ≡ take k s
take-take zero n s h = refl
take-take (suc k) zero s h = absurd (omega arith)
take-take (suc k) (suc n) [] h = refl
take-take (suc k) (suc n) (c ∷ s) h = ap (◌∷◌ c) (take-take k n s (omega arith))

drop-take : (k n : ℕ) (s : Bytes) → k ≤ n → drop k (take n s) ++ drop n s ≡ drop k s
drop-take zero n s h = take-append-drop n s
drop-take (suc k) zero s h = absurd (omega arith)
drop-take (suc k) (suc n) [] h = refl
drop-take (suc k) (suc n) (c ∷ s) h = drop-take k n s (omega arith)

get_elem?-take : (k n : ℕ) (s : Bytes) → k < n → get_elem? (take n s) k ≡ get_elem? s k
get_elem?-take k zero s h = absurd (omega arith)
get_elem?-take k (suc n) [] h = refl
get_elem?-take zero (suc n) (c ∷ s) h = refl
get_elem?-take (suc k) (suc n) (c ∷ s) h = get_elem?-take k n s (omega arith)

-- What `split_last` gives: the place of the last slash.
abbrev LastSlash : Bytes → Option (Bytes × Bytes) → Type 0
LastSlash s none = (m : ℕ) → get_elem? s m ≢ some b'/'
LastSlash s (some (front, back)) =
    (k : ℕ) × (front ≡ take k s)
    × (back ≡ drop k s)
    × (get_elem? s k ≡ some b'/')
    × (length front ≡ k)
    × ((m : ℕ) → k < m → get_elem? s m ≢ some b'/')

split_last_lem : (s : Bytes) → LastSlash s (split_last s)
unfolding split_last
split_last_lem [] = λ m e. cc e
split_last_lem (c ∷ s) = extend (split_last s) (split_last_lem s)
  where
    extend :
        (o : Option (Bytes × Bytes))
        → LastSlash s o
        → LastSlash (c ∷ s) (elim o [
          | some (front, back) ↦ some (c ∷ front, back)
          | none ↦ if c == b'/' then some ([], c ∷ s) else none
        ])
    extend (some (front, back)) (k, f, b, e, l, later) =
        (suc k, ap (◌∷◌ c) f, b, e, ap suc l, λ m lt. beyond m k later lt)
      where
        beyond :
            (m k : ℕ)
            → ((j : ℕ) → k < j → get_elem? s j ≢ some b'/')
            → suc k < m
            → get_elem? (c ∷ s) m ≢ some b'/'
        beyond zero k h lt = absurd (omega arith)
        beyond (suc m) k h lt = h m (omega arith)
    extend none none_at =
        if_cases (LastSlash (c ∷ s)) (c == b'/') (some ([], c ∷ s)) none
          (λ t. (0, refl, refl, ap some ((==_iff c b'/').0 t), refl, after_first))
          (λ f. unslashed f)
      where
        after_first : (m : ℕ) → 0 < m → get_elem? (c ∷ s) m ≢ some b'/'
        after_first zero lt = absurd (omega arith)
        after_first (suc m) lt = none_at m

        unslashed : (c == b'/') ≡ false → (m : ℕ) → get_elem? (c ∷ s) m ≢ some b'/'
        unslashed f zero e = let q : c ≡ b'/' = cc (e) in ground (arith, f, q)
        unslashed f (suc m) e = none_at m e

module _ (stat : Bytes → StatResult) (base : ℕ) (path : Bytes) where
  entry-Longest :
      (n : ℕ) (sce : Stat)
      → IsCut path n
      → (n ≡ length path) ⊎ (base ≤ n)
      → Missed stat path n
      → stat (take n path) ≡ entry sce
      → Longest stat base path (some (take n path, drop n path, sce))
  entry-Longest n sce c b m e = (n, refl, refl, c, b, e, m)

  -- No entry at `n` itself.
  Missed-more :
      (n : ℕ)
      → Missed stat path n
      → NoEntry (stat (take n path))
      → (m : ℕ) → IsCut path m
      → n ≤ m
      → NoEntry (stat (take m path))
  Missed-more n missed here m c le = elim (Bool-cases (n == m)) [
    | inl t ↦ rw (← (==_iff n m).0 t) here
    | inr f ↦ missed m c (ground (arith, f, le))
  ]

  -- A slash in front of `n` is one of the beginning.
  slash_before :
      (n m : ℕ) → m < n → n ≤ length path → IsCut path m → get_elem? (take n path) m ≡ some b'/'
  slash_before n m lt le (inl e) = absurd (omega (arith, e))
  slash_before n m lt le (inr e) = get_elem?-take m n path lt ∙ e

  -- Where the beginning has no slash behind `k`, no cut between the two is left.
  Missed-back :
      (n k : ℕ)
      → n ≤ length path
      → Missed stat path n
      → NoEntry (stat (take n path))
      → ((m : ℕ) → k < m → get_elem? (take n path) m ≢ some b'/')
      → Missed stat path k
  Missed-back n k le missed here no_slash m c lt = elim (Bool-cases (ltb m n)) [
    | inl t ↦ absurd (no_slash m lt (slash_before n m (ltb→lt m n t) le c))
    | inr f ↦ Missed-more n missed here m c (ground (arith, f))
  ]

  cut-Longest :
      (rest : Bytes → Bytes → Option (Bytes × Bytes × Stat)) (n : ℕ) (o : Option (Bytes × Bytes))
      → 0 < base
      → n ≤ length path
      → Missed stat path n
      → NoEntry (stat (take n path))
      → LastSlash (take n path) o
      → ((k : ℕ)
          → k < n
          → IsCut path k
          → base ≤ k
          → Missed stat path k
          → Longest stat base path (rest (take k path) (drop k path)))
      → Longest stat base path (next_cut rest base (drop n path) o)
  unfolding next_cut
  cut-Longest rest n none pos le missed here no_slash go = λ m c b. elim (Bool-cases (ltb m n)) [
    | inl t ↦ absurd (no_slash m (slash_before n m (ltb→lt m n t) le c))
    | inr f ↦ Missed-more n missed here m c (ground (arith, f))
  ]
  cut-Longest rest n (some (front, back)) pos le missed here (k, f, b, at_k, l, later) go =
      let lt : k < n =
        omega (arith, get_elem?-bound (take n path) k b'/' at_k, length-take n path) in
      let missed' = Missed-back n k le missed here later in
      let front' : front ≡ take k path = f ∙ take-take k n path (omega (arith, lt)) in
      let back' : back ++ drop n path ≡ drop k path =
        ap (λ t. t ++ drop n path) b ∙ drop-take k n path (omega (arith, lt)) in
      if_cases (Longest stat base path) (is_behind base (length front)) _ none
        (λ t.
          rw (front', back')
            (go k lt (inr (sym (get_elem?-take k n path lt) ∙ at_k)) (ground (arith, t, l))
              missed'))
        (λ x m c o. elim o [
          | inl e ↦ missed' m c (omega (arith, e, lt))
          | inr e ↦ missed' m c (ground (arith, x, l, e))
        ])

  entry_step :
      (n : ℕ) (r : StatResult) (rest : Option (Bytes × Bytes × Stat))
      → stat (take n path) ≡ r
      → IsCut path n
      → (n ≡ length path) ⊎ (base ≤ n)
      → Missed stat path n
      → (NoEntry r → Longest stat base path rest)
      → Longest stat base path (take_entry (take n path) (drop n path) r rest)
  unfolding take_entry
  entry_step n (entry sce) rest e c b m k = entry-Longest n sce c b m e
  entry_step n eacces rest e c b m k = k tt
  entry_step n enoent rest e c b m k = k tt
  entry_step n enotdir rest e c b m k = k tt
  entry_step n other_error rest e c b m k = k tt

  find_loop-Longest :
      (rounds n : ℕ)
      → n < rounds
      → 0 < base
      → n ≤ length path
      → IsCut path n
      → (n ≡ length path) ⊎ (base ≤ n)
      → Missed stat path n
      → Longest stat base path (find_loop rounds stat base (take n path) (drop n path))
  unfolding find_loop
  find_loop-Longest zero n h pos le c b m = elim h [ ]
  find_loop-Longest (suc rounds) n h pos le c b m =
      entry_step n (stat (take n path)) _ refl c b m (λ none_here.
        cut-Longest (find_loop rounds stat base) n (split_last (take n path)) pos le m none_here
          (split_last_lem (take n path))
          (λ k lt ck bk mk.
            find_loop-Longest rounds k (omega arith) pos (omega arith) ck (inr bk) mk))

-- With a base that is not empty, what the loop finds is the longest entry among the whole path and its
-- beginnings that stop in front of a slash and have the base in them, with the text behind it; and it
-- finds nothing exactly if none of them is an entry.
pub find_file-Longest :
    (stat : Bytes → StatResult) (base : ℕ) (path : Bytes)
    → 0 < base
    → Longest stat base path (find_file stat base path)
unfolding find_file
find_file-Longest stat base path pos =
    rw (whole, rest) at
      (find_loop-Longest stat base path (length path + 1) (length path) (omega arith) pos
        (omega arith) (inl refl) (inl refl) longer)
  where
    whole : take (length path) path ≡ path
    whole = take-length path

    rest : drop (length path) path ≡ []
    rest = drop-length path

    longer : Missed stat path (length path)
    longer m (inl e) lt = absurd (omega (arith, e))
    longer m (inr e) lt = absurd (omega (arith, get_elem?-bound path m b'/' e))
