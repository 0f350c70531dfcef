-- ===== src/SplayTree/Search.antt =====
-- In a search tree splaying brings the key that is looked for to the root.
use lighttpd_autothumb.Base.{
  ℕ, zero, suc, ◌+◌, ◌≤◌, ◌<◌, ◌≡◌, refl, some, List, [], ◌∷◌, ◌++◌, arith, ltb, Bool-cases, inl,
  inr, All, All-map, All-both, All-front, ◌↔◌,
}
use lighttpd_autothumb.SplayTree.{
  Tree, leaf, node, node_size, Linked, Round, stop, link_right, link_left, rotated_right,
  rotated_left, round_left, round_right, round, linked_size, assemble, splay_loop, count, splay,
}
use lighttpd_autothumb.SplayTree.Order.{
  inorder, left_items, right_items, left_path-inorder, right_path-inorder, left_items-append,
  right_items-append, splay-inorder,
}

module _ {A : Type 0} where
  abbrev pub Below : ℕ → List (ℕ × A) → Type 0
  Below k es = All (λ e. e.0 < k) es

  abbrev pub Above : ℕ → List (ℕ × A) → Type 0
  Above k es = All (λ e. k < e.0) es

  -- A search tree.
  abbrev pub IsSearch : Tree A → Type 0
  IsSearch leaf = Unit
  IsSearch (node l k s d r) = Below k (inorder l) × Above k (inorder r) × IsSearch l × IsSearch r

  -- The key parts the tree at its root: smaller keys are on the left, larger ones on the right.
  abbrev pub AtRoot : ℕ → Tree A → Type 0
  AtRoot i leaf = Unit
  AtRoot i (node l k s d r) = Below i (inorder l) × Above i (inorder r)

  pub Above-less : (i k : ℕ) (es : List (ℕ × A)) → i ≤ k → Above k es → Above i es
  Above-less i k es h = All-map _ _ es (λ e p. omega (arith, h, p))

  pub Below-more : (i k : ℕ) (es : List (ℕ × A)) → k ≤ i → Below k es → Below i es
  Below-more i k es h = All-map _ _ es (λ e p. omega (arith, h, p))

  -- A round of the search for `i` in a search tree links larger keys on the right and smaller ones on the left.
  abbrev pub Seeks : ℕ → Round A → Type 0
  Seeks i (stop t') = AtRoot i t'
  Seeks i (link_right y t') = (i < y.key) × Above i (inorder y.side) × IsSearch t'
  Seeks i (link_left y t') = (y.key < i) × Below i (inorder y.side) × IsSearch t'

  round_left-Seeks :
      (i : ℕ) (l : Tree A) (k s : ℕ) (d : A) (r : Tree A)
      → i < k
      → IsSearch (node l k s d r)
      → Seeks i (round_left i l k s d r)
  unfolding round_left rotated_right
  round_left-Seeks i leaf k s d r h (b, a, sl, sr) =
      (tt, Above-less i k (inorder r) (omega (arith, h)) a)
  round_left-Seeks i (node ll lk ls ld lr) k s d r h (b, a, sl, sr) = elim (Bool-cases (ltb i lk)) [
    | inl t ↦
        let less : i < lk = ground (arith, t) in
        let side : Above i (inorder lr ++ (k, d) ∷ inorder r) =
          All-both _ (inorder lr) _ (Above-less i lk (inorder lr) (omega (arith, less)) sl.1)
            ((omega (arith, h)), Above-less i k (inorder r) (omega (arith, h)) a) in
        rw t (turned ll lk ls ld lr k d r less side sl.2)
    | inr n ↦ rw n ((omega (arith, h)), Above-less i k (inorder r) (omega (arith, h)) a, sl)
  ]
    where
      turned :
          (ll : Tree A) (lk ls : ℕ) (ld : A) (lr : Tree A) (k : ℕ) (d : A) (r : Tree A)
          → i < lk
          → Above i (inorder lr ++ (k, d) ∷ inorder r)
          → IsSearch ll
          → Seeks i (rotated_right ll lk ls ld (node lr k (node_size lr + node_size r + 1) d r))
      turned leaf lk ls ld lr k d r less side sl = (tt, side)
      turned (node a b c e f) lk ls ld lr k d r less side sl = ((omega (arith, less)), side, sl)

  round_right-Seeks :
      (i : ℕ) (l : Tree A) (k s : ℕ) (d : A) (r : Tree A)
      → k < i
      → IsSearch (node l k s d r)
      → Seeks i (round_right i l k s d r)
  unfolding round_right rotated_left
  round_right-Seeks i l k s d leaf h (b, a, sl, sr) =
      (Below-more i k (inorder l) (omega (arith, h)) b, tt)
  round_right-Seeks i l k s d (node rl rk rs rd rr) h (b, a, sl, sr) =
      elim (Bool-cases (ltb rk i)) [
        | inl t ↦
            let less : rk < i = ground (arith, t) in
            let side : Below i (inorder l ++ (k, d) ∷ inorder rl) =
              All-both _ (inorder l) _ (Below-more i k (inorder l) (omega (arith, h)) b)
                ((omega (arith, h)), Below-more i rk (inorder rl) (omega (arith, less)) sr.0) in
            rw t (turned rl rk rs rd rr l k d less side sr.3)
        | inr n ↦ rw n ((omega (arith, h)), Below-more i k (inorder l) (omega (arith, h)) b, sr)
      ]
    where
      turned :
          (rl : Tree A) (rk rs : ℕ) (rd : A) (rr l : Tree A) (k : ℕ) (d : A)
          → rk < i
          → Below i (inorder l ++ (k, d) ∷ inorder rl)
          → IsSearch rr
          → Seeks i (rotated_left (node l k (node_size l + node_size rl + 1) d rl) rk rs rd rr)
      turned rl rk rs rd leaf l k d less side sr = (side, tt)
      turned rl rk rs rd (node a b c e f) l k d less side sr = ((omega (arith, less)), side, sr)

  round-Seeks : (i : ℕ) (t : Tree A) → IsSearch t → Seeks i (round i t)
  unfolding round
  round-Seeks i leaf h = tt
  round-Seeks i (node l k s d r) h = elim (Bool-cases (ltb i k)) [
    | inl t ↦ rw t (round_left-Seeks i l k s d r (ground (arith, t)) h)
    | inr n ↦ elim (Bool-cases (ltb k i)) [
      | inl t ↦ rw (n, t) (round_right-Seeks i l k s d r (ground (arith, t)) h)
      | inr m ↦
          let e : i ≡ k = ground (arith, n, m) in
          rw (n, m)
            (
              Below-more i k (inorder l) (omega (arith, e)) h.0,
              Above-less i k (inorder r) (omega (arith, e)) h.1,
            )
    ]
  ]

  assemble-AtRoot :
      (i : ℕ) (ls rs : List (Linked A)) (t : Tree A)
      → Below i (left_items ls)
      → Above i (right_items rs)
      → AtRoot i t
      → AtRoot i (assemble ls rs t)
  unfolding assemble
  assemble-AtRoot i ls rs leaf a b h = tt
  assemble-AtRoot i ls rs (node l k s d r) a b h =
      rw
        (
          left_path-inorder ls (linked_size ls + node_size l) l,
          right_path-inorder rs (linked_size rs + node_size r) r,
        )
        (
          All-both _ (left_items ls) (inorder l) a h.0,
          All-both _ (inorder r) (right_items rs) h.1 b,
        )

  after_round :
      (n i : ℕ) (ls rs : List (Linked A)) (t u : Tree A) (r : Round A)
      → ((ls rs : List (Linked A)) (t : Tree A)
          → IsSearch t
          → Below i (left_items ls)
          → Above i (right_items rs)
          → splay_loop n i ls rs t ≡ some u
          → AtRoot i u)
      → round i t ≡ r
      → Seeks i r
      → Below i (left_items ls)
      → Above i (right_items rs)
      → splay_loop (suc n) i ls rs t ≡ some u
      → AtRoot i u
  unfolding splay_loop
  after_round n i ls rs t u (stop t') ih e h a b runs =
      let is : some (assemble ls rs t') ≡ some u = rw (e, splay_loop) at runs in
      let same : assemble ls rs t' ≡ u = cc is in rw same at (assemble-AtRoot i ls rs t' a b h)
  after_round n i ls rs t u (link_right y t') ih e (ne, side, h) a b runs =
      ih ls (rs ++ y ∷ []) t' h a
        (rw (right_items-append rs y)
          (All-both _ ((y.key, y.item) ∷ inorder y.side) (right_items rs) (ne, side) b))
        (rw (e, splay_loop) at runs)
  after_round n i ls rs t u (link_left y t') ih e (ne, side, h) a b runs =
      ih (ls ++ y ∷ []) rs t' h
        (rw (left_items-append ls y) (
          All-both _ (left_items ls) _ a
            (All-both _ (inorder y.side) ((y.key, y.item) ∷ []) side (ne, tt))))
        b (rw (e, splay_loop) at runs)

  splay_loop-AtRoot :
      (n i : ℕ) (u : Tree A) (ls rs : List (Linked A)) (t : Tree A)
      → IsSearch t
      → Below i (left_items ls)
      → Above i (right_items rs)
      → splay_loop n i ls rs t ≡ some u
      → AtRoot i u
  unfolding splay_loop
  splay_loop-AtRoot zero i u ls rs t h a b runs = cc runs
  splay_loop-AtRoot (suc n) i u ls rs t h a b runs =
      after_round n i ls rs t u (round i t) (splay_loop-AtRoot n i u) refl (round-Seeks i t h) a b
        runs

  abbrev pub IsSorted : List (ℕ × A) → Type 0
  IsSorted [] = Unit
  IsSorted (e ∷ es) = Above e.0 es × IsSorted es

  IsSorted-append :
      (xs : List (ℕ × A)) (k : ℕ) (d : A) (ys : List (ℕ × A))
      → IsSorted (xs ++ (k, d) ∷ ys) ↔ (Below k xs × Above k ys × IsSorted xs × IsSorted ys)
  IsSorted-append [] k d ys = (λ (a, s). (tt, a, tt, s), λ (b, a, x, s). (a, s))
  IsSorted-append (x ∷ xs) k d ys =
      let (to, from) = IsSorted-append xs k d ys in
      (
        (λ (a, s).
            let (b, c, sx, sy) = to s in
            let (ax, ay) = All-front _ xs ((k, d) ∷ ys) a in ((ay.0, b), c, (ax, sx), sy)),
        (λ (b, c, sx, sy).
            let later : Above x.0 ys = All-map _ _ ys (λ e h. omega (arith, h, b.0)) c in
            (All-both _ xs ((k, d) ∷ ys) sx.0 (b.0, later), from (b.1, c, sx.1, sy))),
      )

  -- A search tree is one whose entries are in order.
  pub IsSearch-IsSorted : (t : Tree A) → IsSearch t ↔ IsSorted (inorder t)
  IsSearch-IsSorted leaf = (λ h. tt, λ h. tt)
  IsSearch-IsSorted (node l k s d r) =
      let (tl, fl) = IsSearch-IsSorted l in
      let (tr, fr) = IsSearch-IsSorted r in
      let (to, from) = IsSorted-append (inorder l) k d (inorder r) in
      (
        (λ (b, a, sl, sr). from (b, a, tl sl, tr sr)),
        (λ h. let (b, a, sl, sr) = to h in (b, a, fl sl, fr sr)),
      )

  -- Splaying a search tree for a key gives a search tree of the same entries, with smaller
  -- keys than that one on the left of the root and larger ones on the right.
  pub splay-AtRoot :
      (t : Tree A) (i : ℕ)
      → IsSearch t
      → (u : Tree A) × (splay t i ≡ some u) × (inorder u ≡ inorder t) × IsSearch u × AtRoot i u
  unfolding splay
  splay-AtRoot t i h =
      let (u, runs, same) = splay-inorder t i in
      let sorted = (IsSearch-IsSorted t).0 h in
      (
        u,
        runs,
        same,
        (IsSearch-IsSorted u).1 (rw same sorted),
        splay_loop-AtRoot (count t + 1) i u [] [] t h tt tt runs,
      )
