-- ===== src/SplayTree/Size.antt =====
-- The size fields: what the loops at the end of `splaytree_splay` correct.
use lighttpd_autothumb.Base.{
  ℕ, zero, suc, ◌+◌, ◌-◌, ◌≡◌, refl, some, List, [], ◌∷◌, ◌++◌, arith, ltb, ◌==◌, Bool-cases, inl,
  inr, All, All-both,
}
use lighttpd_autothumb.SplayTree.{
  Tree, leaf, node, node_size, Linked, Round, stop, link_right, link_left, rotated_right,
  rotated_left, round_left, round_right, round, left_path, right_path, linked_size, assemble,
  splay_loop, count, splay, insert_root, insert,
}
use lighttpd_autothumb.SplayTree.Order.{splay-inorder}

module _ {A : Type 0} where
  -- Each size field says how many nodes there are from its node on.
  abbrev pub IsSized : Tree A → Type 0
  IsSized leaf = Unit
  IsSized (node l k s d r) = (s ≡ count l + count r + 1) × IsSized l × IsSized r

  node_size-count : (t : Tree A) → IsSized t → node_size t ≡ count t
  unfolding node_size count
  node_size-count leaf h = refl
  node_size-count (node l k s d r) h = h.0

  abbrev IsSizedLink : Linked A → Type 0
  IsSizedLink y = IsSized y.side

  -- The subtrees that a round leaves are sized; the root it stops at need not be.
  abbrev Leaves : Round A → Type 0
  Leaves (stop leaf) = Unit
  Leaves (stop (node l k s d r)) = IsSized l × IsSized r
  Leaves (link_right y t') = IsSizedLink y × IsSized t'
  Leaves (link_left y t') = IsSizedLink y × IsSized t'

  rotated_right-Leaves :
      (l : Tree A) (k s : ℕ) (d : A) (t : Tree A)
      → IsSized l
      → IsSized t
      → Leaves (rotated_right l k s d t)
  unfolding rotated_right
  rotated_right-Leaves leaf k s d t a b = (a, b)
  rotated_right-Leaves (node p q u v w) k s d t a b = (b, a)

  rotated_left-Leaves :
      (t : Tree A) (k s : ℕ) (d : A) (r : Tree A)
      → IsSized t
      → IsSized r
      → Leaves (rotated_left t k s d r)
  unfolding rotated_left
  rotated_left-Leaves t k s d leaf a b = (a, b)
  rotated_left-Leaves t k s d (node p q u v w) a b = (a, b)

  round_left-Leaves :
      (i : ℕ) (l : Tree A) (k s : ℕ) (d : A) (r : Tree A)
      → IsSized (node l k s d r)
      → Leaves (round_left i l k s d r)
  unfolding round_left
  round_left-Leaves i leaf k s d r h = (h.1, h.2)
  round_left-Leaves i (node ll lk ls ld lr) k s d r (e, (el, sl, sr), h) =
      elim (Bool-cases (ltb i lk)) [
        | inl t ↦ rw t (
            rotated_right-Leaves ll lk ls ld _ sl
              (rw (node_size-count lr sr, node_size-count r h) refl, sr, h))
        | inr n ↦ rw n (h, (el, sl, sr))
      ]

  round_right-Leaves :
      (i : ℕ) (l : Tree A) (k s : ℕ) (d : A) (r : Tree A)
      → IsSized (node l k s d r)
      → Leaves (round_right i l k s d r)
  unfolding round_right
  round_right-Leaves i l k s d leaf h = (h.1, h.2)
  round_right-Leaves i l k s d (node rl rk rs rd rr) (e, h, (er, sl, sr)) =
      elim (Bool-cases (ltb rk i)) [
        | inl t ↦ rw t (
            rotated_left-Leaves _ rk rs rd rr
              (rw (node_size-count l h, node_size-count rl sl) refl, h, sl) sr)
        | inr n ↦ rw n (h, (er, sl, sr))
      ]

  round-Leaves : (i : ℕ) (t : Tree A) → IsSized t → Leaves (round i t)
  unfolding round
  round-Leaves i leaf h = tt
  round-Leaves i (node l k s d r) h = elim (Bool-cases (ltb i k)) [
    | inl t ↦ rw t (round_left-Leaves i l k s d r h)
    | inr n ↦ elim (Bool-cases (ltb k i)) [
      | inl t ↦ rw (n, t) (round_right-Leaves i l k s d r h)
      | inr m ↦ rw (n, m) (h.1, h.2)
    ]
  ]

  left_path-count :
      (ys : List (Linked A)) (size : ℕ) (sub : Tree A)
      → All IsSizedLink ys
      → size ≡ linked_size ys + count sub
      → IsSized sub
      → (count (left_path ys size sub) ≡ size) × IsSized (left_path ys size sub)
  unfolding left_path linked_size count
  left_path-count [] size sub a e h = (omega (arith, e), h)
  left_path-count (y ∷ ys) size sub a e h =
      let side = node_size-count y.side a.0 in
      let (c, below) =
        left_path-count ys (size - (1 + node_size y.side)) sub a.1 (omega (arith, e)) h in
      (omega (arith, c, e, side), (omega (arith, c, e, side), a.0, below))

  right_path-count :
      (ys : List (Linked A)) (size : ℕ) (sub : Tree A)
      → All IsSizedLink ys
      → size ≡ linked_size ys + count sub
      → IsSized sub
      → (count (right_path ys size sub) ≡ size) × IsSized (right_path ys size sub)
  unfolding right_path linked_size count
  right_path-count [] size sub a e h = (omega (arith, e), h)
  right_path-count (y ∷ ys) size sub a e h =
      let side = node_size-count y.side a.0 in
      let (c, below) =
        right_path-count ys (size - (1 + node_size y.side)) sub a.1 (omega (arith, e)) h in
      (omega (arith, c, e, side), (omega (arith, c, e, side), below, a.0))

  assemble-IsSized :
      (ls rs : List (Linked A)) (t : Tree A)
      → All IsSizedLink ls
      → All IsSizedLink rs
      → Leaves (stop t)
      → IsSized (assemble ls rs t)
  unfolding assemble
  assemble-IsSized ls rs leaf a b h = tt
  assemble-IsSized ls rs (node l k s d r) a b h =
      let (cl, sl) =
        left_path-count ls (linked_size ls + node_size l) l a (omega (arith, node_size-count l h.0))
          h.0 in
      let (cr, sr) =
        right_path-count rs (linked_size rs + node_size r) r b
          (omega (arith, node_size-count r h.1)) h.1 in
      (omega (arith, cl, cr), sl, sr)

  after_round :
      (n i : ℕ) (u : Tree A) (ls rs : List (Linked A)) (t : Tree A) (r : Round A)
      → ((ls rs : List (Linked A)) (t : Tree A)
          → All IsSizedLink ls
          → All IsSizedLink rs
          → IsSized t
          → splay_loop n i ls rs t ≡ some u
          → IsSized u)
      → round i t ≡ r
      → Leaves r
      → All IsSizedLink ls
      → All IsSizedLink rs
      → splay_loop (suc n) i ls rs t ≡ some u
      → IsSized u
  unfolding splay_loop
  after_round n i u ls rs t (stop t') ih e h a b runs =
      let is : some (assemble ls rs t') ≡ some u = rw (e, splay_loop) at runs in
      let same : assemble ls rs t' ≡ u = cc is in rw same at (assemble-IsSized ls rs t' a b h)
  after_round n i u ls rs t (link_right y t') ih e (side, h) a b runs =
      ih ls (rs ++ y ∷ []) t' a (All-both _ rs (y ∷ []) b (side, tt)) h (rw (e, splay_loop) at runs)
  after_round n i u ls rs t (link_left y t') ih e (side, h) a b runs =
      ih (ls ++ y ∷ []) rs t' (All-both _ ls (y ∷ []) a (side, tt)) b h (rw (e, splay_loop) at runs)

  splay_loop-IsSized :
      (n i : ℕ) (u : Tree A) (ls rs : List (Linked A)) (t : Tree A)
      → All IsSizedLink ls
      → All IsSizedLink rs
      → IsSized t
      → splay_loop n i ls rs t ≡ some u
      → IsSized u
  unfolding splay_loop
  splay_loop-IsSized zero i u ls rs t a b h runs = cc runs
  splay_loop-IsSized (suc n) i u ls rs t a b h runs =
      after_round n i u ls rs t (round i t) (splay_loop-IsSized n i u) refl (round-Leaves i t h) a b
        runs

  insert_root-IsSized : (t : Tree A) (i : ℕ) (item : A) → IsSized t → IsSized (insert_root t i item)
  unfolding insert_root node_size count
  insert_root-IsSized leaf i item h = (refl, tt, tt)
  insert_root-IsSized (node l k s d r) i item (e, a, b) =
      let cl = node_size-count l a in
      let cr = node_size-count r b in
      elim (Bool-cases (i == k)) [
        | inl t ↦ rw t (e, a, b)
        | inr n ↦ elim (Bool-cases (ltb i k)) [
          | inl t ↦ rw (n, t) (omega (arith, cl, cr), a, (omega (arith, cr), tt, b))
          | inr m ↦ rw (n, m) (omega (arith, cl, cr), (omega (arith, cl), a, tt), b)
        ]
      ]

  -- Where each size field says how many nodes there are from its node on, this is so after splaying
  -- and after inserting, and both end.
  pub insert-IsSized :
      (t : Tree A) (i : ℕ) (item : A)
      → IsSized t
      → ((u : Tree A) × (splay t i ≡ some u) × IsSized u)
        × ((u : Tree A) × (insert t i item ≡ some u) × IsSized u)
  unfolding insert splay
  insert-IsSized t i item h =
      let (u, runs, same) = splay-inorder t i in
      let sized = splay_loop-IsSized (count t + 1) i u [] [] t tt tt h runs in
      (
        (u, runs, sized),
        (insert_root u i item, rw (runs, insert) refl, insert_root-IsSized u i item sized),
      )
