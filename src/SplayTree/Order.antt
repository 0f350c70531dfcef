-- ===== src/SplayTree/Order.antt =====
-- Splaying moves nodes about and keeps their order; it ends within its rounds.
use mathlib.Core.Path.{subst}
use lighttpd_autothumb.Base.{
  ◌⊎◌, ℕ, zero, suc, ◌+◌, ◌-◌, ◌<◌, ◌≡◌, refl, sym, ap, ◌∙◌, Option, some, List, [], ◌∷◌, ◌++◌,
  append-nil, append_assoc, arith, ltb, ◌==◌, Bool-cases, inl, inr,
}
use lighttpd_autothumb.SplayTree.{
  Tree, leaf, node, node_size, Linked, Round, stop, link_right, link_left, rotated_right,
  rotated_left, round_left, round_right, round, left_path, right_path, linked_size, assemble,
  splay_loop, count, splay, insert_root, insert,
}

module _ {A : Type 0} where
  -- The keys with their items, in the order of the tree.
  abbrev pub inorder : Tree A → List (ℕ × A)
  inorder leaf = []
  inorder (node l k s d r) = inorder l ++ (k, d) ∷ inorder r

  abbrev pub left_items : List (Linked A) → List (ℕ × A)
  left_items [] = []
  left_items (y ∷ ys) = inorder y.side ++ (y.key, y.item) ∷ left_items ys

  abbrev pub right_items : List (Linked A) → List (ℕ × A)
  right_items [] = []
  right_items (y ∷ ys) = right_items ys ++ (y.key, y.item) ∷ inorder y.side

  pub left_path-inorder :
      (ys : List (Linked A)) (size : ℕ) (sub : Tree A)
      → inorder (left_path ys size sub) ≡ left_items ys ++ inorder sub
  unfolding left_path
  left_path-inorder [] size sub = refl
  left_path-inorder (y ∷ ys) size sub =
      rw (left_path-inorder ys (size - (1 + node_size y.side)) sub)
        (sym (append_assoc (inorder y.side) ((y.key, y.item) ∷ left_items ys) (inorder sub)))

  pub right_path-inorder :
      (ys : List (Linked A)) (size : ℕ) (sub : Tree A)
      → inorder (right_path ys size sub) ≡ inorder sub ++ right_items ys
  unfolding right_path
  right_path-inorder [] size sub = sym (append-nil (inorder sub))
  right_path-inorder (y ∷ ys) size sub =
      rw (right_path-inorder ys (size - (1 + node_size y.side)) sub)
        (append_assoc (inorder sub) (right_items ys) ((y.key, y.item) ∷ inorder y.side))

  pub left_items-append :
      (ys : List (Linked A)) (y : Linked A)
      → left_items (ys ++ y ∷ []) ≡ left_items ys ++ (inorder y.side ++ (y.key, y.item) ∷ [])
  left_items-append [] y = refl
  left_items-append (x ∷ ys) y =
      rw (left_items-append ys y)
        (sym (append_assoc (inorder x.side) ((x.key, x.item) ∷ left_items ys) _))

  pub right_items-append :
      (ys : List (Linked A)) (y : Linked A)
      → right_items (ys ++ y ∷ []) ≡ ((y.key, y.item) ∷ inorder y.side) ++ right_items ys
  right_items-append [] y = sym (append-nil ((y.key, y.item) ∷ inorder y.side))
  right_items-append (x ∷ ys) y = rw (right_items-append ys y) (
      append_assoc ((y.key, y.item) ∷ inorder y.side) (right_items ys)
        ((x.key, x.item) ∷ inorder x.side))

  abbrev pub IsNode : Tree A → Type 0
  IsNode leaf = ⊥
  IsNode (node l k s d r) = Unit

  -- A round keeps the order, and leaves fewer nodes to go on with.
  abbrev pub Keeps : Tree A → Round A → Type 0
  Keeps t (stop t') = (inorder t' ≡ inorder t) × IsNode t'
  Keeps t (link_right y t') =
      (inorder t ≡ inorder t' ++ (y.key, y.item) ∷ inorder y.side)
      × (count t' < count t)
      × IsNode t'
  Keeps t (link_left y t') =
      (inorder t ≡ inorder y.side ++ (y.key, y.item) ∷ inorder t')
      × (count t' < count t)
      × IsNode t'

  -- The order of the three parts around a rotation.
  turned : (l m r : List (ℕ × A)) (a b : ℕ × A) → (l ++ a ∷ m) ++ b ∷ r ≡ l ++ a ∷ (m ++ b ∷ r)
  turned l m r a b = append_assoc l (a ∷ m) (b ∷ r)

  round_left-Keeps :
      (i : ℕ) (l : Tree A) (k s : ℕ) (d : A) (r : Tree A)
      → Keeps (node l k s d r) (round_left i l k s d r)
  unfolding round_left rotated_right count
  round_left-Keeps i leaf k s d r = (refl, tt)
  round_left-Keeps i (node leaf lk ls ld lr) k s d r = elim (Bool-cases (ltb i lk)) [
    | inl t ↦ rw t (refl, tt)
    | inr n ↦ rw n (refl, omega arith, tt)
  ]
  round_left-Keeps i (node (node a ak as' ad ar) lk ls ld lr) k s d r =
      elim (Bool-cases (ltb i lk)) [
        | inl t ↦ rw t (
          turned (inorder (node a ak as' ad ar)) (inorder lr) (inorder r) (lk, ld) (k, d),
          omega arith,
          tt,
        )
        | inr n ↦ rw n (refl, omega arith, tt)
      ]

  round_right-Keeps :
      (i : ℕ) (l : Tree A) (k s : ℕ) (d : A) (r : Tree A)
      → Keeps (node l k s d r) (round_right i l k s d r)
  unfolding round_right rotated_left count
  round_right-Keeps i l k s d leaf = (refl, tt)
  round_right-Keeps i l k s d (node rl rk rs rd leaf) = elim (Bool-cases (ltb rk i)) [
    | inl t ↦ rw t (turned (inorder l) (inorder rl) [] (k, d) (rk, rd), tt)
    | inr n ↦ rw n (refl, omega arith, tt)
  ]
  round_right-Keeps i l k s d (node rl rk rs rd (node a ak as' ad ar)) =
      elim (Bool-cases (ltb rk i)) [
        | inl t ↦ rw t (
          sym (turned (inorder l) (inorder rl) (inorder (node a ak as' ad ar)) (k, d) (rk, rd)),
          omega arith,
          tt,
        )
        | inr n ↦ rw n (refl, omega arith, tt)
      ]

  pub round-Keeps : (i : ℕ) (t : Tree A) → IsNode t → Keeps t (round i t)
  unfolding round
  round-Keeps i leaf h = absurd h
  round-Keeps i (node l k s d r) h = elim (Bool-cases (ltb i k)) [
    | inl t ↦ rw t (round_left-Keeps i l k s d r)
    | inr n ↦ elim (Bool-cases (ltb k i)) [
      | inl t ↦ rw (n, t) (round_right-Keeps i l k s d r)
      | inr m ↦ rw (n, m) (refl, tt)
    ]
  ]

  assemble-inorder :
      (ls rs : List (Linked A)) (l : Tree A) (k s : ℕ) (d : A) (r : Tree A)
      → inorder (assemble ls rs (node l k s d r))
        ≡ left_items ls ++ (inorder (node l k s d r) ++ right_items rs)
  unfolding assemble
  assemble-inorder ls rs l k s d r =
      rw
        (
          left_path-inorder ls (linked_size ls + node_size l) l,
          right_path-inorder rs (linked_size rs + node_size r) r,
        )
        (append_assoc (left_items ls) (inorder l) ((k, d) ∷ (inorder r ++ right_items rs))
          ∙ ap (λ t. left_items ls ++ t)
              (sym (append_assoc (inorder l) ((k, d) ∷ inorder r) (right_items rs))))

  assemble_node-inorder :
      (ls rs : List (Linked A)) (t : Tree A)
      → IsNode t
      → inorder (assemble ls rs t) ≡ left_items ls ++ (inorder t ++ right_items rs)
  assemble_node-inorder ls rs leaf h = absurd h
  assemble_node-inorder ls rs (node l k s d r) h = assemble-inorder ls rs l k s d r

  -- The loop gives a tree, with the items on the left, in the middle and on the right.
  abbrev Splays : Option (Tree A) → List (ℕ × A) → Type 0
  Splays result items = (t' : Tree A) × (result ≡ some t') × (inorder t' ≡ items)

  after_round :
      (n i : ℕ) (ls rs : List (Linked A)) (t : Tree A) (r : Round A)
      → ((ls rs : List (Linked A)) (t : Tree A)
          → IsNode t
          → count t < n
          → Splays (splay_loop n i ls rs t) (left_items ls ++ (inorder t ++ right_items rs)))
      → round i t ≡ r
      → Keeps t r
      → count t < suc n
      → Splays (splay_loop (suc n) i ls rs t) (left_items ls ++ (inorder t ++ right_items rs))
  unfolding splay_loop
  after_round n i ls rs t (stop t') ih e (o, h) c =
      rw (e, splay_loop) (assemble ls rs t', refl, assemble_node-inorder ls rs t' h ∙ rw o refl)
  after_round n i ls rs t (link_right y t') ih e (o, less, h) c =
      let (u, runs, is) = ih ls (rs ++ y ∷ []) t' h (omega (arith, c, less)) in
      rw (e, splay_loop) (u, runs, is ∙ rw (right_items-append rs y, o) (simp append_assoc))
  after_round n i ls rs t (link_left y t') ih e (o, less, h) c =
      let (u, runs, is) = ih (ls ++ y ∷ []) rs t' h (omega (arith, c, less)) in
      rw (e, splay_loop) (u, runs, is ∙ rw (left_items-append ls y, o) (simp append_assoc))

  rounds_enough :
      (n i : ℕ) (ls rs : List (Linked A)) (t : Tree A)
      → IsNode t
      → count t < n
      → Splays (splay_loop n i ls rs t) (left_items ls ++ (inorder t ++ right_items rs))
  rounds_enough zero i ls rs t h c = absurd (omega (arith, c))
  rounds_enough (suc n) i ls rs t h c =
      after_round n i ls rs t (round i t) (rounds_enough n i) refl (round-Keeps i t h) c

  -- Splaying ends within its rounds, and the tree it gives has the same keys and items in the same
  -- order.
  pub splay-inorder :
      (t : Tree A) (i : ℕ) → (t' : Tree A) × (splay t i ≡ some t') × (inorder t' ≡ inorder t)
  unfolding splay splay_loop round assemble count
  splay-inorder leaf i = (leaf, refl, refl)
  splay-inorder (node l k s d r) i =
      let (u, runs, is) =
        rounds_enough (count (node l k s d r) + 1) i [] [] (node l k s d r) tt (omega arith) in
      (u, runs, is ∙ append-nil (inorder (node l k s d r)))

  -- Either the key was there, and the order is as it was, or the key and the item are put in at one
  -- place of the order and nothing else changes.
  abbrev pub Inserted : List (ℕ × A) → ℕ → A → Tree A → Type 0
  Inserted before i item t' =
      ((inorder t' ≡ before)
        × ((old : A) × (front : List (ℕ × A)) × (back : List (ℕ × A)) × (before
              ≡ front ++ (i, old) ∷ back)))
      ⊎ ((front : List (ℕ × A)) × (back : List (ℕ × A)) × (before ≡ front ++ back)
          × (inorder t' ≡ front ++ (i, item) ∷ back))

  pub insert_root-Inserted :
      (t : Tree A) (i : ℕ) (item : A) → Inserted (inorder t) i item (insert_root t i item)
  unfolding insert_root
  insert_root-Inserted leaf i item = inr ([], [], refl, refl)
  insert_root-Inserted (node l k s d r) i item = elim (Bool-cases (i == k)) [
    | inl t ↦
        rw t (inl (refl, (d, inorder l, inorder r, (let e : i ≡ k = ground arith in rw e refl))))
    | inr n ↦ elim (Bool-cases (ltb i k)) [
      | inl t ↦ rw (n, t) (inr (inorder l, (k, d) ∷ inorder r, refl, refl))
      | inr m ↦
          rw (n, m)
            (inr (
              inorder l ++ (k, d) ∷ [],
              inorder r,
              sym (append_assoc (inorder l) ((k, d) ∷ []) (inorder r)),
              refl,
            ))
    ]
  ]

  -- Inserting ends, and either the key was there and the order is as it was, or the key and the item
  -- are put in at one place of the order and nothing else changes.
  pub insert-Inserted :
      (t : Tree A) (i : ℕ) (item : A)
      → (t' : Tree A) × (insert t i item ≡ some t') × Inserted (inorder t) i item t'
  unfolding insert
  insert-Inserted t i item =
      let (u, runs, is) = splay-inorder t i in
      (
        insert_root u i item,
        rw (runs, insert) refl,
        subst (λ o. Inserted o i item (insert_root u i item)) is (insert_root-Inserted u i item),
      )
