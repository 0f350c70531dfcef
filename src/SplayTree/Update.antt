-- ===== src/SplayTree/Update.antt =====
-- Inserting into and deleting from a search tree.
use mathlib.Core.Path.{subst}
use lighttpd_autothumb.Base.{
  ◌⊎◌, ℕ, zero, suc, ◌+◌, ◌<◌, ◌≡◌, refl, sym, ap, ◌∙◌, ◌≢◌, some, List, [], ◌∷◌, ◌++◌,
  append_assoc, arith, ltb, ◌==◌, Bool-cases, true, false, inl, inr, All, All-map, All-both,
  All-front,
}
use lighttpd_autothumb.SplayTree.{
  Tree, leaf, node, node_size, Linked, Round, stop, link_right, link_left, rotated_left,
  round_right, round, right_path, assemble, splay_loop, count, splay, insert_root, insert, hang,
  resized, delete_root, delete,
}
use lighttpd_autothumb.SplayTree.Order.{inorder, Inserted, insert_root-Inserted}
use lighttpd_autothumb.SplayTree.Search.{
  Below, Above, IsSearch, AtRoot, IsSorted, IsSearch-IsSorted, splay-AtRoot,
}

module _ {A : Type 0} where
  insert_root-IsSearch :
      (t : Tree A) (i : ℕ) (item : A) → IsSearch t → AtRoot i t → IsSearch (insert_root t i item)
  unfolding insert_root
  insert_root-IsSearch leaf i item h a = (tt, tt, tt, tt)
  insert_root-IsSearch (node l k s d r) i item h a = elim (Bool-cases (i == k)) [
    | inl t ↦ rw t h
    | inr n ↦ elim (Bool-cases (ltb i k)) [
      | inl t ↦ rw (n, t) (a.0, (ground (arith, t), a.1), h.2, (tt, h.1, tt, h.3))
      | inr m ↦
          let less : k < i = ground (arith, n, m) in
          rw (n, m)
            (All-both _ (inorder l) ((k, d) ∷ []) a.0 (less, tt), a.1, (h.0, tt, h.2, tt), h.3)
    ]
  ]

  -- Inserting into a search tree gives a search tree. Either the key was there and the entries are as
  -- they were, or the key and the item are put in among them.
  pub insert-IsSearch :
      (t : Tree A) (i : ℕ) (item : A)
      → IsSearch t
      → (u : Tree A) × (insert t i item ≡ some u) × IsSearch u × Inserted (inorder t) i item u
  unfolding insert
  insert-IsSearch t i item h =
      let (v, runs, same, search, root) = splay-AtRoot t i h in
      (
        insert_root v i item,
        rw (runs, insert) refl,
        insert_root-IsSearch v i item search root,
        subst (λ o. Inserted o i item (insert_root v i item)) same (insert_root-Inserted v i item),
      )

  -- The root is the last entry.
  abbrev IsLastRoot : Tree A → Type 0
  IsLastRoot leaf = Unit
  IsLastRoot (node l k s d leaf) = Unit
  IsLastRoot (node l k s d (node rl rk rs rd rr)) = ⊥

  -- A round of the search for a key above all of the tree.
  abbrev Climbs : ℕ → Round A → Type 0
  Climbs i (stop t') = IsLastRoot t'
  Climbs i (link_right y t') = ⊥
  Climbs i (link_left y t') = Below i (inorder t')

  round_right-Climbs :
      (i : ℕ) (l : Tree A) (k s : ℕ) (d : A) (r : Tree A)
      → Below i (inorder r)
      → Climbs i (round_right i l k s d r)
  unfolding round_right rotated_left
  round_right-Climbs i l k s d leaf b = tt
  round_right-Climbs i l k s d (node rl rk rs rd leaf) b =
      let (front, (less, back)) = All-front _ (inorder rl) ((rk, rd) ∷ []) b in
      let t : ltb rk i ≡ true = ground (arith, less) in rw t tt
  round_right-Climbs i l k s d (node rl rk rs rd (node a b c e f)) h =
      let (front, (less, back)) =
        All-front _ (inorder rl) ((rk, rd) ∷ inorder (node a b c e f)) h in
      let t : ltb rk i ≡ true = ground (arith, less) in rw t back

  round-Climbs : (i : ℕ) (t : Tree A) → Below i (inorder t) → Climbs i (round i t)
  unfolding round
  round-Climbs i leaf h = tt
  round-Climbs i (node l k s d r) h =
      let (front, (less, back)) = All-front _ (inorder l) ((k, d) ∷ inorder r) h in
      let n : ltb i k ≡ false = ground (arith, less) in
      let t : ltb k i ≡ true = ground (arith, less) in
      rw (n, t) (round_right-Climbs i l k s d r back)

  assemble-IsLastRoot :
      (ls : List (Linked A)) (t : Tree A) → IsLastRoot t → IsLastRoot (assemble ls [] t)
  unfolding assemble right_path
  assemble-IsLastRoot ls leaf h = tt
  assemble-IsLastRoot ls (node l k s d leaf) h = tt
  assemble-IsLastRoot ls (node l k s d (node rl rk rs rd rr)) h = absurd h

  last_round :
      (n i : ℕ) (u : Tree A) (ls : List (Linked A)) (t : Tree A) (r : Round A)
      → ((ls : List (Linked A)) (t : Tree A)
          → Below i (inorder t)
          → splay_loop n i ls [] t ≡ some u
          → IsLastRoot u)
      → round i t ≡ r
      → Climbs i r
      → splay_loop (suc n) i ls [] t ≡ some u
      → IsLastRoot u
  unfolding splay_loop
  last_round n i u ls t (stop t') ih e h runs =
      let is : some (assemble ls [] t') ≡ some u = rw (e, splay_loop) at runs in
      let same : assemble ls [] t' ≡ u = cc is in rw same at (assemble-IsLastRoot ls t' h)
  last_round n i u ls t (link_right y t') ih e h runs = absurd h
  last_round n i u ls t (link_left y t') ih e h runs =
      ih (ls ++ y ∷ []) t' h (rw (e, splay_loop) at runs)

  splay_loop-IsLastRoot :
      (n i : ℕ) (u : Tree A) (ls : List (Linked A)) (t : Tree A)
      → Below i (inorder t)
      → splay_loop n i ls [] t ≡ some u
      → IsLastRoot u
  unfolding splay_loop
  splay_loop-IsLastRoot zero i u ls t h runs = cc runs
  splay_loop-IsLastRoot (suc n) i u ls t h runs =
      last_round n i u ls t (round i t) (splay_loop-IsLastRoot n i u) refl (round-Climbs i t h) runs

  abbrev pub Misses : ℕ → List (ℕ × A) → Type 0
  Misses k es = All (λ e. e.0 ≢ k) es

  -- Either no entry has the key and all is as it was, or an entry of the key is taken out.
  abbrev pub Deleted : List (ℕ × A) → ℕ → List (ℕ × A) → Type 0
  Deleted before i after =
      ((after ≡ before) × Misses i before)
      ⊎ ((item : A) × (front : List (ℕ × A)) × (back : List (ℕ × A)) × (before
            ≡ front ++ (i, item) ∷ back)
          × (after ≡ front ++ back))

  not_nil : (xs : List (ℕ × A)) (e : ℕ × A) (ys : List (ℕ × A)) → xs ++ e ∷ ys ≢ []
  not_nil [] e ys h = cc h
  not_nil (x ∷ xs) e ys h = cc h

  hang-inorder :
      (n : ℕ) (x r : Tree A)
      → IsLastRoot x
      → inorder x ≢ []
      → inorder (hang n x r) ≡ inorder x ++ inorder r
  unfolding hang
  hang-inorder n leaf r h ne = absurd (ne refl)
  hang-inorder n (node l k s d leaf) r h ne =
      sym (append_assoc (inorder l) ((k, d) ∷ []) (inorder r))
  hang-inorder n (node l k s d (node a b c e f)) r h ne = absurd h

  resized-inorder : (n : ℕ) (t : Tree A) → inorder (resized n t) ≡ inorder t
  unfolding resized
  resized-inorder n leaf = refl
  resized-inorder n (node l k s d r) = refl

  missed :
      (i : ℕ) (l : Tree A) (k : ℕ) (d : A) (r : Tree A)
      → (i == k) ≡ false
      → Below i (inorder l)
      → Above i (inorder r)
      → Misses i (inorder l ++ (k, d) ∷ inorder r)
  missed i l k d r n b a =
      All-both _ (inorder l) ((k, d) ∷ inorder r)
        (All-map _ _ (inorder l) (λ e h q. omega (arith, h, q)) b)
        ((λ q. ground (arith, n, q)), All-map _ _ (inorder r) (λ e h q. omega (arith, h, q)) a)

  delete_root-Deleted :
      (n i : ℕ) (t : Tree A)
      → IsSearch t
      → AtRoot i t
      → (u : Tree A) × (delete_root n i t ≡ some u) × Deleted (inorder t) i (inorder u)
  unfolding delete_root splay
  delete_root-Deleted n i leaf h a = (leaf, refl, inl (refl, tt))
  delete_root-Deleted n i (node leaf k s d r) h a = elim (Bool-cases (i == k)) [
    | inl t ↦
        let e : i ≡ k = ground (arith, t) in
        (resized n r, rw t refl, inr (d, [], inorder r, rw e refl, resized-inorder n r))
    | inr m ↦ (node leaf k s d r, rw m refl, inl (refl, missed i leaf k d r m a.0 a.1))
  ]
  delete_root-Deleted n i (node (node ll lk ls ld lr) k s d r) h a = elim (Bool-cases (i == k)) [
    | inl t ↦
        let l = node ll lk ls ld lr in
        let e : i ≡ k = ground (arith, t) in
        let (x, runs, same, search, root) = splay-AtRoot l i h.2 in
        let last = splay_loop-IsLastRoot (count l + 1) i x [] l a.0 runs in
        let ne : inorder x ≢ [] = λ z. not_nil (inorder ll) (lk, ld) (inorder lr) (sym same ∙ z) in
        (
          hang n x r,
          rw (t, runs) refl,
          inr (
            d,
            inorder l,
            inorder r,
            rw e refl,
            hang-inorder n x r last ne ∙ ap (λ o. o ++ inorder r) same,
          ),
        )
    | inr m ↦ (
      node (node ll lk ls ld lr) k s d r,
      rw m refl,
      inl (refl, missed i (node ll lk ls ld lr) k d r m a.0 a.1),
    )
  ]

  without :
      (xs : List (ℕ × A)) (e : ℕ × A) (ys : List (ℕ × A))
      → IsSorted (xs ++ e ∷ ys)
      → IsSorted (xs ++ ys)
  without [] e ys s = s.1
  without (x ∷ xs) e ys s =
      let (a, b) = All-front _ xs (e ∷ ys) s.0 in (All-both _ xs ys a b.1, without xs e ys s.1)

  Deleted-IsSorted :
      (before after : List (ℕ × A)) (i : ℕ)
      → Deleted before i after
      → IsSorted before
      → IsSorted after
  Deleted-IsSorted before after i (inl (e, m)) s = rw e s
  Deleted-IsSorted before after i (inr (item, front, back, e, f)) s =
      rw f (without front (i, item) back (rw e at s))

  -- Deleting from a search tree ends and gives a search tree. Either the key was not there and the
  -- entries are as they were, or the entry of the key is taken out of them.
  pub delete-IsSearch :
      (t : Tree A) (i : ℕ)
      → IsSearch t
      → (u : Tree A) × (delete t i ≡ some u) × IsSearch u × Deleted (inorder t) i (inorder u)
  unfolding delete
  delete-IsSearch t i h =
      let (v, runs, same, search, root) = splay-AtRoot t i h in
      let (u, ends, gone) = delete_root-Deleted (node_size t) i v search root in
      let less : Deleted (inorder t) i (inorder u) =
        subst (λ o. Deleted o i (inorder u)) same gone in
      (
        u,
        rw (runs, delete) ends,
        (IsSearch-IsSorted u).1
            (Deleted-IsSorted (inorder t) (inorder u) i less ((IsSearch-IsSorted t).0 h)),
        less,
      )
