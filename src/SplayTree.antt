-- ===== src/SplayTree.antt =====
-- The splay tree of src/splaytree.c, which src/stat_cache.c searches by a hash.
-- A key is a hash without its sign bit, so the difference that `compare` takes does not overflow. The
-- nodes that the loop links below `N` are two lists, the one linked first in front.
pub mod Order
pub mod Search
pub mod Update
pub mod Size
use lighttpd_autothumb.Base.{
  ℕ, zero, suc, ◌+◌, ◌-◌, Option, none, some, List, [], ◌∷◌, ◌++◌, ltb, ◌==◌, if◌then◌else◌,
}

pub data Tree (A : Type 0) : Type 0 where
  leaf : Tree A
  node : Tree A → ℕ → ℕ → A → Tree A → Tree A

-- `node_size`: what the field says, and 0 for NULL.
unfoldable pub node_size : {A : Type 0} → Tree A → ℕ
node_size leaf = 0
node_size (node left key size item right) = size

-- A node that is linked below `N`, with the subtree that it keeps.
pub record Linked (A : Type 0) : Type 0 where
  pub key : ℕ
  pub item : A
  pub side : Tree A

-- What one round of the loop does with `t`: it ends, or it links a node to the right or to the left
-- and goes on with a subtree.
pub data Round (A : Type 0) : Type 0 where
  stop : Tree A → Round A
  link_right link_left : Linked A → Tree A → Round A

module _ {A : Type 0} where
  -- After the rotation to the right: `y` has the key `k'` and the left subtree `left`, and `t` is its right one.
  unfoldable pub rotated_right : Tree A → ℕ → ℕ → A → Tree A → Round A
  rotated_right leaf k' s' d' t = stop (node leaf k' s' d' t)
  rotated_right (node l k s d r) k' s' d' t =
      link_right (record { key = k'; item = d'; side = t }) (node l k s d r)

  unfoldable pub rotated_left : Tree A → ℕ → ℕ → A → Tree A → Round A
  rotated_left t k' s' d' leaf = stop (node t k' s' d' leaf)
  rotated_left t k' s' d' (node l k s d r) =
      link_left (record { key = k'; item = d'; side = t }) (node l k s d r)

  -- The branch `comp < 0`, by the left subtree of `t`.
  unfoldable pub round_left : ℕ → Tree A → ℕ → ℕ → A → Tree A → Round A
  round_left i leaf k s d r = stop (node leaf k s d r)
  round_left i (node ll lk ls ld lr) k s d r =
      if ltb i lk
      then rotated_right ll lk ls ld (node lr k (node_size lr + node_size r + 1) d r)
      else link_right (record { key = k; item = d; side = r }) (node ll lk ls ld lr)

  -- The branch `comp > 0`, by the right subtree of `t`.
  unfoldable pub round_right : ℕ → Tree A → ℕ → ℕ → A → Tree A → Round A
  round_right i l k s d leaf = stop (node l k s d leaf)
  round_right i l k s d (node rl rk rs rd rr) =
      if ltb rk i
      then rotated_left (node l k (node_size l + node_size rl + 1) d rl) rk rs rd rr
      else link_left (record { key = k; item = d; side = l }) (node rl rk rs rd rr)

  unfoldable pub round : ℕ → Tree A → Round A
  round i leaf = stop leaf
  round i (node l k s d r) =
      if ltb i k
      then round_left i l k s d r
      else if ltb k i
      then round_right i l k s d r
      else stop (node l k s d r)

  -- The loops that correct the sizes along the two paths, and the assembling below them.
  unfoldable pub left_path : List (Linked A) → ℕ → Tree A → Tree A
  left_path [] size sub = sub
  left_path (y ∷ ys) size sub =
      node y.side y.key size y.item (left_path ys (size - (1 + node_size y.side)) sub)

  unfoldable pub right_path : List (Linked A) → ℕ → Tree A → Tree A
  right_path [] size sub = sub
  right_path (y ∷ ys) size sub =
      node (right_path ys (size - (1 + node_size y.side)) sub) y.key size y.item y.side

  -- What `l_size` and `r_size` have counted in the loop.
  unfoldable pub linked_size : List (Linked A) → ℕ
  linked_size [] = 0
  linked_size (y ∷ ys) = (1 + node_size y.side) + linked_size ys

  -- From the end of the loop to the result.
  unfoldable pub assemble : List (Linked A) → List (Linked A) → Tree A → Tree A
  assemble ls rs leaf = leaf
  assemble ls rs (node l k s d r) =
      let l_size = linked_size ls + node_size l in
      let r_size = linked_size rs + node_size r in
      node (left_path ls l_size l) k (l_size + r_size + 1) d (right_path rs r_size r)

  -- `for (;;)`, with the rounds that are left.
  unfoldable pub splay_loop : ℕ → ℕ → List (Linked A) → List (Linked A) → Tree A → Option (Tree A)
  splay_loop zero i ls rs t = none
  splay_loop (suc rounds) i ls rs t = elim (round i t) [
    | stop t' ↦ some (assemble ls rs t')
    | link_right y t' ↦ splay_loop rounds i ls (rs ++ y ∷ []) t'
    | link_left y t' ↦ splay_loop rounds i (ls ++ y ∷ []) rs t'
  ]

  -- The nodes that are there, whatever the field `size` says.
  unfoldable pub count : Tree A → ℕ
  count leaf = 0
  count (node l k s d r) = count l + count r + 1

  -- `splaytree_splay`: a round for each node, and one, are enough.
  unfoldable pub splay : Tree A → ℕ → Option (Tree A)
  splay t i = splay_loop (count t + 1) i [] [] t

  -- The part of `splaytree_insert` behind the call of `splaytree_splay`.
  unfoldable pub insert_root : Tree A → ℕ → A → Tree A
  insert_root leaf i item = node leaf i 1 item leaf
  insert_root (node l k s d r) i item =
      if i == k
      then node l k s d r
      else if ltb i k
      then (let right = node leaf k (1 + node_size r) d r in
          node l i (1 + node_size l + node_size right) item right)
      else (let left = node l k (1 + node_size l) d leaf in
          node left i (1 + node_size left + node_size r) item r)

  unfoldable pub insert : Tree A → ℕ → A → Option (Tree A)
  insert t i item = elim (splay t i) [ none ↦ none | some t' ↦ some (insert_root t' i item) ]

  -- `x->right = t->right` and `x->size = tsize - 1`.
  unfoldable pub hang : ℕ → Tree A → Tree A → Tree A
  hang tsize leaf right = leaf
  hang tsize (node l k s d r) right = node l k (tsize - 1) d right

  -- The result where the left subtree is NULL, with its size set.
  unfoldable pub resized : ℕ → Tree A → Tree A
  resized tsize leaf = leaf
  resized tsize (node l k s d r) = node l k (tsize - 1) d r

  unfoldable pub delete_root : ℕ → ℕ → Tree A → Option (Tree A)
  delete_root tsize i leaf = some leaf
  delete_root tsize i (node leaf k s d r) =
      if i == k then some (resized tsize r) else some (node leaf k s d r)
  delete_root tsize i (node (node ll lk ls ld lr) k s d r) =
      if i == k
      then elim (splay (node ll lk ls ld lr) i) [ none ↦ none | some x ↦ some (hang tsize x r) ]
      else some (node (node ll lk ls ld lr) k s d r)

  -- `splaytree_delete`.
  unfoldable pub delete : Tree A → ℕ → Option (Tree A)
  delete t i = elim (splay t i) [ none ↦ none | some t' ↦ delete_root (node_size t) i t' ]
