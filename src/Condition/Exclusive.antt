-- ===== src/Condition/Exclusive.antt =====
-- Of the blocks of a chain of `if` and `else` at most one holds.
use lighttpd_autothumb.Condition.Rule.{CondResult, undecided, failed, holds, Block}
use lighttpd_autothumb.Condition.{
  Cache, update, fail_all, Context, check_own, after_prev, check_prev, after_parent, check_parent,
  store, check_uncached, check_cached, check_cond,
}
use lighttpd_autothumb.Base.{
  ℕ, zero, suc, ◌+◌, ◌<◌, ◌≡◌, refl, sym, ◌∙◌, ◌≢◌, ◌⊎◌, inl, inr, true, false, Option, none, some,
  List, [], ◌∷◌, arith, ◌==◌, ==_iff, Bool-cases,
}

abbrev pub Has : ℕ → List ℕ → Type 0
Has k [] = ⊥
Has k (x ∷ xs) = (k ≡ x) ⊎ Has k xs

-- As the parser of the configuration numbers the blocks: a block comes behind the one around it and
-- behind the one in front of it, and those behind it in its chain are in the same block and have
-- one in front of them.
pub record IsOrdered (block : ℕ → Block) : Type 0 where
  pub parent_lt : (n p : ℕ) → (block n).parent ≡ some p → p < n
  pub prev_lt : (n b : ℕ) → (block n).prev ≡ some b → b < n
  pub follows :
      (i j : ℕ)
      → Has j (block i).followers
      → (i < j) × ((block j).parent ≡ (block i).parent) × ((block j).prev ≢ none)

-- A block that holds has decided all those behind it.
abbrev pub Exclusive : (ℕ → Block) → Cache → Type 0
Exclusive block cache = (i j : ℕ) → cache i ≡ holds → Has j (block i).followers → cache j ≡ failed

-- No block behind `n` has come to hold.
abbrev NoNew : ℕ → Cache → Cache → Type 0
NoNew n c c' = (i : ℕ) → n < i → c' i ≡ holds → c i ≡ holds

-- None of the blocks in front of `n` holds.
abbrev Clear : (ℕ → Block) → ℕ → Cache → Type 0
Clear block n c = (i : ℕ) → Has n (block i).followers → c i ≢ holds

fail_all-holds : (l : List ℕ) (c : Cache) (i : ℕ) → fail_all l c i ≡ holds → c i ≡ holds
unfolding fail_all
fail_all-holds [] c i h = h
fail_all-holds (x ∷ l) c i h = ground (arith, fail_all-holds l (update c x failed) i h)

fail_all-failed : (l : List ℕ) (c : Cache) (i : ℕ) → c i ≡ failed → fail_all l c i ≡ failed
unfolding fail_all
fail_all-failed [] c i h = h
fail_all-failed (x ∷ l) c i h = fail_all-failed l (update c x failed) i (ground (arith, h))

fail_all-Has : (l : List ℕ) (c : Cache) (i : ℕ) → Has i l → fail_all l c i ≡ failed
unfolding fail_all
fail_all-Has [] c i h = absurd h
fail_all-Has (x ∷ l) c i (inl e) = fail_all-failed l (update c x failed) i (ground (arith, e))
fail_all-Has (x ∷ l) c i (inr h) = fail_all-Has l (update c x failed) i h

-- What a check keeps.
abbrev Kept : (ℕ → Block) → ℕ → Cache → Cache → Type 0
Kept block n c c' = Exclusive block c' × NoNew n c c'

abbrev Keeping : (ℕ → Block) → (ℕ → Cache → CondResult × Cache) → Type 0
Keeping block check = (m : ℕ) (c : Cache) → Exclusive block c → Kept block m c (check m c).1

-- What a result says of the blocks in front.
abbrev Says : (ℕ → Block) → ℕ → Cache → CondResult × Cache → Type 0
Says block n c (r, c') = Kept block n c c' × (r ≢ failed → Clear block n c')

update_holds :
    (c : Cache) (n i : ℕ) (r : CondResult) → r ≢ holds → update c n r i ≡ holds → c i ≡ holds
update_holds c n i r ne h = elim (Bool-cases (i == n)) [
  | inl t ↦ absurd (ne (rw t at h))
  | inr f ↦ rw f at h
]

update_other : (c : Cache) (n i : ℕ) (r : CondResult) → (i == n) ≡ false → update c n r i ≡ c i
update_other c n i r f = rw f refl

update_same : (c : Cache) (n : ℕ) (r : CondResult) → update c n r n ≡ r
update_same c n r = rw ((==_iff n n).1 refl) refl

module _ (block : ℕ → Block) where
  -- A block in front of `n` that holds, where `n` is to be decided otherwise than to have failed.
  not_clear :
      (n i j : ℕ) (r : CondResult) (c c' : Cache)
      → Says block n c (r, c')
      → r ≢ failed
      → c' i ≡ holds
      → Has j (block i).followers
      → (j == n) ≡ true
      → ⊥
  not_clear n i j r c c' s ne h k t = s.1 ne i (rw (← (==_iff j n).0 t) k) h

  update-Kept :
      (n : ℕ) (r : CondResult) (c c' : Cache)
      → r ≢ holds
      → Says block n c (r, c')
      → Kept block n c (update c' n r)
  update-Kept n r c c' ne s = (
    (λ i j h k.
        let hi = update_holds c' n i r ne h in
        elim (Bool-cases (j == n)) [
          | inl t ↦ rw t (decided i j r s ne hi k t)
          | inr f ↦ update_other c' n j r f ∙ s.0.0 i j hi k
        ]),
    (λ i lt h. s.0.1 i lt (update_holds c' n i r ne h)),
  )
    where
      decided :
          (i j : ℕ) (q : CondResult)
          → Says block n c (q, c')
          → q ≢ holds
          → c' i ≡ holds
          → Has j (block i).followers
          → (j == n) ≡ true
          → q ≡ failed
      decided i j failed s ne hi k t = refl
      decided i j undecided s ne hi k t =
          absurd (not_clear n i j undecided c c' s (λ e. cc e) hi k t)
      decided i j holds s ne hi k t = absurd (ne refl)

  fail-Kept :
      (n : ℕ) (c c' : Cache)
      → Says block n c (holds, c')
      → Kept block n c (fail_all (block n).followers (update c' n holds))
  fail-Kept n c c' s = (
    (λ i j h k.
        let u = fail_all-holds (block n).followers (update c' n holds) i h in
        elim (Bool-cases (i == n)) [
          | inl t ↦ fail_all-Has (block n).followers _ j (rw (← (==_iff i n).0 t) k)
          | inr f ↦
              let hi = sym (update_other c' n i holds f) ∙ u in
              elim (Bool-cases (j == n)) [
                | inl t ↦ absurd (not_clear n i j holds c c' s (λ e. cc e) hi k t)
                | inr g ↦
                    fail_all-failed (block n).followers (update c' n holds) j
                      (update_other c' n j holds g ∙ s.0.0 i j hi k)
              ]
        ]),
    (λ i lt h. s.0.1 i lt (
        sym (update_other c' n i holds (ground (arith, lt)))
        ∙ fail_all-holds (block n).followers (update c' n holds) i h)),
  )

module _ (ctx : Context) (ordered : IsOrdered ctx.block) where
  store-Kept :
      (n : ℕ) (c : Cache) (r : CondResult) (c' : Cache)
      → Says ctx.block n c (r, c')
      → Kept ctx.block n c (store ctx n (r, c'))
  unfolding store
  store-Kept n c holds c' s = fail-Kept ctx.block n c c' s
  store-Kept n c failed c' s = update-Kept ctx.block n failed c c' (λ e. cc e) s
  store-Kept n c undecided c' s = update-Kept ctx.block n undecided c c' (λ e. cc e) s

  -- Where `n` is not decided, no block in front of it holds.
  undecided-Clear : (n : ℕ) (c : Cache) → Exclusive ctx.block c → c n ≢ failed → Clear ctx.block n c
  undecided-Clear n c e u i k h = u (e i n h k)

  prev-Says :
      (check : ℕ → Cache → CondResult × Cache)
      → Keeping ctx.block check
      → (o : Option ℕ) (n : ℕ) (c : Cache) → (ctx.block n).prev ≡ o
      → Exclusive ctx.block c
      → Says ctx.block n c (check_prev check ctx o n c)
  unfolding check_prev after_prev
  prev-Says check keep none n c p e =
      ((e, λ i lt h. h), λ ne i k. absurd ((ordered.follows i n k).2 p))
  prev-Says check keep (some b) n c p e =
      let (e', new) = keep b c e in
      let lt = ordered.prev_lt n b p in
      after ((check b c).1 n) refl (e', λ i l h. new i (omega (arith, lt, l)) h)
    where
      after :
          (r : CondResult)
          → (check b c).1 n ≡ r
          → Kept ctx.block n c (check b c).1
          → Says ctx.block n c (elim r [
            | failed ↦ (failed, (check b c).1)
            | undecided ↦ (check_own ctx n, (check b c).1)
            | holds ↦ (check_own ctx n, (check b c).1)
          ])
      after failed q k = (k, λ ne. absurd (ne refl))
      after undecided q k = (k, λ ne. undecided-Clear n (check b c).1 k.0 (λ z. cc (z, q)))
      after holds q k = (k, λ ne. undecided-Clear n (check b c).1 k.0 (λ z. cc (z, q)))

  parent-Says :
      (check : ℕ → Cache → CondResult × Cache)
      → Keeping ctx.block check
      → (o : Option ℕ) (n : ℕ) (c : Cache) → (ctx.block n).parent ≡ o
      → Exclusive ctx.block c
      → c n ≡ undecided
      → Says ctx.block n c (check_parent check ctx o n c)
  unfolding check_parent after_parent
  parent-Says check keep none n c p e u = prev-Says check keep (ctx.block n).prev n c refl e
  parent-Says check keep (some zero) n c p e u = prev-Says check keep (ctx.block n).prev n c refl e
  parent-Says check keep (some (suc q)) n c p e u =
      let (e', new) = keep (suc q) c e in
      let lt = ordered.parent_lt n (suc q) p in
      after (check (suc q) c).0 (e', λ i l h. new i (omega (arith, lt, l)) h)
        (λ i k h. undecided-Clear n c e (λ z. cc (z, u)) i k (new i (behind i k) h))
    where
      behind : (i : ℕ) → Has n (ctx.block i).followers → suc q < i
      behind i k = ordered.parent_lt i (suc q) (sym (ordered.follows i n k).1 ∙ p)

      after :
          (r : CondResult)
          → Kept ctx.block n c (check (suc q) c).1
          → Clear ctx.block n (check (suc q) c).1
          → Says ctx.block n c (after_parent check ctx n (r, (check (suc q) c).1))
      after failed k clear = (k, λ ne. clear)
      after undecided k clear = (k, λ ne. clear)
      after holds k clear =
          let ((e', new), says) =
            prev-Says check keep (ctx.block n).prev n (check (suc q) c).1 refl k.0 in
          ((e', λ i l h. k.1 i l (new i l h)), says)

  deeper-Kept :
      (depth : ℕ)
      → Keeping ctx.block (check_cached depth ctx)
      → Keeping ctx.block (check_cached (suc depth) ctx)
  unfolding check_cached check_uncached
  deeper-Kept depth keep n c e = after (c n) refl
    where
      uncached :
          c n ≡ undecided → Kept ctx.block n c (check_uncached (check_cached depth ctx) ctx n c).1
      uncached u =
          let asked = check_parent (check_cached depth ctx) ctx (ctx.block n).parent n c in
          store-Kept n c asked.0 asked.1
            (parent-Says (check_cached depth ctx) keep (ctx.block n).parent n c refl e u)

      after :
          (r : CondResult)
          → c n ≡ r
          → let result : CondResult × Cache = elim r [
            | undecided ↦ check_uncached (check_cached depth ctx) ctx n c
            | failed ↦ (failed, c)
            | holds ↦ (holds, c)
          ] in
            Kept ctx.block n c result.1
      after undecided u = uncached u
      after failed u = (e, λ i l h. h)
      after holds u = (e, λ i l h. h)

  cached-Kept : (depth : ℕ) → Keeping ctx.block (check_cached depth ctx)
  unfolding check_cached
  cached-Kept zero n c e = (e, λ i l h. h)
  cached-Kept (suc depth) n c e = deeper-Kept depth (cached-Kept depth) n c e

-- Where the blocks are numbered as the parser of the configuration does it, checking a block, and with
-- it those around it and in front of it that are not decided, keeps that all the blocks behind one
-- that holds, in its chain of `if` and `else`, have failed.
pub check_cond-Exclusive :
    (ctx : Context) (n : ℕ) (cache : Cache)
    → IsOrdered ctx.block
    → Exclusive ctx.block cache
    → Exclusive ctx.block (check_cond ctx n cache).1
unfolding check_cond
check_cond-Exclusive ctx n cache ordered e = (cached-Kept ctx ordered (n + 1) n cache e).0
