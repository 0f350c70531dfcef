-- ===== src/Condition/Depth.antt =====
-- The check of a condition ends: the depth that `check_cond` gives is enough, and more makes no
-- difference.
use lighttpd_autothumb.Condition.Rule.{CondResult, undecided, failed, holds}
use lighttpd_autothumb.Condition.{
  Cache, Context, after_prev, check_prev, after_parent, check_parent, store, check_uncached,
  check_cached,
}
use lighttpd_autothumb.Condition.Exclusive.{IsOrdered}
use lighttpd_autothumb.Base.{ℕ, zero, suc, ◌<◌, ◌≡◌, refl, ap, ◌∙◌, Option, none, some, arith}

-- The two checks are the same on the blocks in front of `n`.
abbrev Agree : ℕ → (ℕ → Cache → CondResult × Cache) → (ℕ → Cache → CondResult × Cache) → Type 0
Agree n f g = (m : ℕ) (c : Cache) → m < n → f m c ≡ g m c

module _ (ctx : Context) (ordered : IsOrdered ctx.block)
    (f g : ℕ → Cache → CondResult × Cache) where
  prev-Agree :
      (o : Option ℕ) (n : ℕ) (c : Cache)
      → (ctx.block n).prev ≡ o
      → Agree n f g
      → check_prev f ctx o n c ≡ check_prev g ctx o n c
  unfolding check_prev
  prev-Agree none n c p a = refl
  prev-Agree (some b) n c p a =
      ap (λ (r : CondResult × Cache). after_prev ctx n r.1) (a b c (ordered.prev_lt n b p))

  parent-Agree :
      (o : Option ℕ) (n : ℕ) (c : Cache)
      → (ctx.block n).parent ≡ o
      → Agree n f g
      → check_parent f ctx o n c ≡ check_parent g ctx o n c
  unfolding check_parent after_parent
  parent-Agree none n c p a = prev-Agree (ctx.block n).prev n c refl a
  parent-Agree (some zero) n c p a = prev-Agree (ctx.block n).prev n c refl a
  parent-Agree (some (suc q)) n c p a =
      ap (after_parent f ctx n) (a (suc q) c (ordered.parent_lt n (suc q) p))
      ∙ after (g (suc q) c).0 (g (suc q) c).1
    where
      after :
          (r : CondResult) (c' : Cache)
          → after_parent f ctx n (r, c') ≡ after_parent g ctx n (r, c')
      after failed c' = refl
      after undecided c' = refl
      after holds c' = prev-Agree (ctx.block n).prev n c' refl a

  uncached-Agree :
      (n : ℕ) (c : Cache) → Agree n f g → check_uncached f ctx n c ≡ check_uncached g ctx n c
  unfolding check_uncached
  uncached-Agree n c a =
      ap
        (λ (r : CondResult × Cache).
          let c' = store ctx n r in let p : CondResult × Cache = (c' n, c') in p)
        (parent-Agree (ctx.block n).parent n c refl a)

-- Where the blocks are numbered as the parser of the configuration does it, checking a block gives the
-- same result and the same cache with any two depths above its number.
pub check_cached-depth :
    (ctx : Context) (d e n : ℕ) (c : Cache)
    → IsOrdered ctx.block
    → n < d
    → n < e
    → check_cached d ctx n c ≡ check_cached e ctx n c
unfolding check_cached
check_cached-depth ctx zero e n c ordered h k = elim h [ ]
check_cached-depth ctx (suc d) zero n c ordered h k = elim k [ ]
check_cached-depth ctx (suc d) (suc e) n c ordered h k = after (c n) (
    uncached-Agree ctx ordered (check_cached d ctx) (check_cached e ctx) n c
      (λ m x lt. check_cached-depth ctx d e m x ordered (omega arith) (omega arith)))
  where
    after :
        (r : CondResult)
        → check_uncached (check_cached d ctx) ctx n c ≡ check_uncached (check_cached e ctx) ctx n c
        → ◌≡◌ {A = CondResult × Cache}
            (elim r [
              | undecided ↦ check_uncached (check_cached d ctx) ctx n c
              | failed ↦ (failed, c)
              | holds ↦ (holds, c)
            ])
            (elim r [
              | undecided ↦ check_uncached (check_cached e ctx) ctx n c
              | failed ↦ (failed, c)
              | holds ↦ (holds, c)
            ])
    after failed same = refl
    after undecided same = same
    after holds same = refl
