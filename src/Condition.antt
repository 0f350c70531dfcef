-- ===== src/Condition.antt =====
-- The conditions of the configuration, src/configfile-glue.c: `config_check_cond_cached` and
-- `config_check_cond_nocache`, with the cache of a connection. A block is known by its `context_ndx`.
-- The rules themselves are in Condition/Rule. A check asks for blocks of lower numbers only, so that a
-- recursion as deep as the number of the block is enough.
pub mod Rule
pub mod Exclusive
pub mod Depth
use Rule.{CondResult, undecided, failed, holds, Block, Values, check_rule}
use lighttpd_autothumb.Base.{
  ℕ, zero, suc, ◌+◌, Bool, true, false, Option, none, some, List, [], ◌∷◌, ◌==◌, if◌then◌else◌,
}

-- The results of the cache, by the number of the block.
abbrev pub Cache : Type 0
Cache = ℕ → CondResult

abbrev pub update : Cache → ℕ → CondResult → Cache
update cache n r k = if k == n then r else cache k

-- `for (c = dc->next; c; c = c->next)`
unfoldable pub fail_all : List ℕ → Cache → Cache
fail_all [] cache = cache
fail_all (c ∷ rest) cache = fail_all rest (update cache c failed)

-- What the connection is checked by: the blocks, which of the fields are known, and their values.
pub record Context : Type 0 where
  pub block : ℕ → Block
  pub is_valid : ℕ → Bool
  pub values : Values

-- Behind the checks of the parent and of the blocks in front.
unfoldable pub check_own : Context → ℕ → CondResult
check_own ctx n =
    if ctx.is_valid (ctx.block n).comp then check_rule ctx.values (ctx.block n) else undecided

-- Behind the check of the block in front, which may have decided this one.
unfoldable pub after_prev : Context → ℕ → Cache → CondResult × Cache
after_prev ctx n cache = elim (cache n) [
  | failed ↦ (failed, cache)
  | undecided ↦ (check_own ctx n, cache)
  | holds ↦ (check_own ctx n, cache)
]

-- `if (dc->prev)`; `check` is `config_check_cond_cached`.
unfoldable pub check_prev :
    (ℕ → Cache → CondResult × Cache) → Context → Option ℕ → ℕ → Cache → CondResult × Cache
check_prev check ctx none n cache = (check_own ctx n, cache)
check_prev check ctx (some prev) n cache = after_prev ctx n (check prev cache).1

-- The switch over the result of the parent.
unfoldable pub after_parent :
    (ℕ → Cache → CondResult × Cache) → Context → ℕ → CondResult × Cache → CondResult × Cache
after_parent check ctx n (failed, cache) = (failed, cache)
after_parent check ctx n (undecided, cache) = (undecided, cache)
after_parent check ctx n (holds, cache) = check_prev check ctx (ctx.block n).prev n cache

-- `if (dc->parent && dc->parent->context_ndx)`: the block 0 is the whole configuration.
unfoldable pub check_parent :
    (ℕ → Cache → CondResult × Cache) → Context → Option ℕ → ℕ → Cache → CondResult × Cache
check_parent check ctx none n cache = check_prev check ctx (ctx.block n).prev n cache
check_parent check ctx (some zero) n cache = check_prev check ctx (ctx.block n).prev n cache
check_parent check ctx (some (suc p)) n cache = after_parent check ctx n (check (suc p) cache)

-- The result goes into the cache, and a block that holds decides those behind it.
unfoldable pub store : Context → ℕ → CondResult × Cache → Cache
store ctx n (holds, cache) = fail_all (ctx.block n).followers (update cache n holds)
store ctx n (failed, cache) = update cache n failed
store ctx n (undecided, cache) = update cache n undecided

unfoldable pub check_uncached :
    (ℕ → Cache → CondResult × Cache) → Context → ℕ → Cache → CondResult × Cache
check_uncached check ctx n cache =
    let cache' = store ctx n (check_parent check ctx (ctx.block n).parent n cache) in
    (cache' n, cache')

-- `config_check_cond_cached`, with the depth left.
unfoldable pub check_cached : ℕ → Context → ℕ → Cache → CondResult × Cache
check_cached zero ctx n cache = (cache n, cache)
check_cached (suc depth) ctx n cache = elim (cache n) [
  | undecided ↦ check_uncached (check_cached depth ctx) ctx n cache
  | failed ↦ (failed, cache)
  | holds ↦ (holds, cache)
]

-- `config_check_cond`
unfoldable pub check_cond : Context → ℕ → Cache → Bool × Cache
check_cond ctx n cache =
    let (r, cache') = check_cached (n + 1) ctx n cache in
    (elim r [ holds ↦ true | failed ↦ false | undecided ↦ false ], cache')

-- The results as `config_cond_cache_reset` leaves them.
abbrev pub no_results : Cache
no_results n = undecided
