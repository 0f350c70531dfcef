-- ===== src/Tests/Conditions.antt =====
-- The conditions of the configuration, on concrete inputs.
use lighttpd_autothumb.Number.{ltostr, to_digits, digits_loop}
use lighttpd_autothumb.Condition.Rule.{
  failed, eq, Block, Values, check_rule, field_value, host_value, host_text, compare_text, same,
  comp_http_host, comp_http_url,
}
use lighttpd_autothumb.Condition.{
  Cache, no_results, Context, check_own, check_prev, after_prev, check_parent, after_parent, store,
  fail_all, check_uncached, check_cached, check_cond,
}
use lighttpd_autothumb.Condition.Exclusive.{Has, IsOrdered, Exclusive, check_cond-Exclusive}
use lighttpd_autothumb.Base.{
  ℕ, zero, suc, ◌<◌, ◌≡◌, refl, ◌≢◌, inl, inr, Bool, true, false, none, some, [], ◌∷◌, arith, ◌==◌,
  Bytes, codes, equal,
}

abbrev no_regex : Bytes → Bool
no_regex text = false

abbrev whole : Block
whole = record {
  parent = none;
  prev = none;
  followers = [];
  comp = 0;
  cond = eq;
  string = [];
  regex = no_regex;
}

-- `$HTTP["url"] == "/a" { … } else $HTTP["host"] == "h" { … }`
abbrev chain : ℕ → Block
chain zero = whole
chain (suc zero) = record whole {
  parent = some 0;
  followers = 2 ∷ [];
  comp = comp_http_url;
  string = codes "/a";
}
chain (suc (suc zero)) = record whole {
  parent = some 0;
  prev = some 1;
  comp = comp_http_host;
  string = codes "h";
}
chain (suc (suc (suc n))) = whole

chain-IsOrdered : IsOrdered chain
chain-IsOrdered = record { parent_lt = parents; prev_lt = prevs; follows = following }
  where
    parents : (n p : ℕ) → (chain n).parent ≡ some p → p < n
    parents zero p e = cc e
    parents (suc zero) p e = ground (arith, e)
    parents (suc (suc zero)) p e = ground (arith, e)
    parents (suc (suc (suc n))) p e = cc e

    prevs : (n b : ℕ) → (chain n).prev ≡ some b → b < n
    prevs zero p e = cc e
    prevs (suc zero) p e = cc e
    prevs (suc (suc zero)) p e = ground (arith, e)
    prevs (suc (suc (suc n))) p e = cc e

    following :
        (i j : ℕ)
        → Has j (chain i).followers
        → (i < j) × ((chain j).parent ≡ (chain i).parent) × ((chain j).prev ≢ none)
    following zero j h = absurd h
    following (suc zero) j (inl e) = rw e (omega arith, refl, λ z. cc z)
    following (suc zero) j (inr h) = absurd h
    following (suc (suc zero)) j h = absurd h
    following (suc (suc (suc n))) j h = absurd h

abbrev values : Values
values = record {
  authority = some (codes "h");
  tlsext_server_name = none;
  port = 80;
  dst_addr = none;
  dst_v4 = none;
  inet_aton = (λ text. none);
  scheme = none;
  path = some (codes "/a");
  query = none;
  srv_token = none;
  header = (λ name. none);
  method_name = none;
}

-- The host is known before the path is; then both are.
abbrev with_host : Context
with_host = record { block = chain; is_valid = (λ comp. comp == comp_http_host); values = values }

abbrev with_path : Context
with_path = record { block = chain; is_valid = (λ comp. true); values = values }

result : Context → ℕ → Cache → Bool
unfolding check_cond check_cached check_uncached check_parent after_parent check_prev after_prev
    check_own store fail_all check_rule field_value host_value host_text compare_text same equal
result ctx n cache = (check_cond ctx n cache).0

-- The `else` holds while its `if` is not decided yet.
else_undecided_runs : result with_host 2 no_results ≡ true
unfolding result
else_undecided_runs = refl

-- With the path known, the `if` holds and the `else` does not.
if_runs : (result with_path 1 no_results ≡ true) × (result with_path 2 no_results ≡ false)
unfolding result
if_runs = (refl, refl)

abbrev port_block : Block
port_block = record whole { comp = comp_http_host; string = codes "h:80" }

-- A condition with a port does not hold for a request that names it.
port_runs : check_rule (record values { authority = some (codes "h:80") }) port_block ≡ failed
unfolding check_rule field_value host_value host_text compare_text same equal ltostr to_digits
    digits_loop
port_runs = refl

no_results-Exclusive : Exclusive chain no_results
no_results-Exclusive i j h k = cc h

check_cond-Exclusive_example : Exclusive chain (check_cond with_path 2 no_results).1
check_cond-Exclusive_example =
    check_cond-Exclusive with_path 2 no_results chain-IsOrdered no_results-Exclusive
