-- ===== src/Refresh/Tests.antt =====
-- internal/refresh: concrete inputs.
use grokbuild_pool.Base.{
  ◌+◌, ℤ, pos, ◌+ℤ◌, String, true, false, List, [], ◌∷◌, Option, none, some, ◌≡◌, refl, arith,
  string_eq, eq_iff, lookup, insert, ok, length,
}
use grokbuild_pool.Hot.Meta.{HotMeta}
use grokbuild_pool.Hot.Index.{Index}
use grokbuild_pool.Lease.Catalog.{Account, no_patch, get_account, patch_health, merge}
use grokbuild_pool.Catalog.Rows.{update_tokens, with_tokens}
use grokbuild_pool.Catalog.Writes.{patch, write}
use grokbuild_pool.Refresh.Others.{changes, deletes, other, others}
use grokbuild_pool.Catalog.Tests.{account, cat, fresh}
use grokbuild_pool.Refresh.Policy.{DefaultPolicy, threshold, on_refresh_success}
use grokbuild_pool.Refresh.Service.{
  Service, World, note_success, stored, first_stored, retry, store_tokens, refresh_and_persist,
  lead_fresh, ensure_fresh, lead_force, force_refresh,
}
use grokbuild_pool.Refresh.Keyed.{IsKeyed}
use grokbuild_pool.Refresh.Held.{Held}
use grokbuild_pool.Refresh.Fresh.{ensure_fresh-HoldsRow}
use grokbuild_pool.Refresh.Streak.{failures, IsStreak, failures-quarantine}
use grokbuild_pool.Refresh.Adapter.{settle, token_and_rev, adapter_ensure_fresh}
use grokbuild_pool.Refresh.Adapted.{Agrees, adapter_ensure_fresh-Agrees}

abbrev policy : DefaultPolicy
policy = record { cooldown_sec = pos 60; cooldown_cap_sec = pos 900; quarantine_after = pos 2 }

abbrev service : Service
service = record {
  cat = cat;
  policy = policy;
  skew_sec = pos 300;
  scan_limit = pos 200;
  refresh_ok = pos 0;
  refresh_fail = pos 0;
  ensure_hit = pos 0;
}

-- The health of the row is patched while the provider is asked, so that the first store conflicts.
abbrev world : World
world = record {
  starts_dead = false;
  is_granted = true;
  is_dead = false;
  is_over = false;
  oauth = λ t. ok fresh;
  text = λ e. "";
  read_at = pos 20;
  recheck_at = pos 20;
  stored_at = pos 21;
  reread_at = pos 21;
  noted_at = pos 22;
  queued = [];
  waiting = changes (patch (pos 21) "a" no_patch) ∷ [];
  overtaken = [];
  retrying = [];
  noting = [];
  joined = none;
}

cat-IsKeyed : IsKeyed cat.accounts
unfolding lookup
cat-IsKeyed j a there = ground (arith, there, eq_iff "a" j, eq_iff "b" j, eq_iff "c" j)

unfoldable program : Unit {0}
unfolding adapter_ensure_fresh token_and_rev settle ensure_fresh lead_fresh force_refresh lead_force
    refresh_and_persist store_tokens first_stored retry stored note_success on_refresh_success
    get_account lookup insert update_tokens with_tokens others other write patch_health merge ◌+ℤ◌
program = tt

-- The account is deleted before the success is noted.
abbrev hurried : World
hurried = record world { noting = deletes ("a" ∷ []) ∷ [] }

hurried-ensured : (ensure_fresh hurried service "a").1 ≡ ok fresh
unfolding program
hurried-ensured = refl

ensure_fresh-HoldsRow_example :
    Held hurried service.cat "a" fresh (ensure_fresh hurried service "a").0.cat
ensure_fresh-HoldsRow_example =
    ensure_fresh-HoldsRow hurried service "a" fresh refl refl cat-IsKeyed hurried-ensured

forced : (force_refresh world service "a").1 ≡ ok fresh
unfolding program
forced = refl

-- Two failures reach the threshold.
abbrev events : List (ℤ × Option String)
events = (pos 30, some "timeout") ∷ (pos 100, some "timeout") ∷ []

row_a : get_account cat "a" ≡ ok (account "a" (pos 3) (pos 1))
unfolding get_account lookup
row_a = refl

two_reached : threshold policy ≡ pos 2
unfolding threshold
two_reached = refl

failures-quarantine_example :
    (b : Account) × (get_account (failures policy "a" cat events) "a" ≡ ok b)
    × IsStreak 2 (length events + 0) (account "a" (pos 3) (pos 1)) b
failures-quarantine_example =
    failures-quarantine policy "a" 2 0 cat (account "a" (pos 3) (pos 1)) events two_reached
      (omega arith) row_a refl

abbrev meta : HotMeta
meta = record {
  id = "a";
  priority = pos 1;
  cooldown_until = pos 0;
  expires_at = pos 10;
  inflight = pos 2;
  failure_score = pos 0;
  enabled = true;
  lifecycle = "active";
  revision = pos 3;
  identity_key = "";
  proxy_mode = "";
  proxy_url = "";
}

abbrev index : Index
index = record {
  hot = ("a", meta) ∷ [];
  ids = "a" ∷ [];
  pos_of = ("a", 0) ∷ [];
  limit = 4;
  is_closed = false;
  max_inflight = pos 0;
  hot_size = pos 4;
}

there_a : lookup "a" index.hot ≡ some meta
unfolding lookup
there_a = refl

adapted : (adapter_ensure_fresh world service index "a").2 ≡ ok ("new", pos 6)
unfolding program
adapted = refl

adapter_ensure_fresh-Agrees_example :
    Agrees "a" meta "new" (pos 6) (adapter_ensure_fresh world service index "a")
adapter_ensure_fresh-Agrees_example =
    adapter_ensure_fresh-Agrees world service index "a" meta "new" (pos 6) refl refl refl
      cat-IsKeyed refl refl there_a adapted
