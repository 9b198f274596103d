-- ===== src/Lease/Tests.antt =====
-- internal/lease: concrete inputs.
use grokbuild_pool.Base.{
  ℕ, ◌+◌, ◌*◌, ◌/◌, ℤ, pos, ◌+ℤ◌, ◌≤ℤ◌, String, true, false, ◌≡◌, ◌≢◌, refl, [], ◌∷◌, none, arith,
  string_eq, eq_iff, lookup, trim_space, ok,
}
use grokbuild_pool.Hot.Index.{sub_inflight}
use grokbuild_pool.Hot.Inflight.{live}
use grokbuild_pool.Hot.Tests.{two, two-IsValid}
use grokbuild_pool.Selector.Tests.{integers, selector, draws, jitters}
use grokbuild_pool.Lease.Catalog.{Account, get_account}
use grokbuild_pool.Lease.Config.{default_config}
use grokbuild_pool.Lease.Cooldown.{cooldown_seconds}
use grokbuild_pool.Lease.Manager.{Manager, Lease, acquire_once, acquire, account_usable}
use grokbuild_pool.Lease.Release.{CallResult, release, release_failure}
use grokbuild_pool.Lease.Backoff.{cooldown_seconds-bounds}
use grokbuild_pool.Lease.Acquired.{IsKeyed, IsAttempt, acquire_once-IsAttempt}
use grokbuild_pool.Lease.Acquired.Loop.{Counted, acquire-Counted}
use grokbuild_pool.Lease.Released.{release-counts}
use grokbuild_pool.Lease.Released.Quarantine.{release_failure-spares_account}

abbrev row : Account
row = record {
  id = "b";
  revision = pos 3;
  identity_key = "";
  email = "";
  name = "";
  priority = pos 2;
  enabled = true;
  manual_disabled = false;
  lifecycle = "active";
  access_token = "secret";
  refresh_token = "";
  expires_at = pos 0;
  proxy_mode = "";
  proxy_url = "";
  failure_count = pos 4;
  success_count = pos 0;
  cooldown_until = pos 0;
  last_error = "";
  last_used_at = none;
  last_success_at = none;
  last_refresh_at = none;
  consecutive_unauthorized = pos 4;
  quarantine_fp = "";
  purge_after = none;
  billing_json = "";
  created_at = pos 1;
  updated_at = pos 1;
}

abbrev manager : Manager integers
manager = record {
  cat = record { accounts = ("b", row) ∷ []; is_closed = false };
  idx = two;
  sel = selector;
  cfg = default_config;
  model_cool = [];
  require_proxy = false;
  assign = none;
  reported = [];
}

abbrev lease : Lease
lease = record {
  account_id = "b";
  revision = 3;
  access_token = "secret";
  proxy_url = "";
  proxy_mode = "";
  sticky_key = "s";
  model = "m";
  attempt = 1;
}

abbrev failure : ℤ → CallResult
failure code = record { status_code = code; retry_after = pos 0; success = false }

abbrev show : ℤ → String
show code = "upstream"

abbrev first : ℕ → ℕ
first n = 0

b_named : ◌≢◌ {A = String} "b" ""
b_named = ground (arith, eq_iff "b" "")

manager-row : get_account manager.cat "b" ≡ ok row
unfolding get_account lookup
manager-row = refl

manager-IsKeyed : IsKeyed manager.cat
unfolding lookup
manager-IsKeyed k a there = ground (arith, eq_iff "b" k)

acquire_once-IsAttempt_example :
    IsAttempt integers
      (pos 5)
      manager
      []
      (acquire_once integers (pos 5) manager "s" "m" [] 1 draws jitters)
acquire_once-IsAttempt_example =
    acquire_once-IsAttempt integers (pos 5) manager "s" "m" [] 1 draws jitters two-IsValid

acquire-Counted_example :
    Counted integers two (acquire integers (λ n. pos 5) (λ n. draws) (λ n. jitters) manager "s" "m")
acquire-Counted_example =
    acquire-Counted integers (λ n. pos 5) (λ n. draws) (λ n. jitters) manager "s" "m"
      two-IsValid.sound.named manager-IsKeyed

release-counts_example :
    live (release integers show first (pos 5) false manager lease (failure (pos 429))).0.idx "b"
    ≡ live (sub_inflight two "b").0 "b"
release-counts_example =
    release-counts integers show first (pos 5) false manager lease (failure (pos 429)) "b" b_named
      two-IsValid.sound.named

release_failure-spares_account_example :
    (a : Account) × ((get_account
          (release_failure integers show first (pos 5) manager lease (failure (pos 429))).0.cat
          "b"
        ≡ ok a)
      × ((a.failure_count ≡ pos 4 +ℤ pos 1)
          × (account_usable a (pos 6) ≡ account_usable row (pos 6))))
unfolding trim_space ◌+ℤ◌
release_failure-spares_account_example =
    release_failure-spares_account integers show first (pos 5) (pos 6) manager lease row
      (failure (pos 429)) b_named manager-row refl

cooldown_seconds-bounds_example :
    (pos 1 ≤ℤ cooldown_seconds first default_config (pos 429) (pos 0) (pos 2))
    × (cooldown_seconds first default_config (pos 429) (pos 0) (pos 2)
        ≤ℤ pos (300 + 300 * 20 / 100))
unfolding default_config
cooldown_seconds-bounds_example =
    cooldown_seconds-bounds first default_config 300 20 (pos 429) (pos 0) (pos 2) (λ n h. h) refl
      (omega arith) (omega arith) refl (omega arith)
