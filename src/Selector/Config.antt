-- ===== src/Selector/Config.antt =====
-- internal/selector/config.go: the settings. A float64 is any type with the operations that the
-- scores use, so that no law depends on how it rounds.
use grokbuild_pool.Base.{ℤ, pos, leb_ℤ, String, Bool, if◌then◌else◌, ◌==◌, string_eq}

pub record Float64 : Type 1 where
  pub F : Type 0
  pub of_int : ℤ → F
  pub half : F
  pub add : F → F → F
  pub sub : F → F → F
  pub mul : F → F → F
  pub lt : F → F → Bool
  pub eq : F → F → Bool

pub record Config (F : Type 0) : Type 0 where
  pub strategy : String
  pub hot_size : ℤ
  pub sticky_ttl_sec : ℤ
  pub sticky_max : ℤ
  pub pow2_k : ℤ
  pub max_attempts : ℤ
  pub w_priority : F
  pub w_inflight : F
  pub w_failure : F
  pub jitter_amp : F

abbrev pub strategy_stable_rr : String
strategy_stable_rr = "stable_rr"

unfoldable pub default_config : (f : Float64) → Config f.F
default_config f = record {
  strategy = strategy_stable_rr;
  hot_size = pos 3000;
  sticky_ttl_sec = pos 1800;
  sticky_max = pos 100_000;
  pow2_k = pos 2;
  max_attempts = pos 2;
  w_priority = f.of_int (pos 1);
  w_inflight = f.of_int (pos 10);
  w_failure = f.of_int (pos 5);
  jitter_amp = f.half;
}

abbrev positive_or : ℤ → ℤ → ℤ
positive_or n d = if leb_ℤ n (pos 0) then d else n

unfoldable pub normalize : (f : Float64) → Config f.F → Config f.F
unfolding default_config
normalize f c =
    let d = default_config f in
    let zero = f.of_int (pos 0) in
    record {
      strategy = if c.strategy == "" then d.strategy else c.strategy;
      hot_size = positive_or c.hot_size d.hot_size;
      sticky_ttl_sec = positive_or c.sticky_ttl_sec d.sticky_ttl_sec;
      sticky_max = positive_or c.sticky_max d.sticky_max;
      pow2_k = positive_or c.pow2_k d.pow2_k;
      max_attempts = positive_or c.max_attempts d.max_attempts;
      w_priority = if f.eq c.w_priority zero then d.w_priority else c.w_priority;
      w_inflight = if f.eq c.w_inflight zero then d.w_inflight else c.w_inflight;
      w_failure = if f.eq c.w_failure zero then d.w_failure else c.w_failure;
      jitter_amp = if f.lt c.jitter_amp zero then d.jitter_amp else c.jitter_amp;
    }
