-- ===== src/Refresh/Config.antt =====
-- internal/refresh/config.go. A rate in queries per second is a float64; the two tests on it are
-- arguments.
use grokbuild_pool.Base.{ℤ, pos, ltb_ℤ, leb_ℤ, Bool, if◌then◌else◌}

-- The float64 operations that the configuration uses: `q <= 0`, `int(q / 10)` and the default.
pub record Rate : Type 1 where
  pub F : Type 0
  pub is_zero_or_less : F → Bool
  pub tenth : F → ℤ
  pub default_qps : F

pub record Config (f : Rate) : Type 0 where
  pub workers : ℤ
  pub qps : f.F
  pub burst : ℤ
  pub skew_sec : ℤ
  pub scan_interval : ℤ
  pub scan_limit : ℤ
  pub job_buffer : ℤ
  pub cooldown_on_fail_sec : ℤ
  pub cooldown_cap_sec : ℤ
  pub quarantine_after : ℤ

abbrev pub default_cooldown_on_fail_sec : ℤ
default_cooldown_on_fail_sec = pos 60

abbrev pub default_quarantine_after : ℤ
default_quarantine_after = pos 5

abbrev pub or_default : ℤ → ℤ → ℤ
or_default d v = if leb_ℤ v (pos 0) then d else v

abbrev pub between : ℤ → ℤ → ℤ → ℤ
between low high v = if ltb_ℤ v low then low else if ltb_ℤ high v then high else v

module _ (f : Rate) where
  -- Five seconds are given in nanoseconds, as a time.Duration is.
  unfoldable pub default_config : Config f
  default_config = record {
    workers = pos 3;
    qps = f.default_qps;
    burst = pos 0;
    skew_sec = pos 300;
    scan_interval = pos 5000000000;
    scan_limit = pos 200;
    job_buffer = pos 512;
    cooldown_on_fail_sec = default_cooldown_on_fail_sec;
    cooldown_cap_sec = pos 900;
    quarantine_after = default_quarantine_after;
  }

  abbrev pub or_default_qps : f.F → f.F
  or_default_qps q = if f.is_zero_or_less q then f.default_qps else q

  unfoldable pub normalize : Config f → Config f
  unfolding default_config
  normalize c = record {
    workers = between (pos 1) (pos 256) (or_default default_config.workers c.workers);
    qps = or_default_qps c.qps;
    burst = or_default (between (pos 1) (pos 10) (f.tenth (or_default_qps c.qps))) c.burst;
    skew_sec = or_default default_config.skew_sec c.skew_sec;
    scan_interval = or_default default_config.scan_interval c.scan_interval;
    scan_limit = or_default default_config.scan_limit c.scan_limit;
    job_buffer = or_default default_config.job_buffer c.job_buffer;
    cooldown_on_fail_sec = or_default default_config.cooldown_on_fail_sec c.cooldown_on_fail_sec;
    cooldown_cap_sec = or_default default_config.cooldown_cap_sec c.cooldown_cap_sec;
    quarantine_after = or_default default_config.quarantine_after c.quarantine_after;
  }
