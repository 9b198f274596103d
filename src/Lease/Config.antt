-- ===== src/Lease/Config.antt =====
-- internal/lease/config.go and ApplyConfig: the settings of the lease manager.
use grokbuild_pool.Base.{ℤ, pos, ltb_ℤ, leb_ℤ, Bool, false, ◌&&◌, if◌then◌else◌}

pub record Config : Type 0 where
  pub max_attempts : ℤ
  pub cooldown_base_sec : ℤ
  pub cooldown_cap_sec : ℤ
  pub unauthorized_cooldown_sec : ℤ
  pub payment_required_cooldown_sec : ℤ
  pub unauthorized_quarantine_after : ℤ
  pub forbidden_cooldown_sec : ℤ
  pub forbidden_quarantine_after : ℤ
  pub quarantine_on_payment_required : Bool
  pub clear_sticky_on_429 : Bool
  pub clear_sticky_on_5xx : Bool
  pub cooldown_jitter_pct : ℤ
  pub cooldown_exp_max : ℤ

unfoldable pub default_config : Config
default_config = record {
  max_attempts = pos 2;
  cooldown_base_sec = pos 30;
  cooldown_cap_sec = pos 300;
  unauthorized_cooldown_sec = pos 60;
  payment_required_cooldown_sec = pos 180;
  unauthorized_quarantine_after = pos 5;
  forbidden_cooldown_sec = pos 300;
  forbidden_quarantine_after = pos 0;
  quarantine_on_payment_required = false;
  clear_sticky_on_429 = false;
  clear_sticky_on_5xx = false;
  cooldown_jitter_pct = pos 20;
  cooldown_exp_max = pos 3;
}

abbrev positive_or : ℤ → ℤ → ℤ
positive_or n d = if leb_ℤ n (pos 0) then d else n

abbrev not_negative_or : ℤ → ℤ → ℤ
not_negative_or n d = if ltb_ℤ n (pos 0) then d else n

abbrev at_most : ℤ → ℤ → ℤ
at_most n top = if ltb_ℤ top n then top else n

unfoldable pub normalize : Config → Config
unfolding default_config
normalize c =
    let d = default_config in
    record c {
      max_attempts = positive_or c.max_attempts d.max_attempts;
      cooldown_base_sec = positive_or c.cooldown_base_sec d.cooldown_base_sec;
      cooldown_cap_sec = positive_or c.cooldown_cap_sec d.cooldown_cap_sec;
      unauthorized_cooldown_sec =
          positive_or c.unauthorized_cooldown_sec d.unauthorized_cooldown_sec;
      payment_required_cooldown_sec =
          positive_or c.payment_required_cooldown_sec d.payment_required_cooldown_sec;
      unauthorized_quarantine_after =
          positive_or c.unauthorized_quarantine_after d.unauthorized_quarantine_after;
      forbidden_cooldown_sec = positive_or c.forbidden_cooldown_sec d.forbidden_cooldown_sec;
      forbidden_quarantine_after = not_negative_or c.forbidden_quarantine_after (pos 0);
      cooldown_jitter_pct =
          at_most (not_negative_or c.cooldown_jitter_pct d.cooldown_jitter_pct) (pos 100);
      cooldown_exp_max = positive_or c.cooldown_exp_max d.cooldown_exp_max;
    }

-- `ApplyConfig`: the lower bounds of a hot update.
unfoldable pub bounded : Config → Config
bounded c = record c {
  max_attempts = if ltb_ℤ c.max_attempts (pos 1) then pos 1 else c.max_attempts;
  cooldown_cap_sec =
      if ltb_ℤ (pos 0) c.cooldown_cap_sec
        && (ltb_ℤ (pos 0) c.cooldown_base_sec && ltb_ℤ c.cooldown_cap_sec c.cooldown_base_sec)
      then c.cooldown_base_sec
      else c.cooldown_cap_sec;
  cooldown_jitter_pct = at_most (not_negative_or c.cooldown_jitter_pct (pos 0)) (pos 100);
  forbidden_quarantine_after = not_negative_or c.forbidden_quarantine_after (pos 0);
}
