-- ===== src/Lease/Released/Quarantine.antt =====
-- internal/lease/lease.go (releaseFailure): the row and the hot meta after a failure.
use grokbuild_pool.Base.{
  ℕ, ℤ, pos, ◌+ℤ◌, String, Bool, true, false, ◌≡◌, ◌≢◌, refl, ap, ◌∙◌, some, arith, if◌then◌else◌,
  if_split, ◌⊎◌, ◌≤ℤ◌, ◌<ℤ◌, ◌==◌, string_eq, eq_iff, lookup, insert, lookup-insert, ok,
}
use grokbuild_pool.Hot.Meta.{HotMeta}
use grokbuild_pool.Selector.Config.{Float64}
use grokbuild_pool.Lease.Catalog.{
  Account, Catalog, HealthPatch, get_account, patch_health, merge, sets_empty_lifecycle,
}
use grokbuild_pool.Lease.Config.{Config}
use grokbuild_pool.Lease.Cooldown.{cooldown_seconds}
use grokbuild_pool.Lease.Manager.{Manager, Lease, account_usable}
use grokbuild_pool.Lease.Release.{
  CallResult, quarantines, cools_model, applies_cooldown, clears_sticky, clear_sticky,
  clear_sticky_if, cool_down, report_proxy, failure_patch, meta_after, store_health, fail_account,
  release_failure,
}

pub patch_health_known :
    (now : ℤ) (c : Catalog) (id : String) (p : HealthPatch) (a : Account)
    → id ≢ ""
    → get_account c id ≡ ok a
    → sets_empty_lifecycle p ≡ false
    → patch_health now c id p
      ≡ (record c { accounts = insert id (merge now a p) c.accounts }, ok tt)
unfolding patch_health get_account
patch_health_known now c id p a named row fine =
    let opened : c.is_closed ≡ false = ground arith in
    let found : lookup id c.accounts ≡ some a = ground arith in
    let blank : (id == "") ≡ false = ground (arith, eq_iff id "") in
    rw (patch_health, opened, blank, found, fine) (rw opened refl)

-- When a failure quarantines, by the numbers of the configuration and of the row.
pub Reaches : Config → Account → ℤ → Type 0
Reaches cfg cur code =
    ((code ≡ pos 401)
      × (cfg.unauthorized_quarantine_after ≤ℤ cur.consecutive_unauthorized +ℤ pos 1))
    ⊎ (((code ≡ pos 403)
          × ((pos 0 <ℤ cfg.forbidden_quarantine_after)
              × ((cfg.forbidden_quarantine_after ≤ℤ pos 1)
                  ⊎ ((cur.last_error ≡ "forbidden")
                      × ((cfg.forbidden_quarantine_after ≤ℤ pos 2)
                          ⊎ (cfg.forbidden_quarantine_after ≤ℤ cur.failure_count +ℤ pos 1))))))
        ⊎ ((code ≡ pos 402) × (cfg.quarantine_on_payment_required ≡ true)))

module _ (f : Float64) where
  cool_down-cat :
      (m : Manager f) (l : Lease) (cur : Account) (code until : ℤ)
      → (cool_down f m l cur code until).cat ≡ m.cat
  unfolding cool_down
  cool_down-cat m l cur code until = ground arith

  sticky-cat : (b : Bool) (m : Manager f) (l : Lease) → (clear_sticky_if f b m l).cat ≡ m.cat
  unfolding clear_sticky_if clear_sticky
  sticky-cat true m l = refl
  sticky-cat false m l = refl

  report-cat :
      (show : ℤ → String) (m : Manager f) (l : Lease) (code : ℤ)
      → (report_proxy f show m l code).cat ≡ m.cat
  unfolding report_proxy
  report-cat show m l code = ground arith

  -- The patch that a failure with a known row writes.
  written : (ℤ → String) → (ℕ → ℕ) → ℤ → Manager f → Lease → Account → CallResult → HealthPatch
  written show draw now m l cur r =
      failure_patch show m.cfg cur r.status_code l.model now (
        now +ℤ cooldown_seconds draw m.cfg r.status_code r.retry_after (cur.failure_count +ℤ pos 1))

  stored :
      (now : ℤ) (m : Manager f) (id : String) (p : HealthPatch) (change : HotMeta → HotMeta)
      (cur : Account)
      → id ≢ ""
      → get_account m.cat id ≡ ok cur
      → sets_empty_lifecycle p ≡ false
      → get_account (store_health f now m id p change).0.cat id ≡ ok (merge now cur p)
  unfolding store_health get_account
  stored now m id p change cur named row fine = ground (
    arith,
    patch_health_known now m.cat id p cur named row fine,
    lookup-insert id id (merge now cur p) m.cat.accounts,
    eq_iff id id,
  )

  release_failure-row :
      (show : ℤ → String) (draw : ℕ → ℕ) (now : ℤ) (m : Manager f) (l : Lease) (cur : Account)
      (r : CallResult)
      → l.account_id ≢ ""
      → get_account m.cat l.account_id ≡ ok cur
      → get_account (release_failure f show draw now m l r).0.cat l.account_id
        ≡ ok (merge now cur (written show draw now m l cur r))
  unfolding release_failure fail_account written failure_patch
  release_failure-row show draw now m l cur r named row =
      let code = r.status_code in
      let until =
        now +ℤ cooldown_seconds draw m.cfg code r.retry_after (cur.failure_count +ℤ pos 1) in
      let cooled = if applies_cooldown code then cool_down f m l cur code until else m in
      let cleared = clear_sticky_if f (clears_sticky m.cfg code) cooled l in
      let ended = report_proxy f show cleared l code in
      let p = written show draw now m l cur r in
      let same : ended.cat ≡ m.cat =
        report-cat show cleared l code
        ∙ (sticky-cat (clears_sticky m.cfg code) cooled l
            ∙ if_split (λ (x : Manager f). x.cat ≡ m.cat) (applies_cooldown code)
                (λ _. cool_down-cat m l cur code until) (λ _. refl)) in
      rw (release_failure, row)
        (stored now ended l.account_id p (meta_after p (cur.failure_count +ℤ pos 1)) cur named
          (ap (λ c. get_account c l.account_id) same ∙ row) (ground arith))

  -- A 429 of a lease with a model leaves the account itself as usable as it was, at every time, and
  -- adds 1 to its failure count. The row must be there.
  pub release_failure-spares_account :
      (show : ℤ → String) (draw : ℕ → ℕ) (now later : ℤ) (m : Manager f) (l : Lease) (cur : Account)
      (r : CallResult)
      → l.account_id ≢ ""
      → get_account m.cat l.account_id ≡ ok cur
      → cools_model r.status_code l.model ≡ true
      → (a : Account) × ((get_account (release_failure f show draw now m l r).0.cat l.account_id
            ≡ ok a)
          × ((a.failure_count ≡ cur.failure_count +ℤ pos 1)
              × (account_usable a later ≡ account_usable cur later)))
  unfolding merge written failure_patch account_usable quarantines
  release_failure-spares_account show draw now later m l cur r named row reached = (
    merge now cur (written show draw now m l cur r),
    (release_failure-row show draw now m l cur r named row, (refl, ground arith)),
  )
