-- ===== src/Lease/Released.antt =====
-- internal/lease/lease.go: what a release does to the in-flight counts, the row and the hot meta.
pub mod Quarantine
use grokbuild_pool.Base.{
  ℕ, ℤ, pos, ◌+ℤ◌, ltb_ℤ, eqb_ℤ, String, Bool, true, false, not, ◌&&◌, ◌||◌, ◌≡◌, ◌≢◌, refl, ap,
  ◌∙◌, sym, subst, List, [], ◌∷◌, Option, none, some, inl, inr, arith, if◌then◌else◌, if_split,
  option_split, result_split, ◌==◌, ◌/=◌, string_eq, eq_iff, lookup, insert, lookup-insert, Result,
  ok, err, Option-cases, Result-cases, trim_space,
}
use grokbuild_pool.Hot.Meta.{HotMeta}
use grokbuild_pool.Hot.Index.{
  Index, get, update_entry, add_inflight, sub_inflight, set_cooldown, promote,
}
use grokbuild_pool.Hot.Inflight.{live}
use grokbuild_pool.Hot.Valid.{IsNamed, insert-IsNamed}
use grokbuild_pool.Selector.Config.{Float64}
use grokbuild_pool.Lease.Catalog.{
  Account, HealthPatch, CatalogError, not_found, cas_conflict, closed, invalid_input, get_account,
  patch_health,
}
use grokbuild_pool.Lease.Config.{Config}
use grokbuild_pool.Lease.Cooldown.{cooldown_seconds}
use grokbuild_pool.Lease.Manager.{Manager, Lease, LeaseError}
use grokbuild_pool.Lease.Release.{
  CallResult, sync_meta, meta_after, quarantine_meta, quarantines, cools_model, applies_cooldown,
  clears_sticky, clear_sticky, clear_sticky_if, cool_down, report_proxy, failure_patch,
  success_patch, or_else, Answer, store_health, release_success, fail_account, fail_unknown,
  release_failure, release,
}

-- The same live counts, under the same names, with the index as open as before.
pub record IsSame (idx idx' : Index) : Type 0 where
  pub counts : (j : String) → live idx' j ≡ live idx j
  pub names : IsNamed idx.hot → IsNamed idx'.hot
  pub opened : idx'.is_closed ≡ idx.is_closed

pub IsSame-refl : (idx : Index) → IsSame idx idx
IsSame-refl idx = record { counts = λ j. refl; names = λ n. n; opened = refl }

pub IsSame-trans : (a b c : Index) → IsSame a b → IsSame b c → IsSame a c
IsSame-trans a b c p q = record {
  counts = λ j. q.counts j ∙ p.counts j;
  names = λ n. q.names (p.names n);
  opened = q.opened ∙ p.opened;
}

pub promote-IsSame :
    (idx : Index) (meta old : HotMeta)
    → get idx meta.id ≡ some old
    → IsSame idx (promote idx meta).0
unfolding promote get
promote-IsSame idx meta old h = record {
  counts = λ j. ground (
    arith,
    eq_iff meta.id j,
    lookup-insert meta.id j (record meta { inflight = old.inflight }) idx.hot,
  );
  names = λ n j m e. ground (
    arith,
    eq_iff meta.id j,
    n j m,
    lookup-insert meta.id j (record meta { inflight = old.inflight }) idx.hot,
  );
  opened = ground arith;
}

pub sync_meta-IsSame :
    (idx : Index) (id : String) (change : HotMeta → HotMeta)
    → IsNamed idx.hot
    → ((m : HotMeta) → (change m).id ≡ m.id)
    → IsSame idx (sync_meta idx id change)
unfolding sync_meta get
sync_meta-IsSame idx id change n keeps =
    option_split (IsSame idx) (get idx id) (λ _. IsSame-refl idx)
      (λ m e. promote-IsSame idx (change m) m (ap (λ k. lookup k idx.hot) (keeps m ∙ n id m e) ∙ e))

set_cooldown-IsSame :
    (idx : Index) (id : String) (until : ℤ) → IsSame idx (set_cooldown idx id until).0
unfolding set_cooldown update_entry
set_cooldown-IsSame idx id until =
    if_split (λ (r : Index × _). IsSame idx r.0) (id == "") (λ _. IsSame-refl idx)
      (λ _.
        if_split (λ (r : Index × _). IsSame idx r.0) idx.is_closed (λ _. IsSame-refl idx)
          (λ _.
            option_split (λ (r : Index × _). IsSame idx r.0) (lookup id idx.hot)
              (λ _. IsSame-refl idx)
              (λ m e. record {
                counts = λ j. ground (
                  arith,
                  eq_iff id j,
                  lookup-insert id j (record m { cooldown_until = until }) idx.hot,
                );
                names = λ n.
                    insert-IsNamed id (record m { cooldown_until = until }) idx.hot (n id m e) n;
                opened = refl;
              })))

update_entry-IsNamed :
    (idx : Index) (id : String) (g : HotMeta → HotMeta)
    → ((m : HotMeta) → (g m).id ≡ m.id)
    → IsNamed idx.hot
    → IsNamed (update_entry idx id g).0.hot
unfolding update_entry
update_entry-IsNamed idx id g keeps n =
    if_split (λ (r : Index × _). IsNamed r.0.hot) (id == "") (λ _. n)
      (λ _.
        if_split (λ (r : Index × _). IsNamed r.0.hot) idx.is_closed (λ _. n)
          (λ _.
            option_split (λ (r : Index × _). IsNamed r.0.hot) (lookup id idx.hot) (λ _. n)
              (λ m e. insert-IsNamed id (g m) idx.hot (keeps m ∙ n id m e) n)))

pub add_inflight-IsNamed :
    (idx : Index) (id : String) → IsNamed idx.hot → IsNamed (add_inflight idx id).0.hot
unfolding add_inflight
add_inflight-IsNamed idx id n = update_entry-IsNamed idx id _ (λ m. refl) n

pub sub_inflight-IsNamed :
    (idx : Index) (id : String) → IsNamed idx.hot → IsNamed (sub_inflight idx id).0.hot
unfolding sub_inflight
sub_inflight-IsNamed idx id n = update_entry-IsNamed idx id _ (λ m. ground arith) n

module _ (f : Float64) where
  -- An answer whose manager has the same counts as an index.
  Stays : Index → Answer f → Type 0
  Stays idx r = IsSame idx r.0.idx

  store_health-Stays :
      (now : ℤ) (m : Manager f) (id : String) (p : HealthPatch) (change : HotMeta → HotMeta)
      → IsNamed m.idx.hot
      → ((w : HotMeta) → (change w).id ≡ w.id)
      → Stays m.idx (store_health f now m id p change)
  unfolding store_health Stays
  store_health-Stays now m id p change n keeps =
      result_split (Stays m.idx) (patch_health now m.cat id p).1
        (λ _ _. sync_meta-IsSame m.idx id change n keeps) (λ e _. IsSame-refl m.idx)

  cool_down-IsSame :
      (m : Manager f) (l : Lease) (cur : Account) (code until : ℤ)
      → IsNamed m.idx.hot
      → IsSame m.idx (cool_down f m l cur code until).idx
  unfolding cool_down
  cool_down-IsSame m l cur code until n =
      let id = l.account_id in
      let warm = IsSame m.idx in
      if_split (λ (r : Manager f). IsSame m.idx r.idx) (quarantines m.cfg cur code)
        (λ _.
          if_split (λ (r : Manager f). IsSame m.idx (sync_meta r.idx id (quarantine_meta until)))
            (cools_model code l.model)
            (λ _. sync_meta-IsSame m.idx id (quarantine_meta until) n (λ w. refl))
            (λ _.
              let cold = set_cooldown-IsSame m.idx id until in
              IsSame-trans m.idx _ _ cold
                (sync_meta-IsSame _ id (quarantine_meta until) (cold.names n) (λ w. refl))))
        (λ _.
          if_split (λ (r : Manager f). IsSame m.idx r.idx) (cools_model code l.model)
            (λ _. IsSame-refl m.idx) (λ _. set_cooldown-IsSame m.idx id until))

  sticky-idx : (b : Bool) (m : Manager f) (l : Lease) → (clear_sticky_if f b m l).idx ≡ m.idx
  unfolding clear_sticky_if clear_sticky
  sticky-idx true m l = refl
  sticky-idx false m l = refl

  report-idx :
      (show : ℤ → String) (m : Manager f) (l : Lease) (code : ℤ)
      → (report_proxy f show m l code).idx ≡ m.idx
  unfolding report_proxy
  report-idx show m l code = ground arith

  fail_account-Stays :
      (show : ℤ → String) (draw : ℕ → ℕ) (now : ℤ) (m : Manager f) (l : Lease) (cur : Account)
      (r : CallResult)
      → IsNamed m.idx.hot
      → Stays m.idx (fail_account f show draw now m l cur r)
  unfolding fail_account meta_after Stays
  fail_account-Stays show draw now m l cur r n =
      let code = r.status_code in
      let until =
        now +ℤ cooldown_seconds draw m.cfg code r.retry_after (cur.failure_count +ℤ pos 1) in
      let cooled = if applies_cooldown code then cool_down f m l cur code until else m in
      let ended =
        report_proxy f show (clear_sticky_if f (clears_sticky m.cfg code) cooled l) l code in
      let first : IsSame m.idx cooled.idx =
        if_split (λ (r : Manager f). IsSame m.idx r.idx) (applies_cooldown code)
          (λ _. cool_down-IsSame m l cur code until n) (λ _. IsSame-refl m.idx) in
      let at_end : IsSame m.idx ended.idx =
        subst (IsSame m.idx)
          (sym (report-idx show _ l code ∙ sticky-idx (clears_sticky m.cfg code) cooled l)) first in
      IsSame-trans m.idx ended.idx _ at_end
        (store_health-Stays now ended l.account_id _ _ (at_end.names n) (λ w. refl))

  fail_unknown-Stays :
      (e : CatalogError) (m : Manager f) (l : Lease) (code : ℤ)
      → Stays m.idx (fail_unknown f e m l code)
  unfolding fail_unknown Stays
  fail_unknown-Stays not_found m l code =
      subst (IsSame m.idx) (sym (sticky-idx (clears_sticky m.cfg code) m l)) (IsSame-refl m.idx)
  fail_unknown-Stays cas_conflict m l code = IsSame-refl m.idx
  fail_unknown-Stays closed m l code = IsSame-refl m.idx
  fail_unknown-Stays invalid_input m l code = IsSame-refl m.idx

  release_failure-Stays :
      (show : ℤ → String) (draw : ℕ → ℕ) (now : ℤ) (m : Manager f) (l : Lease) (r : CallResult)
      → IsNamed m.idx.hot
      → Stays m.idx (release_failure f show draw now m l r)
  unfolding release_failure Stays
  release_failure-Stays show draw now m l r n =
      result_split (Stays m.idx) (get_account m.cat l.account_id)
        (λ cur _. fail_account-Stays show draw now m l cur r n)
        (λ e _. fail_unknown-Stays e m l r.status_code)

  -- Every release of a named account changes the live counts exactly as SubInflight does, whether
  -- the context has ended, the call has succeeded or failed, and whatever the catalog answers: no
  -- path keeps a slot, and no path takes one from another account.
  pub release-counts :
      (show : ℤ → String) (draw : ℕ → ℕ) (now : ℤ) (dead : Bool) (m : Manager f) (l : Lease)
      (r : CallResult) (j : String)
      → l.account_id ≢ ""
      → IsNamed m.idx.hot
      → live (release f show draw now dead m l r).0.idx j
        ≡ live (sub_inflight m.idx l.account_id).0 j
  unfolding release release_success Stays
  release-counts show draw now dead m l r j named n =
      let m' = record m { idx = (sub_inflight m.idx l.account_id).0 } in
      let n' = sub_inflight-IsNamed m.idx l.account_id n in
      let P = λ (a : Answer f). live a.0.idx j ≡ live m'.idx j in
      if_split P (l.account_id == "")
        (λ blank. absurd (ground (arith, named, eq_iff l.account_id "")))
        (λ _.
          if_split P dead (λ _. refl)
            (λ _.
              if_split P r.success
                (λ _. (store_health-Stays now m' l.account_id _ _ n' (λ w. refl)).counts j)
                (λ _. (release_failure-Stays show draw now m' l r n').counts j)))
