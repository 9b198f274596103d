-- ===== src/Refresh/Streak.antt =====
-- internal/refresh/policy.go: what a streak of failed refreshes does to the row.
use grokbuild_pool.Base.{
  ℕ, suc, ◌+◌, leb, ◌<◌, ℤ, pos, ◌+ℤ◌, +ℤ_parts, String, false, List, [], ◌∷◌, Option, length, ◌≡◌,
  refl, subst, arith, if◌then◌else◌, string_eq, eq_iff, ok, eq_of_parts,
}
use grokbuild_pool.Hot.Meta.{lifecycle_quarantined}
use grokbuild_pool.Lease.Catalog.{Account, Catalog, get_account, merge}
use grokbuild_pool.Lease.Released.Quarantine.{patch_health_known}
use grokbuild_pool.Refresh.Policy.{
  DefaultPolicy, threshold, refresh_failure_patch, on_refresh_failure,
}
use grokbuild_pool.Refresh.Service.{tokens_of}
use grokbuild_pool.Refresh.Holds.{get_account-found, get_account-insert}

-- Failures in a row, each with its time and its text.
unfoldable pub failures : DefaultPolicy → String → Catalog → List (ℤ × Option String) → Catalog
failures p id c [] = c
failures p id c ((now, text) ∷ more) =
    failures p id (on_refresh_failure p false now c id text).0 more

-- The row b, k failures after the row a: below the threshold n it stays in use.
abbrev pub IsStreak : ℕ → ℕ → Account → Account → Type 0
IsStreak n k a b =
    (b.consecutive_unauthorized ≡ pos k)
    × (b.lifecycle ≡ (if leb n k then lifecycle_quarantined else a.lifecycle))
    × (b.enabled ≡ (if leb n k then false else a.enabled))
    × (tokens_of b ≡ tokens_of a)

module _ (p : DefaultPolicy) (id : String) where
  failure_row :
      (now : ℤ) (text : Option String) (c : Catalog) (b : Account)
      → get_account c id ≡ ok b
      → get_account (on_refresh_failure p false now c id text).0 id
        ≡ ok (merge now b (refresh_failure_patch p now b text))
  unfolding on_refresh_failure refresh_failure_patch
  failure_row now text c b row =
      let patch = refresh_failure_patch p now b text in
      let (named, opened, there) = get_account-found c id b row in
      let patched =
        patch_health_known now c id patch b (λ e. ground (arith, named, eq_iff id "", e)) row
          (ground arith) in
      rw (named, row, patched) (get_account-insert c id (merge now b patch) opened named)

  failure-IsStreak :
      (now : ℤ) (text : Option String) (n k : ℕ) (a b : Account)
      → threshold p ≡ pos n
      → IsStreak n k a b
      → IsStreak n (suc k) a (merge now b (refresh_failure_patch p now b text))
  unfolding refresh_failure_patch merge
  failure-IsStreak now text n k a b at (streak, lifecycle, enabled, same) =
      let next : b.consecutive_unauthorized +ℤ pos 1 ≡ pos (suc k) =
        eq_of_parts _ _ (ground (arith, streak, +ℤ_parts b.consecutive_unauthorized (pos 1))) in
      rw (at, next) (ground arith, ground (arith, lifecycle), ground (arith, enabled), same)

  failures-IsStreak :
      (n : ℕ) (a : Account)
      → threshold p ≡ pos n
      → (events : List (ℤ × Option String)) (k : ℕ) (c : Catalog) (b : Account)
      → get_account c id ≡ ok b
      → IsStreak n k a b
      → (b' : Account) × (get_account (failures p id c events) id ≡ ok b')
        × IsStreak n (length events + k) a b'
  unfolding failures
  failures-IsStreak n a at [] k c b row h = (b, row, subst (λ m. IsStreak n m a b) (omega arith) h)
  failures-IsStreak n a at ((now, text) ∷ events) k c b row h =
      let (b', row', h') =
        failures-IsStreak n a at events (suc k) (on_refresh_failure p false now c id text).0
          (merge now b (refresh_failure_patch p now b text)) (failure_row now text c b row)
          (failure-IsStreak now text n k a b at h) in
      (b', row', subst (λ m. IsStreak n m a b') (omega arith) h')

-- After a streak of k failures below the threshold, m more leave the row with a streak of k + m and
-- the tokens it had. Once that reaches the threshold the row is quarantined and switched off; until
-- then it keeps its lifecycle and its switch. The row must be there, and the context alive.
pub failures-quarantine :
    (p : DefaultPolicy) (id : String) (n k : ℕ) (c : Catalog) (a : Account)
    (events : List (ℤ × Option String))
    → threshold p ≡ pos n
    → k < n
    → get_account c id ≡ ok a
    → a.consecutive_unauthorized ≡ pos k
    → (b : Account) × (get_account (failures p id c events) id ≡ ok b)
      × IsStreak n (length events + k) a b
failures-quarantine p id n k c a events at below row streak =
    failures-IsStreak p id n a at events k c a row
      (streak, ground (arith, below), ground (arith, below), refl)
