-- ===== src/Cluster/Tests.antt =====
-- internal/clusterstate: concrete inputs.
use grokbuild_pool.Base.{
  ℤ, pos, ◌+ℤ◌, String, true, false, List, [], ◌∷◌, some, string_eq, int_eq, ok, ◌≡◌, ◌≢◌, refl,
  arith, inr, All, eq_iff, lookup, insert, delete, get_elem?, At, ◌<ℤ◌,
}
use grokbuild_pool.Cluster.Memory.{
  Memory, ShardLease, unix, try_acquire_shard, get_shard_owner, claim_refresh_due, add_refresh_due,
  renew_shard, incr_inflight,
}
use grokbuild_pool.Cluster.Shards.{
  Call, acquire, renew, add_due, incr, call, calls, acquired-exclusive,
}
use grokbuild_pool.Cluster.Refresh.{claimed-exclusive}

abbrev second : ℤ
second = pos 1000000000

abbrev lease : ShardLease
lease = record { shard_id = pos 7; worker_id = "a"; version = pos 1; exp = pos 31 }

abbrev empty : Memory ℤ
empty = record {
  sticky = [];
  inflight = [];
  cooldown = [];
  shards = [];
  workset = [];
  refresh = [];
  locks = [];
  is_closed = false;
}

-- Another worker tries to take and to renew the shard, and an account goes on.
abbrev others : List (Call ℤ)
others =
    acquire (pos 5000000000) (pos 5000000000) (pos 7) "b" (pos 30000000000)
    ∷ renew (pos 6000000000) (pos 7) "b" (pos 30000000000)
    ∷ incr "x"
    ∷ []

apart_names : ◌≢◌ {A = String} "b" "a"
apart_names e = ground (arith, eq_iff "b" "a")

acquire_first :
    (try_acquire_shard second second empty (pos 7) "a" (pos 30000000000)).1 ≡ ok (some lease, true)
unfolding try_acquire_shard unix ◌+ℤ◌ lookup
acquire_first = refl

others_open :
    (calls
      (pos 0)
      (try_acquire_shard second second empty (pos 7) "a" (pos 30000000000)).0
      others).is_closed
    ≡ false
unfolding try_acquire_shard calls call renew_shard unix ◌+ℤ◌ lookup insert incr_inflight
others_open = refl

early : unix (pos 9000000000) <ℤ lease.exp
unfolding unix
early = omega arith

others_early : unix (pos 5000000000) <ℤ lease.exp
unfolding unix
others_early = omega arith

acquired-exclusive_example :
    (let m' =
        calls
          (pos 0)
          (try_acquire_shard second second empty (pos 7) "a" (pos 30000000000)).0
          others in
      (get_shard_owner (pos 9000000000) m' (pos 7) ≡ ok lease)
      × (try_acquire_shard (pos 9000000000) (pos 9000000000) m' (pos 7) "b" (pos 1)
          ≡ (m', ok (some lease, false))))
acquired-exclusive_example =
    acquired-exclusive (pos 0) second second empty (pos 7) "a" (pos 30000000000) lease others
      (pos 9000000000) (pos 9000000000) "b" (pos 1) acquire_first
      (inr (apart_names, others_early), (inr apart_names, (tt, tt))) others_open early apart_names

abbrev waiting : Memory ℤ
waiting = record empty { refresh = ("x", pos 3) ∷ ("y", pos 4) ∷ [] }

claim_first :
    (claim_refresh_due ("x" ∷ "y" ∷ []) waiting (pos 5000000000) (pos 1) (pos 60000000000)).1
    ≡ ok ("x" ∷ [])
unfolding claim_refresh_due unix ◌+ℤ◌ lookup insert delete
claim_first = refl

-- The account is due again, and another one is claimed instead.
claim_again :
    (claim_refresh_due
      ("x" ∷ "y" ∷ [])
      (calls
        (pos 0)
        (claim_refresh_due ("x" ∷ "y" ∷ []) waiting (pos 5000000000) (pos 1) (pos 60000000000)).0
        (add_due "x" (pos 0) ∷ []))
      (pos 6000000000)
      (pos 5)
      (pos 60000000000)).1
    ≡ ok ("y" ∷ [])
unfolding claim_refresh_due calls call add_refresh_due unix ◌+ℤ◌ lookup insert delete
claim_again = refl

first_in : At {A = String} "x" ("x" ∷ [])
unfolding get_elem?
first_in = (0, refl)

lock_runs : unix (pos 6000000000) <ℤ unix (pos 5000000000 +ℤ pos 60000000000)
unfolding unix ◌+ℤ◌
lock_runs = omega arith

claimed-exclusive_example : All {A = String} (λ other. other ≢ "x") ("y" ∷ [])
claimed-exclusive_example =
    claimed-exclusive (pos 0) ("x" ∷ "y" ∷ []) waiting (pos 5000000000) (pos 1) (pos 60000000000)
      ("x" ∷ []) "x" (add_due "x" (pos 0) ∷ []) ("x" ∷ "y" ∷ []) (pos 6000000000) (pos 5)
      (pos 60000000000) ("y" ∷ []) claim_first first_in (tt, tt) lock_runs claim_again
