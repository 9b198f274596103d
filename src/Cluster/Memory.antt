-- ===== src/Cluster/Memory.antt =====
-- internal/clusterstate/memory.go: the process-local backend. Every method holds the lock for its
-- whole body and is one step. An instant is in nanoseconds since 1970, a duration in nanoseconds.
use grokbuild_pool.Base.{
  ℕ, ◌/◌, ℤ, pos, negsuc, ◌+ℤ◌, ◌-ℤ◌, ltb_ℤ, leb_ℤ, String, Bool, true, false, not, ◌&&◌, ◌||◌,
  List, [], ◌∷◌, ◌++◌, map, Option, none, some, if◌then◌else◌, ◌==◌, ◌/=◌, string_eq, int_eq,
  lookup, insert, delete, keep, take, length, Result, ok, err,
}

pub record StickyBinding : Type 0 where
  pub account_id : String
  pub secondary_account_id : String
  pub worker_id : String
  pub shard_id : ℤ
  pub exp : ℤ

pub record ShardLease : Type 0 where
  pub shard_id : ℤ
  pub worker_id : String
  pub version : ℤ
  pub exp : ℤ

pub data StateError : Type 0 where
  not_found closed : StateError

-- `Time.Unix`: whole seconds, rounded down.
unfoldable pub unix : ℤ → ℤ
unix (pos n) = pos (n / 1000000000)
unix (negsuc n) = negsuc (n / 1000000000)

-- A score is a float64, of which only the zero is used.
pub record Memory (F : Type 0) : Type 0 where
  pub sticky : List (String × StickyBinding)
  pub inflight : List (String × ℤ)
  pub cooldown : List (String × ℤ)
  pub shards : List (ℤ × ShardLease)
  pub workset : List (ℤ × List (String × F))
  pub refresh : List (String × ℤ)
  pub locks : List (String × ℤ)
  pub is_closed : Bool

abbrev pub or_zero : Option ℤ → ℤ
or_zero none = pos 0
or_zero (some n) = n

-- `m.shards[shardID].Version`.
abbrev pub version_of : Option ShardLease → ℤ
version_of none = pos 0
version_of (some l) = l.version

abbrev pub names : StickyBinding → String → Bool
names b id = (b.account_id == id) || (b.secondary_account_id == id)

-- The entries that `range` yields, with the score at the same place or the zero.
unfoldable pub scored : {F : Type 0} → F → List String → List F → List (String × F)
scored zero_score [] scores = []
scored zero_score (id ∷ ids) [] = (id, zero_score) ∷ scored zero_score ids []
scored zero_score (id ∷ ids) (x ∷ scores) = (id, x) ∷ scored zero_score ids scores

-- Whether another worker's lease is running.
unfoldable pub held_by_other : ℤ → Option ShardLease → String → Bool
held_by_other now none worker = false
held_by_other now (some cur) worker = ltb_ℤ (unix now) cur.exp && (cur.worker_id /= worker)

abbrev to_ℕ : ℤ → ℕ
to_ℕ (pos n) = n
to_ℕ (negsuc n) = 0

module _ {F : Type 0} where
  unfoldable pub new_memory : Memory F
  new_memory = record {
    sticky = [];
    inflight = [];
    cooldown = [];
    shards = [];
    workset = [];
    refresh = [];
    locks = [];
    is_closed = false;
  }

  unfoldable pub close : Memory F → Memory F
  close m = record m { is_closed = true }

  unfoldable pub get_sticky : ℤ → Memory F → String → Result StateError StickyBinding
  get_sticky now m key = if m.is_closed then err closed else elim (lookup key m.sticky) [
    | none ↦ err not_found
    | some b ↦ if ltb_ℤ (pos 0) b.exp && ltb_ℤ b.exp (unix now) then err not_found else ok b
  ]

  unfoldable pub put_sticky :
      ℤ → Memory F → String → StickyBinding → ℤ → Memory F × Result StateError (Unit {0})
  put_sticky now m key b ttl =
      let b' = if b.exp == pos 0 then record b { exp = unix (now +ℤ ttl) } else b in
      if m.is_closed then (m, err closed) else (record m { sticky = insert key b' m.sticky }, ok tt)

  unfoldable pub clear_sticky : Memory F → String → Memory F × Result StateError (Unit {0})
  clear_sticky m key =
      if m.is_closed then (m, err closed) else (record m { sticky = delete key m.sticky }, ok tt)

  unfoldable pub clear_sticky_account : Memory F → String → Memory F × Result StateError (Unit {0})
  clear_sticky_account m id =
      if m.is_closed
      then (m, err closed)
      else (record m { sticky = keep (λ e. not (names e.1 id)) m.sticky }, ok tt)

  unfoldable pub incr_inflight : Memory F → String → Memory F × Result StateError ℤ
  incr_inflight m id =
      let n = or_zero (lookup id m.inflight) +ℤ pos 1 in
      if m.is_closed
      then (m, err closed)
      else (record m { inflight = insert id n m.inflight }, ok n)

  unfoldable pub decr_inflight : Memory F → String → Memory F × Result StateError ℤ
  decr_inflight m id =
      let n = or_zero (lookup id m.inflight) -ℤ pos 1 in
      if m.is_closed
      then (m, err closed)
      else if leb_ℤ n (pos 0)
      then (record m { inflight = delete id m.inflight }, ok (pos 0))
      else (record m { inflight = insert id n m.inflight }, ok n)

  unfoldable pub get_inflight : Memory F → String → Result StateError ℤ
  get_inflight m id = if m.is_closed then err closed else ok (or_zero (lookup id m.inflight))

  unfoldable pub set_cooldown : Memory F → String → ℤ → Memory F × Result StateError (Unit {0})
  set_cooldown m id until =
      if m.is_closed
      then (m, err closed)
      else (record m { cooldown = insert id (unix until) m.cooldown }, ok tt)

  -- The end of a cooldown that is running, in seconds.
  unfoldable pub get_cooldown : ℤ → Memory F → String → Result StateError (Option ℤ)
  get_cooldown now m id = if m.is_closed then err closed else elim (lookup id m.cooldown) [
    | none ↦ ok none
    | some u ↦ if leb_ℤ u (unix now) then ok none else ok (some u)
  ]

  unfoldable pub clear_cooldown : Memory F → String → Memory F × Result StateError (Unit {0})
  clear_cooldown m id =
      if m.is_closed then (m, err closed) else (record m { cooldown = delete id m.cooldown }, ok tt)

  -- `TryAcquireShard` reads the clock twice: `now` for the test and `later` for the lease.
  unfoldable pub granted : ℤ → Memory F → ℤ → String → ℤ → ShardLease
  granted later m shard worker ttl = record {
    shard_id = shard;
    worker_id = worker;
    version = version_of (lookup shard m.shards) +ℤ pos 1;
    exp = unix (later +ℤ ttl);
  }

  unfoldable pub try_acquire_shard :
      ℤ → ℤ → Memory F → ℤ → String → ℤ → Memory F × Result StateError (Option ShardLease × Bool)
  unfolding held_by_other granted
  try_acquire_shard now later m shard worker ttl =
      let lease = granted later m shard worker ttl in
      if m.is_closed
      then (m, err closed)
      else if held_by_other now (lookup shard m.shards) worker
      then (m, ok (lookup shard m.shards, false))
      else (record m { shards = insert shard lease m.shards }, ok (some lease, true))

  unfoldable pub renew_shard : ℤ → Memory F → ℤ → String → ℤ → Memory F × Result StateError Bool
  renew_shard now m shard worker ttl =
      if m.is_closed then (m, err closed) else elim (lookup shard m.shards) [
        | none ↦ (m, ok false)
        | some cur ↦ if cur.worker_id /= worker then (m, ok false) else (
          record m { shards = insert shard (record cur { exp = unix (now +ℤ ttl) }) m.shards },
          ok true,
        )
      ]

  unfoldable pub release_shard : Memory F → ℤ → String → Memory F × Result StateError (Unit {0})
  release_shard m shard worker =
      if m.is_closed then (m, err closed) else elim (lookup shard m.shards) [
        | none ↦ (m, ok tt)
        | some cur ↦
            if cur.worker_id == worker
            then (record m { shards = delete shard m.shards }, ok tt)
            else (m, ok tt)
      ]

  unfoldable pub get_shard_owner : ℤ → Memory F → ℤ → Result StateError ShardLease
  get_shard_owner now m shard = if m.is_closed then err closed else elim (lookup shard m.shards) [
    | none ↦ err not_found
    | some cur ↦ if leb_ℤ cur.exp (unix now) then err not_found else ok cur
  ]

  unfoldable pub replace_workset :
      F → Memory F → ℤ → List String → List F → Memory F × Result StateError (Unit {0})
  unfolding scored
  replace_workset zero_score m shard ids scores =
      if m.is_closed
      then (m, err closed)
      else (record m { workset = insert shard (scored zero_score ids scores) m.workset }, ok tt)

  abbrev pub or_empty : Option (List (String × F)) → List (String × F)
  or_empty none = []
  or_empty (some items) = items

  unfoldable pub list_workset : Memory F → ℤ → ℤ → Result StateError (List String)
  list_workset m shard limit =
      let items = or_empty (lookup shard m.workset) in
      let all = leb_ℤ limit (pos 0) || ltb_ℤ (pos (length items)) limit in
      if m.is_closed
      then err closed
      else ok (map (λ e. e.0) (take (if all then length items else to_ℕ limit) items))

  unfoldable pub add_refresh_due : Memory F → String → ℤ → Memory F × Result StateError (Unit {0})
  add_refresh_due m id due =
      if m.is_closed
      then (m, err closed)
      else (record m { refresh = insert id (unix due) m.refresh }, ok tt)

  -- Whether the entry of an account is due and no lock on it is running.
  unfoldable pub claimable : ℤ → Memory F → String → Bool
  claimable now_u m id = elim (lookup id m.refresh) [
    | none ↦ false
    | some due ↦
        not (ltb_ℤ now_u due)
        && elim (lookup id m.locks) [ none ↦ true | some exp ↦ not (ltb_ℤ now_u exp) ]
  ]

  unfoldable pub take_claim : ℤ → ℤ → Memory F → String → Memory F
  take_claim now ttl m id = record m {
    locks = insert id (unix (now +ℤ ttl)) m.locks;
    refresh = delete id m.refresh;
  }

  -- `range m.refresh` visits the accounts in some order; one whose entry is gone is not visited.
  unfoldable pub claim_loop :
      ℤ → ℤ → ℤ → List String → Memory F → List String → Memory F × List String
  unfolding claimable take_claim
  claim_loop now ttl limit [] m out = (m, out)
  claim_loop now ttl limit (id ∷ order) m out =
      let due = claimable (unix now) m id in
      let rest =
        claim_loop now ttl limit order (if due then take_claim now ttl m id else m)
          (if due then out ++ id ∷ [] else out) in
      if leb_ℤ limit (pos (length out)) then (m, out) else rest

  unfoldable pub claim_refresh_due :
      List String → Memory F → ℤ → ℤ → ℤ → Memory F × Result StateError (List String)
  unfolding claim_loop
  claim_refresh_due order m now limit ttl =
      let limit' = if leb_ℤ limit (pos 0) then pos 1 else limit in
      let (m', out) = claim_loop now ttl limit' order m [] in
      if m.is_closed then (m, err closed) else (m', ok out)
