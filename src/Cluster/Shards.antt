-- ===== src/Cluster/Shards.antt =====
-- internal/clusterstate/memory.go: a shard has one owner while its lease runs.
use grokbuild_pool.Base.{
  ℤ, pos, ◌<ℤ◌, ◌+ℤ◌, String, true, false, List, [], ◌∷◌, some, if◌then◌else◌, string_eq, int_eq,
  eq_iff, eqb_ℤ_iff, lookup, lookup-insert, lookup-delete, Result, ok, ◌≡◌, ◌≢◌, ◌⊎◌, ◌++◌, refl,
  arith, All, leb_ℤ, if_split, inl, inr, Option-cases,
}
use grokbuild_pool.Cluster.Memory.{
  StickyBinding, ShardLease, StateError, Memory, unix, close, put_sticky, clear_sticky,
  clear_sticky_account, incr_inflight, decr_inflight, set_cooldown, clear_cooldown, granted,
  try_acquire_shard, renew_shard, release_shard, get_shard_owner, replace_workset, add_refresh_due,
  claim_refresh_due, claim_loop, take_claim,
}

-- The calls that change the state, each with its readings of the clock.
pub data Call (F : Type 0) : Type 0 where
  put : ℤ → String → StickyBinding → ℤ → Call F
  clear_key clear_account incr decr cool_off : String → Call F
  cool : String → ℤ → Call F
  acquire : ℤ → ℤ → ℤ → String → ℤ → Call F
  renew : ℤ → ℤ → String → ℤ → Call F
  release : ℤ → String → Call F
  workset : ℤ → List String → List F → Call F
  add_due : String → ℤ → Call F
  claim : List String → ℤ → ℤ → ℤ → Call F
  shut : Call F

module _ {F : Type 0} (zero_score : F) where
  unfoldable pub call : Memory F → Call F → Memory F
  call m (put now key b ttl) = (put_sticky now m key b ttl).0
  call m (clear_key key) = (clear_sticky m key).0
  call m (clear_account id) = (clear_sticky_account m id).0
  call m (incr id) = (incr_inflight m id).0
  call m (decr id) = (decr_inflight m id).0
  call m (cool_off id) = (clear_cooldown m id).0
  call m (cool id until) = (set_cooldown m id until).0
  call m (acquire now later shard worker ttl) = (try_acquire_shard now later m shard worker ttl).0
  call m (renew now shard worker ttl) = (renew_shard now m shard worker ttl).0
  call m (release shard worker) = (release_shard m shard worker).0
  call m (workset shard ids scores) = (replace_workset zero_score m shard ids scores).0
  call m (add_due id due) = (add_refresh_due m id due).0
  call m (claim order now limit ttl) = (claim_refresh_due order m now limit ttl).0
  call m shut = close m

  unfoldable pub calls : Memory F → List (Call F) → Memory F
  calls m [] = m
  calls m (c ∷ cs) = calls (call m c) cs

-- A call that leaves the owner its shard: an acquisition before the lease ends or a renewal or a
-- release, if it is of another shard or by another worker; or any other call.
abbrev pub IsForeign : {F : Type 0} → ℤ → String → ℤ → Call F → Type 0
IsForeign shard owner end (acquire now later s worker ttl) =
    (s ≢ shard) ⊎ ((worker ≢ owner) × (unix now <ℤ end))
IsForeign shard owner end (renew now s worker ttl) = (s ≢ shard) ⊎ (worker ≢ owner)
IsForeign shard owner end (release s worker) = (s ≢ shard) ⊎ (worker ≢ owner)
IsForeign shard owner end _ = Unit {0}

module _ {F : Type 0} (zero_score : F) where
  claim_loop-shards :
      (now ttl limit : ℤ) (order : List String) (m : Memory F) (out : List String)
      → (claim_loop now ttl limit order m out).0.shards ≡ m.shards
  unfolding claim_loop
  claim_loop-shards now ttl limit [] m out = refl
  claim_loop-shards now ttl limit (id ∷ order) m out = ground (
    arith,
    claim_loop-shards now ttl limit order (take_claim now ttl m id) (out ++ id ∷ []),
    claim_loop-shards now ttl limit order m out,
  )

  claim_refresh_due-shards :
      (order : List String) (m : Memory F) (now limit ttl : ℤ)
      → (claim_refresh_due order m now limit ttl).0.shards ≡ m.shards
  unfolding claim_refresh_due
  claim_refresh_due-shards order m now limit ttl =
      if_split (λ (r : Memory F × Result StateError (List String)). r.0.shards ≡ m.shards)
        m.is_closed (λ _. refl)
        (λ _. claim_loop-shards now ttl (if leb_ℤ limit (pos 0) then pos 1 else limit) order m [])

  renew-keeps :
      (now : ℤ) (m : Memory F) (s : ℤ) (worker : String) (ttl : ℤ) (shard : ℤ) (l : ShardLease)
      → lookup shard m.shards ≡ some l
      → (s ≢ shard) ⊎ (worker ≢ l.worker_id)
      → lookup shard (renew_shard now m s worker ttl).0.shards ≡ some l
  unfolding renew_shard
  renew-keeps now m s worker ttl shard l at f = elim (Option-cases (lookup s m.shards)) [
    | inl e ↦ ground arith
    | inr (cur, e) ↦ rw e (
        ground (
          arith,
          lookup-insert s shard (record cur { exp = unix (now +ℤ ttl) }) m.shards,
          eqb_ℤ_iff s shard,
          eq_iff cur.worker_id worker,
        ))
  ]

  call-keeps :
      (m : Memory F) (c : Call F) (shard : ℤ) (l : ShardLease)
      → lookup shard m.shards ≡ some l
      → IsForeign shard l.worker_id l.exp c
      → lookup shard (call zero_score m c).shards ≡ some l
  unfolding call
  call-keeps m (put now key b ttl) shard l at f = unfold put_sticky in ground arith
  call-keeps m (clear_key key) shard l at f = unfold clear_sticky in ground arith
  call-keeps m (clear_account id) shard l at f = unfold clear_sticky_account in ground arith
  call-keeps m (incr id) shard l at f = unfold incr_inflight in ground arith
  call-keeps m (decr id) shard l at f = unfold decr_inflight in ground arith
  call-keeps m (cool_off id) shard l at f = unfold clear_cooldown in ground arith
  call-keeps m (cool id until) shard l at f = unfold set_cooldown in ground arith
  call-keeps m (acquire now later s worker ttl) shard l at f =
      unfold try_acquire_shard in
      ground (
        arith,
        lookup-insert s shard (granted later m s worker ttl) m.shards,
        eqb_ℤ_iff s shard,
        eq_iff l.worker_id worker,
      )
  call-keeps m (renew now s worker ttl) shard l at f = renew-keeps now m s worker ttl shard l at f
  call-keeps m (release s worker) shard l at f =
      unfold release_shard in
      ground (arith, lookup-delete s shard m.shards, eqb_ℤ_iff s shard, eq_iff l.worker_id worker)
  call-keeps m (workset s ids scores) shard l at f = unfold replace_workset in ground arith
  call-keeps m (add_due id due) shard l at f = unfold add_refresh_due in ground arith
  call-keeps m (claim order now limit ttl) shard l at f =
      rw (claim_refresh_due-shards order m now limit ttl) at
  call-keeps m shut shard l at f = unfold close in at

  calls-keeps :
      (m : Memory F) (cs : List (Call F)) (shard : ℤ) (l : ShardLease)
      → lookup shard m.shards ≡ some l
      → All (IsForeign shard l.worker_id l.exp) cs
      → lookup shard (calls zero_score m cs).shards ≡ some l
  unfolding calls
  calls-keeps m [] shard l at f = at
  calls-keeps m (c ∷ cs) shard l at f =
      calls-keeps (call zero_score m c) cs shard l (call-keeps m c shard l at f.0) f.1

  granted_holds :
      (now later : ℤ) (m : Memory F) (shard : ℤ) (worker : String) (ttl : ℤ) (l : ShardLease)
      → (try_acquire_shard now later m shard worker ttl).1 ≡ ok (some l, true)
      → lookup shard (try_acquire_shard now later m shard worker ttl).0.shards ≡ some l
  unfolding try_acquire_shard
  granted_holds now later m shard worker ttl l won = ground (
    arith,
    lookup-insert shard shard (granted later m shard worker ttl) m.shards,
    eqb_ℤ_iff shard shard,
  )

  held_refused :
      (now later : ℤ) (m : Memory F) (shard : ℤ) (other : String) (ttl : ℤ) (l : ShardLease)
      → lookup shard m.shards ≡ some l
      → m.is_closed ≡ false
      → unix now <ℤ l.exp
      → other ≢ l.worker_id
      → (get_shard_owner now m shard ≡ ok l)
        × (try_acquire_shard now later m shard other ttl ≡ (m, ok (some l, false)))
  unfolding get_shard_owner try_acquire_shard
  held_refused now later m shard other ttl l at up early foreign =
      (ground arith, ground (arith, eq_iff l.worker_id other))

  -- A shard has one owner: once a worker has been granted a shard, then until the lease ends, and
  -- whatever calls are made in between that are not its own on that shard, the owner of the shard is
  -- that lease, and an acquisition by another worker changes nothing and answers with the lease of
  -- the owner. The calls in between may be any of all methods, with acquisitions of the shard before
  -- the lease ends, and leave the state open.
  pub acquired-exclusive :
      (now later : ℤ) (m : Memory F) (shard : ℤ) (worker : String) (ttl : ℤ) (l : ShardLease)
      (cs : List (Call F)) (at later_at : ℤ) (other : String) (other_ttl : ℤ)
      → (try_acquire_shard now later m shard worker ttl).1 ≡ ok (some l, true)
      → All (IsForeign shard l.worker_id l.exp) cs
      → (calls zero_score (try_acquire_shard now later m shard worker ttl).0 cs).is_closed ≡ false
      → unix at <ℤ l.exp
      → other ≢ l.worker_id
      → (let m' = calls zero_score (try_acquire_shard now later m shard worker ttl).0 cs in
          (get_shard_owner at m' shard ≡ ok l)
          × (try_acquire_shard at later_at m' shard other other_ttl ≡ (m', ok (some l, false))))
  acquired-exclusive now later m shard worker ttl l cs at later_at other other_ttl won foreign up
        early apart =
      held_refused at later_at
        (calls zero_score (try_acquire_shard now later m shard worker ttl).0 cs) shard other
        other_ttl l
        (calls-keeps (try_acquire_shard now later m shard worker ttl).0 cs shard l
          (granted_holds now later m shard worker ttl l won) foreign)
        up early apart
