-- ===== src/Cluster/Refresh.antt =====
-- internal/clusterstate/memory.go: an account that is due for a refresh is claimed once.
use grokbuild_pool.Base.{
  ℤ, pos, ◌<ℤ◌, ◌+ℤ◌, leb_ℤ, length, zero, suc, String, true, false, List, [], ◌∷◌, ◌++◌, some,
  if◌then◌else◌, string_eq, eq_iff, lookup, lookup-insert, Result, ok, ◌≡◌, ◌≢◌, subst, arith, All,
  All-append, At, get_elem?, if_split, Bool-cases, inl, inr,
}
use grokbuild_pool.Cluster.Memory.{
  StateError, Memory, unix, close, put_sticky, clear_sticky, clear_sticky_account, incr_inflight,
  decr_inflight, set_cooldown, clear_cooldown, try_acquire_shard, renew_shard, release_shard,
  replace_workset, add_refresh_due, claim_refresh_due, claim_loop, claimable, take_claim,
}
use grokbuild_pool.Cluster.Shards.{
  Call, put, clear_key, clear_account, incr, decr, cool_off, cool, acquire, renew, release, workset,
  add_due, claim, shut, call, calls,
}

-- A claim is made before a time; every other call may be made at any.
abbrev pub IsBefore : {F : Type 0} → ℤ → Call F → Type 0
IsBefore end (claim order now limit ttl) = unix now <ℤ end
IsBefore end _ = Unit {0}

All_at {ℓ} : {A : Type 0} (P : A → Type ℓ) (xs : List A) (a : A) → All P xs → At a xs → P a
unfolding get_elem?
All_at P [] a h (i, e) = cc
All_at P (x ∷ xs) a h (zero, e) = subst P (cc) h.0
All_at P (x ∷ xs) a h (suc i, e) = All_at P xs a h.1 (i, e)

module _ {F : Type 0} where
  -- Accounts whose lock ends at a time.
  AllLocked : ℤ → Memory F → List String → Type 0
  AllLocked end m = All (λ id. lookup id m.locks ≡ some end)

  take_claim-AllLocked :
      (now ttl : ℤ) (m : Memory F) (id : String) (out : List String)
      → AllLocked (unix (now +ℤ ttl)) m out
      → AllLocked (unix (now +ℤ ttl)) (take_claim now ttl m id) out
  unfolding AllLocked take_claim
  take_claim-AllLocked now ttl m id [] h = tt
  take_claim-AllLocked now ttl m id (j ∷ out) h = (
    ground (arith, lookup-insert id j (unix (now +ℤ ttl)) m.locks),
    take_claim-AllLocked now ttl m id out h.1,
  )

  claimed-AllLocked :
      (now ttl : ℤ) (m : Memory F) (id : String) (out : List String)
      → AllLocked (unix (now +ℤ ttl)) m out
      → AllLocked (unix (now +ℤ ttl)) (take_claim now ttl m id) (out ++ id ∷ [])
  unfolding AllLocked
  claimed-AllLocked now ttl m id out h =
      All-append (λ j. lookup j (take_claim now ttl m id).locks ≡ some (unix (now +ℤ ttl))) out
        (id ∷ []) (take_claim-AllLocked now ttl m id out h)
        (
          unfold take_claim in
              ground (arith, lookup-insert id id (unix (now +ℤ ttl)) m.locks, eq_iff id id),
          tt,
        )

  claim_loop-AllLocked :
      (now ttl limit : ℤ) (order : List String) (m : Memory F) (out : List String)
      → AllLocked (unix (now +ℤ ttl)) m out
      → AllLocked
          (unix (now +ℤ ttl))
          (claim_loop now ttl limit order m out).0
          (claim_loop now ttl limit order m out).1
  unfolding claim_loop
  claim_loop-AllLocked now ttl limit [] m out h = h
  claim_loop-AllLocked now ttl limit (id ∷ order) m out h =
      let P = λ (r : Memory F × List String). AllLocked (unix (now +ℤ ttl)) r.0 r.1 in
      if_split P (leb_ℤ limit (pos (length out))) (λ _. h)
        (λ _. elim (Bool-cases (claimable (unix now) m id)) [
          | inl due ↦ rw due (
              claim_loop-AllLocked now ttl limit order (take_claim now ttl m id) (out ++ id ∷ [])
                (claimed-AllLocked now ttl m id out h))
          | inr not_due ↦ rw not_due (claim_loop-AllLocked now ttl limit order m out h)
        ])

  claimable_locked :
      (now : ℤ) (m : Memory F) (j : String) (end : ℤ)
      → lookup j m.locks ≡ some end
      → unix now <ℤ end
      → claimable (unix now) m j ≡ false
  unfolding claimable
  claimable_locked now m j end at early = ground arith

  take_claim-other :
      (now ttl : ℤ) (m : Memory F) (id j : String) (end : ℤ)
      → lookup j m.locks ≡ some end
      → unix now <ℤ end
      → claimable (unix now) m id ≡ true
      → (lookup j (take_claim now ttl m id).locks ≡ some end) × (id ≢ j)
  unfolding take_claim
  take_claim-other now ttl m id j end at early due =
      let apart : id ≢ j = λ e. cc (
        subst (λ k. claimable (unix now) m k ≡ true) e due,
        claimable_locked now m j end at early,
      ) in
      (ground (arith, lookup-insert id j (unix (now +ℤ ttl)) m.locks, eq_iff id j), apart)

  claim_loop-spares :
      (now ttl limit : ℤ) (order : List String) (m : Memory F) (out : List String) (j : String)
      (end : ℤ)
      → lookup j m.locks ≡ some end
      → unix now <ℤ end
      → All (λ id. id ≢ j) out
      → (lookup j (claim_loop now ttl limit order m out).0.locks ≡ some end)
        × All (λ id. id ≢ j) (claim_loop now ttl limit order m out).1
  unfolding claim_loop
  claim_loop-spares now ttl limit [] m out j end at early h = (at, h)
  claim_loop-spares now ttl limit (id ∷ order) m out j end at early h =
      let P =
        λ (r : Memory F × List String). (lookup j r.0.locks ≡ some end) × All (λ id. id ≢ j) r.1 in
      if_split P (leb_ℤ limit (pos (length out))) (λ _. (at, h))
        (λ _. elim (Bool-cases (claimable (unix now) m id)) [
          | inl due ↦
              let (at', apart) = take_claim-other now ttl m id j end at early due in
              rw due (
                claim_loop-spares now ttl limit order (take_claim now ttl m id) (out ++ id ∷ []) j
                  end at' early (All-append (λ id. id ≢ j) out (id ∷ []) h (apart, tt)))
          | inr not_due ↦ rw not_due (claim_loop-spares now ttl limit order m out j end at early h)
        ])

  claim_spares :
      (order : List String) (m : Memory F) (now limit ttl : ℤ) (j : String) (end : ℤ)
      → lookup j m.locks ≡ some end
      → unix now <ℤ end
      → (lookup j (claim_refresh_due order m now limit ttl).0.locks ≡ some end)
        × ((out : List String)
            → (claim_refresh_due order m now limit ttl).1 ≡ ok out
            → All (λ id. id ≢ j) out)
  unfolding claim_refresh_due
  claim_spares order m now limit ttl j end at early =
      let limit' = if leb_ℤ limit (pos 0) then pos 1 else limit in
      let P = λ (r : Memory F × Result StateError (List String)).
        (lookup j r.0.locks ≡ some end)
        × ((out : List String) → r.1 ≡ ok out → All (λ id. id ≢ j) out) in
      let (at', apart) = claim_loop-spares now ttl limit' order m [] j end at early tt in
      if_split P m.is_closed (λ _. (at, λ out e. ground arith))
        (λ _. (at', λ out e. subst (All (λ id. id ≢ j)) (cc) apart))

  call-locks :
      (zero_score : F) (m : Memory F) (c : Call F) (j : String) (end : ℤ)
      → lookup j m.locks ≡ some end
      → IsBefore end c
      → lookup j (call zero_score m c).locks ≡ some end
  unfolding call
  call-locks zero_score m (put now key b ttl) j end at f = unfold put_sticky in ground arith
  call-locks zero_score m (clear_key key) j end at f = unfold clear_sticky in ground arith
  call-locks zero_score m (clear_account id) j end at f =
      unfold clear_sticky_account in ground arith
  call-locks zero_score m (incr id) j end at f = unfold incr_inflight in ground arith
  call-locks zero_score m (decr id) j end at f = unfold decr_inflight in ground arith
  call-locks zero_score m (cool_off id) j end at f = unfold clear_cooldown in ground arith
  call-locks zero_score m (cool id until) j end at f = unfold set_cooldown in ground arith
  call-locks zero_score m (acquire now later s worker ttl) j end at f =
      unfold try_acquire_shard in ground arith
  call-locks zero_score m (renew now s worker ttl) j end at f = unfold renew_shard in ground arith
  call-locks zero_score m (release s worker) j end at f = unfold release_shard in ground arith
  call-locks zero_score m (workset s ids scores) j end at f = unfold replace_workset in ground arith
  call-locks zero_score m (add_due id due) j end at f = unfold add_refresh_due in ground arith
  call-locks zero_score m (claim order now limit ttl) j end at f =
      (claim_spares order m now limit ttl j end at f).0
  call-locks zero_score m shut j end at f = unfold close in at

  calls-locks :
      (zero_score : F) (m : Memory F) (cs : List (Call F)) (j : String) (end : ℤ)
      → lookup j m.locks ≡ some end
      → All (IsBefore end) cs
      → lookup j (calls zero_score m cs).locks ≡ some end
  unfolding calls
  calls-locks zero_score m [] j end at f = at
  calls-locks zero_score m (c ∷ cs) j end at f =
      calls-locks zero_score (call zero_score m c) cs j end (call-locks zero_score m c j end at f.0)
        f.1

  claimed_locked :
      (order : List String) (m : Memory F) (now limit ttl : ℤ) (out : List String) (id : String)
      → (claim_refresh_due order m now limit ttl).1 ≡ ok out
      → At id out
      → lookup id (claim_refresh_due order m now limit ttl).0.locks ≡ some (unix (now +ℤ ttl))
  unfolding claim_refresh_due AllLocked
  claimed_locked order m now limit ttl out id won at =
      let limit' = if leb_ℤ limit (pos 0) then pos 1 else limit in
      let P = λ (r : Memory F × Result StateError (List String)).
        r.1 ≡ ok out → lookup id r.0.locks ≡ some (unix (now +ℤ ttl)) in
      if_split P m.is_closed (λ _ e. ground arith)
        (λ _ e.
          All_at
            (λ j.
              lookup j (claim_loop now ttl limit' order m []).0.locks ≡ some (unix (now +ℤ ttl)))
            (claim_loop now ttl limit' order m []).1 id
            (claim_loop-AllLocked now ttl limit' order m [] tt) (subst (At id) (cc) at))
        won

  -- An account is claimed by one refresher: after a claim that answered it, and after whatever calls
  -- are made then, also if the account is made due again, no claim before the end of the lock
  -- answers it. The order in which each claim finds the accounts may be any.
  pub claimed-exclusive :
      (zero_score : F) (order : List String) (m : Memory F) (now limit ttl : ℤ) (out : List String)
      (id : String) (cs : List (Call F)) (order' : List String) (now' limit' ttl' : ℤ)
      (out' : List String)
      → (claim_refresh_due order m now limit ttl).1 ≡ ok out
      → At id out
      → All (IsBefore (unix (now +ℤ ttl))) cs
      → unix now' <ℤ unix (now +ℤ ttl)
      → (claim_refresh_due order'
          (calls zero_score (claim_refresh_due order m now limit ttl).0 cs)
          now'
          limit'
          ttl').1
        ≡ ok out'
      → All (λ other. other ≢ id) out'
  claimed-exclusive zero_score order m now limit ttl out id cs order' now' limit' ttl' out' won at
        before early =
      (claim_spares order' (calls zero_score (claim_refresh_due order m now limit ttl).0 cs) now'
          limit' ttl' id (unix (now +ℤ ttl))
          (calls-locks zero_score (claim_refresh_due order m now limit ttl).0 cs id
            (unix (now +ℤ ttl)) (claimed_locked order m now limit ttl out id won at) before)
          early).1
        out'
