-- ===== src/Clients/Quota/Ledger.antt =====
-- internal/clients/store.go: balances through any sequence of calls.
use grokbuild_pool.Base.{
  ℤ, pos, ◌-ℤ◌, ◌≤ℤ◌, +ℤ_parts, -ℤ_parts, String, Bool, List, [], ◌∷◌, some, string_eq, lookup,
  insert, lookup-insert, lookup-delete, ok, ◌≡◌, arith, option_split, if_split, result_split, not,
  ◌&&◌, has,
}
use grokbuild_pool.Clients.Token.{Token, Table, PatchRequest}
use grokbuild_pool.Clients.Store.{set_enabled, delete_row, patch, patched}
use grokbuild_pool.Clients.Quota.{
  reserve_quota, refund_quota, settle_usage, record_usage, settled, at_least_one, covers,
}

-- The calls that change a row, each with the reading of the clock.
pub data QuotaCall : Type 0 where
  reserve : ℤ → String → ℤ → QuotaCall
  refund : ℤ → String → ℤ → QuotaCall
  settle : ℤ → String → ℤ → ℤ → QuotaCall
  record_cost : ℤ → String → ℤ → QuotaCall
  patch_token : ℤ → String → PatchRequest → QuotaCall
  enable : ℤ → String → Bool → QuotaCall
  remove : String → QuotaCall

unfoldable pub call : Table → QuotaCall → Table
call db (reserve clock id n) = (reserve_quota clock db id n).0
call db (refund clock id n) = (refund_quota clock db id n).0
call db (settle clock id r a) = (settle_usage clock db id r a).0
call db (record_cost clock id n) = (record_usage clock db id n).0
call db (patch_token clock id req) = (patch clock db id req).0
call db (enable clock id on) = (set_enabled clock db id on).0
call db (remove id) = (delete_row db id).0

unfoldable pub calls : Table → List QuotaCall → Table
unfolding call
calls db [] = db
calls db (c ∷ cs) = calls (call db c) cs

-- No balance is negative.
abbrev pub IsSolvent : Table → Type 0
IsSolvent db = (id : String) (t : Token) → lookup id db ≡ some t → pos 0 ≤ℤ t.remain_quota

insert-IsSolvent :
    (db : Table) (id : String) (t : Token)
    → IsSolvent db
    → pos 0 ≤ℤ t.remain_quota
    → IsSolvent (insert id t db)
insert-IsSolvent db id t h le j u e = ground (arith, lookup-insert id j t db, h j u)

settled-solvent :
    (clock : ℤ) (t : Token) (r a : ℤ)
    → pos 0 ≤ℤ t.remain_quota
    → pos 0 ≤ℤ (settled clock t r a).remain_quota
unfolding settled
settled-solvent clock t r a h =
    let delta = a -ℤ r in
    ground (
      arith,
      -ℤ_parts a r,
      -ℤ_parts t.remain_quota delta,
      -ℤ_parts t.remain_quota t.remain_quota,
      -ℤ_parts t.remain_quota (pos 0),
      -ℤ_parts (pos 0) delta,
      +ℤ_parts (t.remain_quota -ℤ delta) (pos 0),
      +ℤ_parts (t.remain_quota -ℤ t.remain_quota) (pos 0),
      +ℤ_parts (t.remain_quota -ℤ pos 0) (pos 0),
      +ℤ_parts (t.remain_quota -ℤ pos 0) (pos 0 -ℤ delta),
    )

patched-solvent :
    (clock : ℤ) (t t' : Token) (req : PatchRequest)
    → pos 0 ≤ℤ t.remain_quota
    → patched clock t req ≡ ok t'
    → pos 0 ≤ℤ t'.remain_quota
unfolding patched
patched-solvent clock t t' req h e = ground arith

-- What an operation leaves in the table is solvent.
abbrev Kept {ℓ} : {A : Type ℓ} → Table × A → Type 0
Kept r = IsSolvent r.0

reserve-kept :
    (clock : ℤ) (db : Table) (id : String) (n : ℤ)
    → IsSolvent db
    → IsSolvent (reserve_quota clock db id n).0
unfolding reserve_quota
reserve-kept clock db id n h =
    let a = at_least_one n in
    option_split Kept (lookup id db) (λ miss. h)
      (λ t at.
        if_split Kept (t.enabled && covers t a)
          (λ yes. insert-IsSolvent db id _ h (ground (arith, h id t at, -ℤ_parts t.remain_quota a)))
          (λ no. h))

refund-kept :
    (clock : ℤ) (db : Table) (id : String) (n : ℤ)
    → IsSolvent db
    → IsSolvent (refund_quota clock db id n).0
unfolding refund_quota
refund-kept clock db id n h =
    let a = at_least_one n in
    option_split Kept (lookup id db) (λ miss. h)
      (λ t at.
        if_split Kept t.enabled
          (λ yes. insert-IsSolvent db id _ h (ground (arith, h id t at, +ℤ_parts t.remain_quota a)))
          (λ no. h))

record-kept :
    (clock : ℤ) (db : Table) (id : String) (n : ℤ)
    → IsSolvent db
    → IsSolvent (record_usage clock db id n).0
unfolding record_usage
record-kept clock db id n h =
    let a = at_least_one n in
    option_split Kept (lookup id db) (λ miss. h)
      (λ t at.
        if_split Kept (t.enabled && covers t a)
          (λ yes. insert-IsSolvent db id _ h (ground (arith, h id t at, -ℤ_parts t.remain_quota a)))
          (λ no. h))

settle-kept :
    (clock : ℤ) (db : Table) (id : String) (r a : ℤ)
    → IsSolvent db
    → IsSolvent (settle_usage clock db id r a).0
unfolding settle_usage
settle-kept clock db id r a h =
    option_split Kept (lookup id db) (λ miss. h)
      (λ t at.
        if_split Kept (not t.enabled) (λ off. h)
          (λ on.
            insert-IsSolvent db id _ h
              (settled-solvent clock t (at_least_one r) (at_least_one a) (h id t at))))

patch-kept :
    (clock : ℤ) (db : Table) (id : String) (req : PatchRequest)
    → IsSolvent db
    → IsSolvent (patch clock db id req).0
unfolding patch
patch-kept clock db id req h =
    option_split Kept (lookup id db) (λ miss. h)
      (λ t at.
        result_split Kept (patched clock t req)
          (λ t' made. insert-IsSolvent db id t' h (patched-solvent clock t t' req (h id t at) made))
          (λ e no. h))

enable-kept :
    (clock : ℤ) (db : Table) (id : String) (on : Bool)
    → IsSolvent db
    → IsSolvent (set_enabled clock db id on).0
unfolding set_enabled
enable-kept clock db id on h =
    option_split Kept (lookup id db) (λ miss. h) (λ t at. insert-IsSolvent db id _ h (h id t at))

remove-kept : (db : Table) (id : String) → IsSolvent db → IsSolvent (delete_row db id).0
unfolding delete_row
remove-kept db id h =
    if_split Kept (has id db) (λ yes j u e. ground (arith, lookup-delete id j db, h j u)) (λ no. h)

call-IsSolvent : (db : Table) (c : QuotaCall) → IsSolvent db → IsSolvent (call db c)
unfolding call
call-IsSolvent db (reserve clock id n) h = reserve-kept clock db id n h
call-IsSolvent db (refund clock id n) h = refund-kept clock db id n h
call-IsSolvent db (settle clock id r a) h = settle-kept clock db id r a h
call-IsSolvent db (record_cost clock id n) h = record-kept clock db id n h
call-IsSolvent db (patch_token clock id req) h = patch-kept clock db id req h
call-IsSolvent db (enable clock id on) h = enable-kept clock db id on h
call-IsSolvent db (remove id) h = remove-kept db id h

-- In a table without negative balances, no sequence of reservations, refunds, settlements,
-- recordings, patches, switches and deletions makes a balance negative.
pub calls-IsSolvent : (db : Table) (cs : List QuotaCall) → IsSolvent db → IsSolvent (calls db cs)
unfolding calls
calls-IsSolvent db [] h = h
calls-IsSolvent db (c ∷ cs) h = calls-IsSolvent (call db c) cs (call-IsSolvent db c h)
