-- ===== src/Clients/Quota/Pairs.antt =====
-- internal/clients/store.go: what a reservation and the call that ends it come to together.
use grokbuild_pool.Base.{
  ℤ, pos, ◌+ℤ◌, ◌-ℤ◌, ◌≤ℤ◌, ◌<ℤ◌, +ℤ_parts, -ℤ_parts, eq_of_parts, String, true, false, some,
  if◌then◌else◌, string_eq, eq_iff, lookup, insert, lookup-insert, Result, ok, err, ◌≡◌, refl, ap,
  arith, ◌⊎◌, ◌∙◌, sym,
}
use grokbuild_pool.Clients.Token.{Token, Table, ClientError, quota_exceeded}
use grokbuild_pool.Clients.Quota.{
  reserve_quota, refund_quota, settle_usage, record_usage, settled, at_least_one, charge, covers,
  falls_short,
}

lookup-insert_same : (id : String) (t : Token) (db : Table) → lookup id (insert id t db) ≡ some t
lookup-insert_same id t db = ground (arith, lookup-insert id id t db, eq_iff id id)

reserved_row : ℤ → Token → ℤ → Token
reserved_row clock t n = record t { remain_quota = charge t n; updated_at = clock }

reserve_granted :
    (clock : ℤ) (db : Table) (id : String) (t : Token) (n : ℤ)
    → lookup id db ≡ some t
    → t.enabled ≡ true
    → covers t (at_least_one n) ≡ true
    → reserve_quota clock db id n ≡ (insert id (reserved_row clock t (at_least_one n)) db, ok tt)
unfolding reserve_quota reserved_row
reserve_granted clock db id t n at on enough = rw (reserve_quota, at, on, enough) refl

settle_row :
    (clock : ℤ) (db : Table) (id : String) (t : Token) (r a : ℤ)
    → lookup id db ≡ some t
    → t.enabled ≡ true
    → settle_usage clock db id r a ≡ (
      insert id (settled clock t (at_least_one r) (at_least_one a)) db,
      if falls_short t (at_least_one a -ℤ at_least_one r) then err quota_exceeded else ok tt,
    )
unfolding settle_usage
settle_row clock db id t r a at on = rw (settle_usage, at, on) refl

-- The balance and the use of a row after a settlement, and the answer.
unfoldable pub IsSettled : Token → ℤ → Token → Result ClientError (Unit {0}) → Type 0
IsSettled t a t' answer =
    (t'.used_quota ≡ t.used_quota +ℤ a)
    × (((answer ≡ ok tt) × (t'.remain_quota ≡ t.remain_quota -ℤ a) × (a ≤ℤ t.remain_quota))
        ⊎ ((answer ≡ err quota_exceeded) × (t'.remain_quota ≡ pos 0) × (t.remain_quota <ℤ a)))

settled_row_lem :
    (c d : ℤ) (t : Token) (n a : ℤ)
    → t.unlimited_quota ≡ false
    → pos 1 ≤ℤ n
    → pos 1 ≤ℤ a
    → n ≤ℤ t.remain_quota
    → IsSettled t a
        (settled d (reserved_row c t n) n a)
        (if falls_short (reserved_row c t n) (a -ℤ n) then err quota_exceeded else ok tt)
unfolding IsSettled settled reserved_row
settled_row_lem c d t n a lim hn ha h =
    let left = t.remain_quota -ℤ n in
    let delta = a -ℤ n in
    rw lim (
      refl,
      ground (
        arith,
        eq_of_parts (settled d (reserved_row c t n) n a).remain_quota (t.remain_quota -ℤ a),
        eq_of_parts (settled d (reserved_row c t n) n a).remain_quota (pos 0),
        -ℤ_parts t.remain_quota n,
        -ℤ_parts a n,
        -ℤ_parts t.remain_quota a,
        -ℤ_parts left delta,
        -ℤ_parts left left,
        -ℤ_parts left (pos 0),
        -ℤ_parts (pos 0) delta,
        +ℤ_parts (left -ℤ delta) (pos 0),
        +ℤ_parts (left -ℤ left) (pos 0),
        +ℤ_parts (left -ℤ pos 0) (pos 0),
        +ℤ_parts (left -ℤ pos 0) (pos 0 -ℤ delta),
      ),
    )

-- When an enabled token with a limit has the quota for a reservation, the reservation is granted,
-- and settling it with an actual cost adds that cost to the use and either takes that cost from the
-- balance before the reservation and succeeds, or, where that balance is smaller than the cost,
-- leaves 0 and answers that the quota is exceeded.
pub settle-reserve :
    (c d : ℤ) (db : Table) (id : String) (t : Token) (n a : ℤ)
    → lookup id db ≡ some t
    → t.enabled ≡ true
    → t.unlimited_quota ≡ false
    → at_least_one n ≤ℤ t.remain_quota
    → (let (db', granted) = reserve_quota c db id n in
        let (db'', answer) = settle_usage d db' id n a in
        (granted ≡ ok tt)
        × ((t' : Token) × ((lookup id db'' ≡ some t') × IsSettled t (at_least_one a) t' answer)))
unfolding reserved_row
settle-reserve c d db id t n a at on lim h =
    let r = reserved_row c t (at_least_one n) in
    rw (reserve_granted c db id t n at on (ground arith)) (
      rw (settle_row d (insert id r db) id r n a (lookup-insert_same id r db) on) (
        refl,
        (
          settled d r (at_least_one n) (at_least_one a),
          (
            lookup-insert_same id (settled d r (at_least_one n) (at_least_one a)) (insert id r db),
            settled_row_lem c d t (at_least_one n) (at_least_one a) lim (ground arith)
                (ground arith) h,
          ),
        ),
      ))

refunded : ℤ → Token → ℤ → Token
refunded clock t n = record t {
  remain_quota = if t.unlimited_quota then t.remain_quota else t.remain_quota +ℤ n;
  updated_at = clock;
}

refund_row :
    (clock : ℤ) (db : Table) (id : String) (t : Token) (n : ℤ)
    → lookup id db ≡ some t
    → t.enabled ≡ true
    → refund_quota clock db id n ≡ (insert id (refunded clock t (at_least_one n)) db, ok tt)
unfolding refunded refund_quota
refund_row clock db id t n at on = rw (refund_quota, at, on) refl

refund_charge :
    (t : Token) (n : ℤ)
    → (if t.unlimited_quota then charge t n else charge t n +ℤ n) ≡ t.remain_quota
refund_charge t n = ground (
  arith,
  eq_of_parts ((t.remain_quota -ℤ n) +ℤ n) t.remain_quota,
  -ℤ_parts t.remain_quota n,
  +ℤ_parts (t.remain_quota -ℤ n) n,
)

-- A refund of the reserved amount, on an enabled token whose quota covers the reservation, brings
-- the balance back to what it was and leaves the use alone.
refund-reserve :
    (c d : ℤ) (db : Table) (id : String) (t : Token) (n : ℤ)
    → lookup id db ≡ some t
    → t.enabled ≡ true
    → covers t (at_least_one n) ≡ true
    → (let (db'', answer) = refund_quota d (reserve_quota c db id n).0 id n in
        (answer ≡ ok tt) × (lookup id db'' ≡ some (record t { updated_at = d })))
unfolding reserved_row refunded
refund-reserve c d db id t n at on enough =
    let r = reserved_row c t (at_least_one n) in
    let r' = refunded d r (at_least_one n) in
    rw (reserve_granted c db id t n at on enough) (
      rw (refund_row d (insert id r db) id r n (lookup-insert_same id r db) on) (
        refl,
        lookup-insert_same id r' (insert id r db)
            ∙ ap some (
                ap (λ q. record t { remain_quota = q; updated_at = d })
                  (refund_charge t (at_least_one n))),
      ))

recorded : ℤ → Token → ℤ → Token
recorded clock t n = record t {
  used_quota = t.used_quota +ℤ n;
  request_count = t.request_count +ℤ pos 1;
  remain_quota = charge t n;
  last_used_at = clock;
  updated_at = clock;
}

record_row :
    (clock : ℤ) (db : Table) (id : String) (t : Token) (n : ℤ)
    → lookup id db ≡ some t
    → t.enabled ≡ true
    → covers t (at_least_one n) ≡ true
    → record_usage clock db id n ≡ (insert id (recorded clock t (at_least_one n)) db, ok tt)
unfolding recorded record_usage
record_row clock db id t n at on enough = rw (record_usage, at, on, enough) refl

recorded-settled :
    (c : ℤ) (t : Token) (n : ℤ) → pos 1 ≤ℤ n → recorded c t n ≡ settled c (reserved_row c t n) n n
unfolding recorded settled reserved_row
recorded-settled c t n h =
    let left = charge t n in
    let done = settled c (reserved_row c t n) n n in
    ap (λ q. record (recorded c t n) { remain_quota = q })
      (ground (
        arith,
        eq_of_parts left done.remain_quota,
        -ℤ_parts n n,
        -ℤ_parts left (pos 0),
        +ℤ_parts (left -ℤ pos 0) (pos 0),
      ))

-- Recording a cost at once does to a row what reserving that cost and settling it does, at one
-- reading of the clock, when the token is enabled and its quota covers the cost.
pub record-settle :
    (c : ℤ) (db : Table) (id : String) (t : Token) (n : ℤ)
    → lookup id db ≡ some t
    → t.enabled ≡ true
    → covers t (at_least_one n) ≡ true
    → lookup id (record_usage c db id n).0
      ≡ lookup id (settle_usage c (reserve_quota c db id n).0 id n n).0
unfolding reserved_row
record-settle c db id t n at on enough =
    let r = reserved_row c t (at_least_one n) in
    let a = at_least_one n in
    rw (reserve_granted c db id t n at on enough, record_row c db id t n at on enough)
      (rw (settle_row c (insert id r db) id r n n (lookup-insert_same id r db) on) (
        lookup-insert_same id (recorded c t a) db
        ∙ (ap some (recorded-settled c t a (ground arith))
            ∙ sym (lookup-insert_same id (settled c r a a) (insert id r db)))))
