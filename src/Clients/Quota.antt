-- ===== src/Clients/Quota.antt =====
-- internal/clients/store.go: reserving, refunding, settling and recording quota. Sums stay in an
-- int64: the wrap-around of a balance past 2^63 is not modelled.
pub mod Ledger
pub mod Pairs
use grokbuild_pool.Base.{
  ℤ, pos, ◌+ℤ◌, ◌-ℤ◌, ltb_ℤ, leb_ℤ, String, Bool, true, false, not, ◌&&◌, ◌||◌, Option, none, some,
  if◌then◌else◌, string_eq, lookup, insert, Result, ok, err,
}
use grokbuild_pool.Clients.Token.{Token, ClientError, not_found, disabled, quota_exceeded, Table}

-- An amount that is not positive counts as 1.
abbrev pub at_least_one : ℤ → ℤ
at_least_one n = if leb_ℤ n (pos 0) then pos 1 else n

-- Enough is left, or the token has no limit.
abbrev pub covers : Token → ℤ → Bool
covers t amount = t.unlimited_quota || leb_ℤ amount t.remain_quota

-- The update of `remain_quota`: none for a token without a limit.
abbrev pub charge : Token → ℤ → ℤ
charge t amount = if t.unlimited_quota then t.remain_quota else t.remain_quota -ℤ amount

-- Why a conditional update touched no row.
abbrev pub refusal : Token → ℤ → ClientError
refusal t amount =
    if not t.enabled
    then disabled
    else if not t.unlimited_quota && ltb_ℤ t.remain_quota amount
    then quota_exceeded
    else not_found

abbrev pub Answer : Type 0
Answer = Table × Result ClientError (Unit {0})

unfoldable pub reserve_quota : ℤ → Table → String → ℤ → Answer
reserve_quota clock db id given =
    let amount = at_least_one given in
    elim (lookup id db) [
      | none ↦ (db, err not_found)
      | some t ↦
          if t.enabled && covers t amount
          then (
            insert id (record t { remain_quota = charge t amount; updated_at = clock }) db,
            ok tt,
          )
          else (db, err (refusal t amount))
    ]

unfoldable pub refund_quota : ℤ → Table → String → ℤ → Answer
refund_quota clock db id given =
    let amount = at_least_one given in
    elim (lookup id db) [
      | none ↦ (db, err not_found)
      | some t ↦
          if t.enabled
          then (
            insert id
                (record t {
                  remain_quota =
                      if t.unlimited_quota then t.remain_quota else t.remain_quota +ℤ amount;
                  updated_at = clock;
                })
                db,
            ok tt,
          )
          else (db, err not_found)
    ]

-- What a settlement above the reservation takes from the balance, and whether that is too little.
abbrev pub extra_charge : Token → ℤ → ℤ
extra_charge t delta =
    if ltb_ℤ (pos 0) delta && not t.unlimited_quota
    then (if leb_ℤ delta t.remain_quota then delta else t.remain_quota)
    else pos 0

abbrev pub falls_short : Token → ℤ → Bool
falls_short t delta =
    ltb_ℤ (pos 0) delta && not t.unlimited_quota && not (leb_ℤ delta t.remain_quota)

abbrev pub refund_of : Token → ℤ → ℤ
refund_of t delta = if ltb_ℤ delta (pos 0) && not t.unlimited_quota then pos 0 -ℤ delta else pos 0

unfoldable pub settled : ℤ → Token → ℤ → ℤ → Token
settled clock t reserved actual =
    let delta = actual -ℤ reserved in
    record t {
      used_quota = t.used_quota +ℤ actual;
      request_count = t.request_count +ℤ pos 1;
      remain_quota =
          if t.unlimited_quota
          then t.remain_quota
          else (t.remain_quota -ℤ extra_charge t delta) +ℤ refund_of t delta;
      last_used_at = clock;
      updated_at = clock;
    }

unfoldable pub settle_usage : ℤ → Table → String → ℤ → ℤ → Answer
unfolding settled
settle_usage clock db id given_reserved given_actual =
    let reserved = at_least_one given_reserved in
    let actual = at_least_one given_actual in
    elim (lookup id db) [
      | none ↦ (db, err not_found)
      | some t ↦ if not t.enabled then (db, err disabled) else (
        insert id (settled clock t reserved actual) db,
        if falls_short t (actual -ℤ reserved) then err quota_exceeded else ok tt,
      )
    ]

unfoldable pub record_usage : ℤ → Table → String → ℤ → Answer
record_usage clock db id given =
    let cost = at_least_one given in
    elim (lookup id db) [
      | none ↦ (db, err not_found)
      | some t ↦
          if t.enabled && covers t cost
          then (
            insert id
                (record t {
                  used_quota = t.used_quota +ℤ cost;
                  request_count = t.request_count +ℤ pos 1;
                  remain_quota = charge t cost;
                  last_used_at = clock;
                  updated_at = clock;
                })
                db,
            ok tt,
          )
          else (db, err (refusal t cost))
    ]
