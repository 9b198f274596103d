-- ===== src/Clients/Tests.antt =====
-- internal/clients: concrete inputs.
use grokbuild_pool.Base.{
  pos, true, false, ◌≡◌, refl, List, [], ◌∷◌, some, arith, string_eq, eq_iff, lookup, insert,
  trim_space, ◌≢◌, String, ok,
}
use grokbuild_pool.Clients.Token.{Token, Table}
use grokbuild_pool.Clients.Access.{IsRow, MayUse, info_of, authenticate-MayUse}
use grokbuild_pool.Clients.Store.{authenticate, by_hash, check_token}
use grokbuild_pool.Clients.Quota.{reserve_quota, settle_usage, record_usage, at_least_one}
use grokbuild_pool.Clients.Quota.Ledger.{
  QuotaCall, reserve, settle, calls, IsSolvent, calls-IsSolvent,
}
use grokbuild_pool.Clients.Quota.Pairs.{IsSettled, settle-reserve, record-settle}
use grokbuild_pool.Clients.Gate.{
  Gate, acquire_slot, release_slot, current_inflight, take_slot, fresh_window,
}
use grokbuild_pool.Clients.Gate.Limits.{
  Limits, GateCall, acquire, release, AllWithin, gate_calls, gate_calls-AllWithin, release-acquire,
}

abbrev token : Token
token = record {
  id = "t";
  name = "n";
  key_prefix = "sk";
  key_hash = "h";
  api_key = "k";
  enabled = true;
  remain_quota = pos 10;
  unlimited_quota = false;
  max_concurrent = pos 1;
  rpm = pos 0;
  used_quota = pos 0;
  request_count = pos 0;
  expires_at = pos 0;
  created_at = pos 1;
  updated_at = pos 1;
  last_used_at = pos 0;
}

abbrev table : Table
table = ("t", token) ∷ []

table-lookup : lookup "t" table ≡ some token
unfolding lookup
table-lookup = refl

table-IsSolvent : IsSolvent table
unfolding lookup
table-IsSolvent j u e = ground (arith, eq_iff "t" j)

abbrev spending : List QuotaCall
spending = reserve (pos 5) "t" (pos 3) ∷ settle (pos 6) "t" (pos 3) (pos 20) ∷ []

calls-IsSolvent_example : IsSolvent (calls table spending)
calls-IsSolvent_example = calls-IsSolvent table spending table-IsSolvent

settle-reserve_example :
    (let (db', granted) = reserve_quota (pos 5) table "t" (pos 3) in
      let (db'', answer) = settle_usage (pos 6) db' "t" (pos 3) (pos 20) in
      (granted ≡ ok tt)
      × ((t' : Token) × ((lookup "t" db'' ≡ some t')
            × IsSettled token (at_least_one (pos 20)) t' answer)))
settle-reserve_example =
    settle-reserve (pos 5) (pos 6) table "t" token (pos 3) (pos 20) table-lookup refl refl
      (omega arith)

record-settle_example :
    lookup "t" (record_usage (pos 5) table "t" (pos 3)).0
    ≡ lookup "t"
        (settle_usage (pos 5) (reserve_quota (pos 5) table "t" (pos 3)).0 "t" (pos 3) (pos 3)).0
record-settle_example = record-settle (pos 5) table "t" token (pos 3) table-lookup refl refl

abbrev gate : Gate
gate = record { inflight = []; rpm_win = [] }

abbrev limits : Limits
limits id = (pos 1, pos 2)

gate-AllWithin : AllWithin limits gate
unfolding current_inflight lookup
gate-AllWithin id = record {
  floor = omega arith;
  cap = λ p. omega arith;
  rate = λ w e p. ground arith;
}

abbrev traffic : List GateCall
traffic = acquire (pos 5) "t" ∷ acquire (pos 6) "t" ∷ release "t" ∷ []

gate_calls-AllWithin_example : AllWithin limits (gate_calls limits gate traffic)
gate_calls-AllWithin_example = gate_calls-AllWithin limits gate traffic gate-AllWithin

release-acquire_example :
    current_inflight (release_slot (acquire_slot (pos 5) gate "t" (pos 1) (pos 2)).0 "t") "t"
    ≡ current_inflight gate "t"
unfolding acquire_slot take_slot fresh_window current_inflight lookup insert
release-acquire_example = release-acquire (pos 5) gate "t" "t" (pos 1) (pos 2) (omega arith) refl

-- A hash for the example: every text has the same.
abbrev same_hash : String → String
same_hash plaintext = "h"

authenticate-token : authenticate same_hash (pos 5) table " k " ≡ ok (info_of token)
unfolding authenticate by_hash check_token info_of trim_space
authenticate-token = refl

authenticate-MayUse_example :
    (trim_space " k " ≢ "")
    × (t : Token) × IsRow t table
    × (t.key_hash ≡ "h")
    × MayUse (pos 5) t
    × (info_of token ≡ info_of t)
authenticate-MayUse_example =
    authenticate-MayUse same_hash (pos 5) table " k " (info_of token) authenticate-token
