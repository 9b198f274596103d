-- ===== src/Clients/Gate.antt =====
-- internal/clients/store.go: the gate. `now` is the monotonic clock in nanoseconds.
pub mod Limits
use grokbuild_pool.Base.{
  ℕ, ℤ, pos, ◌+ℤ◌, ◌-ℤ◌, ltb_ℤ, leb_ℤ, eqb_ℤ, String, Bool, true, false, ◌&&◌, List, Option, none,
  some, if◌then◌else◌, ◌==◌, string_eq, lookup, insert, delete, Result, ok, err,
}
use grokbuild_pool.Clients.Token.{ClientError, concurrency_limit, rpm_limit, empty_token_id}

pub record RpmWindow : Type 0 where
  pub start : ℤ
  pub count : ℤ

pub record Gate : Type 0 where
  pub inflight : List (String × ℤ)
  pub rpm_win : List (String × RpmWindow)

abbrev pub minute : ℤ
minute = pos 60000000000

-- A missing key reads as zero.
unfoldable pub current_inflight : Gate → String → ℤ
current_inflight g id = elim (lookup id g.inflight) [ none ↦ pos 0 | some n ↦ n ]

unfoldable pub fresh_window : ℤ → Gate → String → RpmWindow
fresh_window now g id = elim (lookup id g.rpm_win) [
  | none ↦ record { start = now; count = pos 0 }
  | some w ↦ if leb_ℤ minute (now -ℤ w.start) then record { start = now; count = pos 0 } else w
]

abbrev pub GateAnswer : Type 0
GateAnswer = Gate × Result ClientError (Unit {0})

-- The second half of `AcquireSlot`; `w` is the window when the rate is limited.
unfoldable pub take_slot : Gate → String → ℤ → Option RpmWindow → GateAnswer
unfolding current_inflight
take_slot g id max_concurrent w =
    let cur = current_inflight g id in
    if ltb_ℤ (pos 0) max_concurrent && leb_ℤ max_concurrent cur
    then (g, err concurrency_limit)
    else (
      record g {
        inflight = insert id (cur +ℤ pos 1) g.inflight;
        rpm_win = elim w [
          | none ↦ g.rpm_win
          | some v ↦ insert id (record v { count = v.count +ℤ pos 1 }) g.rpm_win
        ];
      },
      ok tt,
    )

unfoldable pub acquire_slot : ℤ → Gate → String → ℤ → ℤ → GateAnswer
unfolding take_slot fresh_window
acquire_slot now g id max_concurrent rpm =
    if id == ""
    then (g, err empty_token_id)
    else if ltb_ℤ (pos 0) rpm
    then (let w = fresh_window now g id in
        let g' = record g { rpm_win = insert id w g.rpm_win } in
        if leb_ℤ rpm w.count then (g', err rpm_limit) else take_slot g' id max_concurrent (some w))
    else take_slot g id max_concurrent none

unfoldable pub release_slot : Gate → String → Gate
unfolding current_inflight
release_slot g id =
    if id == ""
    then g
    else (let n = current_inflight g id in
        let left = if ltb_ℤ (pos 0) n then n -ℤ pos 1 else n in
        let kept = if ltb_ℤ (pos 0) n then insert id left g.inflight else g.inflight in
        record g { inflight = if eqb_ℤ left (pos 0) then delete id kept else kept })

-- `Delete` also drops the token from the gate.
unfoldable pub forget_token : Gate → String → Gate
forget_token g id = record g { inflight = delete id g.inflight; rpm_win = delete id g.rpm_win }
