-- ===== src/Hot/Meta.antt =====
-- internal/catalog/types.go (HotMeta) and the filters of internal/hot/index.go. A failure score is
-- a float32 converted from a count, and is modelled by that count.
use grokbuild_pool.Base.{
  ℤ, pos, ltb_ℤ, leb_ℤ, eqb_ℤ, String, Bool, true, false, not, ◌&&◌, List, [], ◌∷◌, if◌then◌else◌,
  ◌/=◌, string_eq, str_lt, has,
}

pub record HotMeta : Type 0 where
  pub id : String
  pub priority : ℤ
  pub cooldown_until : ℤ
  pub expires_at : ℤ
  pub inflight : ℤ
  pub failure_score : ℤ
  pub enabled : Bool
  pub lifecycle : String
  pub revision : ℤ
  pub identity_key : String
  pub proxy_mode : String
  pub proxy_url : String

abbrev pub lifecycle_active : String
lifecycle_active = "active"

abbrev pub lifecycle_quarantined : String
lifecycle_quarantined = "quarantined"

-- `now <= 0` asks for the clock.
abbrev pub resolve_now : ℤ → ℤ → ℤ
resolve_now clock now = if leb_ℤ now (pos 0) then clock else now

unfoldable pub eligible_with_inflight_cap : HotMeta → ℤ → ℤ → Bool
eligible_with_inflight_cap m now max_inflight =
    if not m.enabled
    then false
    else if (m.lifecycle /= "") && (m.lifecycle /= lifecycle_active)
    then false
    else if ltb_ℤ now m.cooldown_until
    then false
    else if ltb_ℤ (pos 0) max_inflight && leb_ℤ max_inflight m.inflight
    then false
    else true

unfoldable pub is_eligible : HotMeta → ℤ → Bool
unfolding eligible_with_inflight_cap
is_eligible m now = eligible_with_inflight_cap m now (pos 0)

-- A set of ids, as a `map[string]struct{}` or nil.
abbrev pub IdSet : Type 0
IdSet = List (String × Unit {0})

unfoldable pub excluded : IdSet → String → Bool
excluded exclude id = has id exclude

unfoldable pub worse_victim : HotMeta → HotMeta → Bool
worse_victim a b =
    if not (eqb_ℤ a.priority b.priority)
    then ltb_ℤ a.priority b.priority
    else if not (eqb_ℤ a.failure_score b.failure_score)
    then ltb_ℤ b.failure_score a.failure_score
    else if not (eqb_ℤ a.inflight b.inflight)
    then ltb_ℤ b.inflight a.inflight
    else str_lt b.id a.id

-- The loop of `pickDemoteVictim`, after the first entry.
unfoldable pub victim_from : String → HotMeta → List (String × HotMeta) → String
victim_from best_id best [] = best_id
victim_from best_id best ((id, m) ∷ hot) =
    if worse_victim m best then victim_from id m hot else victim_from best_id best hot

unfoldable pub pick_demote_victim : List (String × HotMeta) → String
unfolding victim_from
pick_demote_victim [] = ""
pick_demote_victim ((id, m) ∷ hot) = victim_from id m hot
