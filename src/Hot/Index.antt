-- ===== src/Hot/Index.antt =====
-- internal/hot/index.go: the index and its operations. Every method holds the lock for its whole
-- body, so it is one step on the state. The key of an entry of `hot` is the id it was stored under.
use grokbuild_pool.Base.{
  ℕ, zero, suc, ◌+◌, ◌-◌, ℤ, pos, pos_part, ◌-ℤ◌, ◌+ℤ◌, ltb_ℤ, leb_ℤ, eqb_ℤ, inc32, ltb, eqb,
  String, Bool, true, false, List, [], ◌∷◌, ◌++◌, map, Option, none, some, length, get_or, set,
  take, keep, if◌then◌else◌, ◌==◌, string_eq, lookup, insert, delete, Result, ok, err,
}
use grokbuild_pool.Hot.Meta.{HotMeta, resolve_now, eligible_with_inflight_cap, pick_demote_victim}

pub data HotError : Type 0 where
  not_found invalid_input closed no_victim load_failed : HotError
  -- The model's own: a loop has run out of its fuel.
  out_of_fuel : HotError

abbrev pub HotMap : Type 0
HotMap = List (String × HotMeta)

pub record Index : Type 0 where
  pub hot_size : ℤ
  pub max_inflight : ℤ
  pub hot : HotMap
  pub ids : List String
  pub pos_of : List (String × ℕ)
  pub limit : ℕ
  pub is_closed : Bool

abbrev pub default_hot_size : ℕ
default_hot_size = 3000

abbrev pub size_or_default : ℤ → ℕ
size_or_default n = if leb_ℤ n (pos 0) then default_hot_size else pos_part n

unfoldable pub new : ℤ → ℤ → Index
new hot_size max_inflight = record {
  hot_size = hot_size;
  max_inflight = max_inflight;
  hot = [];
  ids = [];
  pos_of = [];
  limit = size_or_default hot_size;
  is_closed = false;
}

-- `addLocked` and `removeLocked` change the dense list and the positions only.
unfoldable pub add_locked : Index → String → Index
add_locked idx id = record idx {
  ids = idx.ids ++ id ∷ [];
  pos_of = insert id (length idx.ids) idx.pos_of;
}

-- The reads are in range while the index is dense (Hot/Dense).
unfoldable pub remove_at : Index → String → ℕ → Index
remove_at idx id i =
    let last = length idx.ids - 1 in
    let moved = get_or idx.ids last "" in
    let ids' = if eqb i last then idx.ids else set idx.ids i moved in
    let pos' = if eqb i last then idx.pos_of else insert moved i idx.pos_of in
    record idx { ids = take last ids'; pos_of = delete id pos' }

unfoldable pub remove_locked : Index → String → Index
unfolding remove_at
remove_locked idx id = elim (lookup id idx.pos_of) [ none ↦ idx | some i ↦ remove_at idx id i ]

unfoldable pub number_ids :
    HotMap → List String → List (String × ℕ) → List String × List (String × ℕ)
number_ids [] ids ps = (ids, ps)
number_ids ((id, m) ∷ next) ids ps = number_ids next (ids ++ id ∷ []) (insert id (length ids) ps)

unfoldable pub replace_all_locked : Index → HotMap → Index
unfolding number_ids
replace_all_locked idx next =
    let (ids', pos') = number_ids next [] [] in record idx { hot = next; ids = ids'; pos_of = pos' }

-- `delete(idx.hot, id); idx.removeLocked(id)`.
unfoldable pub drop_entry : Index → String → Index
unfolding remove_locked
drop_entry idx id = remove_locked (record idx { hot = delete id idx.hot }) id

-- The loop of `Resize`; each round drops the last id, so the length is fuel enough.
unfoldable pub shrink : ℕ → ℕ → Index → Index
unfolding drop_entry
shrink zero n idx = idx
shrink (suc fuel) n idx =
    let rest = shrink fuel n (drop_entry idx (get_or idx.ids (length idx.ids - 1) "")) in
    if ltb n (length idx.ids) then rest else idx

unfoldable pub resize : Index → ℤ → Index
unfolding shrink
resize idx n =
    let m = size_or_default n in
    shrink (length idx.ids) m (record idx { limit = m; hot_size = pos m })

unfoldable pub len : Index → ℕ
len idx = length idx.hot

unfoldable pub close : Index → Index
close idx = record idx { is_closed = true }

-- The live counts that are not zero, by id.
unfoldable pub prev_inflight : HotMap → List (String × ℤ)
prev_inflight [] = []
prev_inflight ((id, m) ∷ hot) =
    if eqb_ℤ m.inflight (pos 0) then prev_inflight hot else insert id m.inflight (prev_inflight hot)

-- A loaded meta takes over the live count of its id.
unfoldable pub keep_inflight : List (String × ℤ) → HotMeta → HotMeta
keep_inflight prev m = elim (lookup m.id prev) [ none ↦ m | some inf ↦ record m { inflight = inf } ]

-- The loop of `LoadMetas`, over the first `limit` metas.
unfoldable pub load_loop : List (String × ℤ) → List HotMeta → HotMap → Result HotError HotMap
unfolding keep_inflight
load_loop prev [] next = ok next
load_loop prev (m ∷ metas) next =
    let rest = load_loop prev metas (insert m.id (keep_inflight prev m) next) in
    if m.id == "" then err invalid_input else rest

unfoldable pub load_metas : Index → List HotMeta → Index × Result HotError ℕ
unfolding prev_inflight load_loop replace_all_locked
load_metas idx metas =
    if idx.is_closed
    then (idx, err closed)
    else elim (load_loop (prev_inflight idx.hot) (take idx.limit metas) []) [
      | err e ↦ (idx, err e)
      | ok next ↦ (replace_all_locked idx next, ok (length next))
    ]

unfoldable pub get : Index → String → Option HotMeta
get idx id = lookup id idx.hot

-- The guards that the writers of one entry share: a non-empty id, an open index, a known id.
unfoldable pub update_entry :
    Index → String → (HotMeta → HotMeta) → Index × Result HotError (Unit {0})
update_entry idx id f =
    if id == ""
    then (idx, err invalid_input)
    else if idx.is_closed
    then (idx, err closed)
    else elim (lookup id idx.hot) [
      | none ↦ (idx, err not_found)
      | some m ↦ (record idx { hot = insert id (f m) idx.hot }, ok tt)
    ]

unfoldable pub add_inflight : Index → String → Index × Result HotError (Unit {0})
unfolding update_entry
add_inflight idx id = update_entry idx id (λ m. record m { inflight = inc32 m.inflight })

unfoldable pub sub_inflight : Index → String → Index × Result HotError (Unit {0})
unfolding update_entry
sub_inflight idx id =
    update_entry idx id
      (λ m. if ltb_ℤ (pos 0) m.inflight then record m { inflight = m.inflight -ℤ pos 1 } else m)

unfoldable pub set_cooldown : Index → String → ℤ → Index × Result HotError (Unit {0})
unfolding update_entry
set_cooldown idx id until = update_entry idx id (λ m. record m { cooldown_until = until })

-- A count below 0 is raised to 0.
unfoldable pub clamp_inflight : HotMeta → HotMeta
clamp_inflight meta = record meta {
  inflight = if ltb_ℤ meta.inflight (pos 0) then pos 0 else meta.inflight;
}

-- The end of `Promote`: the new entry.
unfoldable pub append_entry : Index → HotMeta → Index
unfolding add_locked clamp_inflight
append_entry idx meta =
    add_locked (record idx { hot = insert meta.id (clamp_inflight meta) idx.hot }) meta.id

unfoldable pub promote_new : Index → HotMeta → Index × Result HotError String
unfolding append_entry drop_entry
promote_new idx meta =
    let victim = pick_demote_victim idx.hot in
    if ltb (length idx.hot) idx.limit
    then (append_entry idx meta, ok "")
    else if victim == ""
    then (idx, err no_victim)
    else (append_entry (drop_entry idx victim) meta, ok victim)

unfoldable pub promote : Index → HotMeta → Index × Result HotError String
unfolding promote_new
promote idx meta =
    if meta.id == ""
    then (idx, err invalid_input)
    else if idx.is_closed
    then (idx, err closed)
    else elim (lookup meta.id idx.hot) [
      | some existing ↦ (
        record idx { hot = insert meta.id (record meta { inflight = existing.inflight }) idx.hot },
        ok "",
      )
      | none ↦ promote_new idx meta
    ]

unfoldable pub demote : Index → String → Index × Result HotError (Unit {0})
unfolding drop_entry
demote idx id =
    if id == ""
    then (idx, err invalid_input)
    else if idx.is_closed
    then (idx, err closed)
    else (drop_entry idx id, ok tt)

unfoldable pub demote_each : Index → List String → Index
unfolding drop_entry
demote_each idx [] = idx
demote_each idx (id ∷ ids) = demote_each (if id == "" then idx else drop_entry idx id) ids

unfoldable pub demote_many : Index → List String → Index
unfolding demote_each
demote_many idx ids = if idx.is_closed then idx else demote_each idx ids

unfoldable pub eligible_meta : Index → HotMeta → ℤ → Bool
eligible_meta idx m now = eligible_with_inflight_cap m now idx.max_inflight

unfoldable pub eligible : ℤ → Index → ℤ → List HotMeta
unfolding eligible_meta
eligible clock idx now =
    keep (λ m. eligible_meta idx m (resolve_now clock now)) (map (λ e. e.1) idx.hot)

unfoldable pub set_max_inflight : Index → ℤ → Index
set_max_inflight idx max = record idx { max_inflight = max }

pub record Stats : Type 0 where
  pub hot_size : ℕ
  pub limit : ℕ
  pub cooldown_count : ℕ
  pub inflight_sum : ℤ
  pub disabled_count : ℕ

unfoldable pub stats_loop : ℤ → HotMap → Stats → Stats
stats_loop now [] s = s
stats_loop now ((id, m) ∷ hot) s = stats_loop now hot (record s {
  cooldown_count = if ltb_ℤ now m.cooldown_until then s.cooldown_count + 1 else s.cooldown_count;
  disabled_count = if m.enabled then s.disabled_count else s.disabled_count + 1;
  inflight_sum = s.inflight_sum +ℤ m.inflight;
})

unfoldable pub stats : ℤ → Index → ℤ → Stats
unfolding stats_loop
stats clock idx now = stats_loop (resolve_now clock now) idx.hot (record {
  hot_size = length idx.hot;
  limit = idx.limit;
  cooldown_count = 0;
  inflight_sum = pos 0;
  disabled_count = 0;
})
