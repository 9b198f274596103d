-- ===== src/Hot/Load.antt =====
-- internal/hot/index.go (LoadEligible): the reload from the catalog, in the three parts between
-- which the index is unlocked. `list_eligible limit after` is the catalog's query.
use grokbuild_pool.Base.{
  ℕ, zero, suc, ◌-◌, ◌*◌, ℤ, pos, ltb, leb, String, List, [], ◌∷◌, ◌++◌, none, some, length,
  if◌then◌else◌, string_eq, lookup, insert, Result, ok, err,
}
use grokbuild_pool.Hot.Meta.{HotMeta}
use grokbuild_pool.Hot.Index.{
  HotError, closed, load_failed, out_of_fuel, HotMap, Index, prev_inflight, replace_all_locked,
}

abbrev pub list_page_size : ℕ
list_page_size = 500

-- The first part, under the read lock: the limit and the live counts.
unfoldable pub load_begin : Index → Result HotError (ℕ × List (String × ℤ))
unfolding prev_inflight
load_begin idx = if idx.is_closed then err closed else ok (idx.limit, prev_inflight idx.hot)

unfoldable pub restore_inflight : List (String × ℤ) → HotMeta → HotMeta
restore_inflight prev m = elim (lookup m.id prev) [
  | none ↦ record m { inflight = pos 0 }
  | some inf ↦ record m { inflight = inf }
]

-- The loop over one batch, with its `break` at the limit.
unfoldable pub take_batch :
    ℕ → List (String × ℤ) → List HotMeta → List HotMeta → String → List HotMeta × String
unfolding restore_inflight
take_batch cap_n prev [] loaded after = (loaded, after)
take_batch cap_n prev (m ∷ batch) loaded after =
    let rest = take_batch cap_n prev batch (loaded ++ restore_inflight prev m ∷ []) m.id in
    if leb cap_n (length loaded) then (loaded, after) else rest

abbrev pub page_size : ℕ → ℕ → ℕ
page_size cap_n loaded =
    if ltb (list_page_size * 4) (cap_n - loaded) then list_page_size * 4 else cap_n - loaded

-- What a round does with the answer to its query; `again` is the next round.
unfoldable pub after_query :
    (List HotMeta → String → Result HotError (List HotMeta))
    → ℕ
    → List (String × ℤ)
    → ℕ
    → List HotMeta
    → String
    → Result HotError (List HotMeta)
    → Result HotError (List HotMeta)
unfolding take_batch
after_query again cap_n prev page loaded after (err e) = err load_failed
after_query again cap_n prev page loaded after (ok []) = ok loaded
after_query again cap_n prev page loaded after (ok (m ∷ batch)) =
    let (loaded', after') = take_batch cap_n prev (m ∷ batch) loaded after in
    let rest = again loaded' after' in if ltb (length (m ∷ batch)) page then ok loaded' else rest

-- The loop over the pages, `for len(loaded) < capN`. A round that goes on has loaded one meta or more,
-- so `cap_n` rounds are enough (Hot/Pages).
unfoldable pub load_pages :
    (ℕ → String → Result HotError (List HotMeta))
    → ℕ
    → ℕ
    → List (String × ℤ)
    → List HotMeta
    → String
    → Result HotError (List HotMeta)
unfolding after_query
load_pages list_eligible zero cap_n prev loaded after =
    if ltb (length loaded) cap_n then err out_of_fuel else ok loaded
load_pages list_eligible (suc fuel) cap_n prev loaded after =
    let page = page_size cap_n (length loaded) in
    let more =
      after_query (load_pages list_eligible fuel cap_n prev) cap_n prev page loaded after
        (list_eligible page after) in
    if ltb (length loaded) cap_n then more else ok loaded

unfoldable pub index_metas : List HotMeta → HotMap → HotMap
index_metas [] next = next
index_metas (m ∷ loaded) next = index_metas loaded (insert m.id m next)

-- The last part, under the write lock.
unfoldable pub load_commit : Index → List HotMeta → Index × Result HotError ℕ
unfolding index_metas replace_all_locked
load_commit idx loaded =
    let next = index_metas loaded [] in
    if idx.is_closed then (idx, err closed) else (replace_all_locked idx next, ok (length next))

unfoldable pub load_rest :
    (ℕ → String → Result HotError (List HotMeta))
    → Index
    → Result HotError (ℕ × List (String × ℤ))
    → Index × Result HotError ℕ
unfolding load_pages load_commit
load_rest list_eligible idx (err e) = (idx, err e)
load_rest list_eligible idx (ok (cap_n, prev)) =
    elim (load_pages list_eligible cap_n cap_n prev [] "") [
      | ok loaded ↦ load_commit idx loaded
      | err e ↦ (idx, err e)
    ]

-- The whole of `LoadEligible`, where nothing else runs in between.
unfoldable pub load_eligible :
    (ℕ → String → Result HotError (List HotMeta)) → Index → Index × Result HotError ℕ
unfolding load_begin load_rest
load_eligible list_eligible idx = load_rest list_eligible idx (load_begin idx)
