-- ===== src/Hot/Pages.antt =====
-- internal/hot/index.go (LoadEligible): the paging loop stays within the limit and ends.
use grokbuild_pool.Base.{
  ℕ, zero, suc, ◌+◌, ◌≤◌, ◌<◌, ℤ, ltb, String, ◌≡◌, ◌≢◌, List, [], ◌∷◌, ◌++◌, arith, length,
  length-append, if_split, Result, ok, err, subst,
}
use grokbuild_pool.Hot.Meta.{HotMeta}
use grokbuild_pool.Hot.Index.{HotError, out_of_fuel}
use grokbuild_pool.Hot.Load.{restore_inflight, take_batch, page_size, after_query, load_pages}

-- A batch never takes the load past the limit, and takes at least one meta while there is room.
length-take_batch :
    (cap_n : ℕ) (prev : List (String × ℤ)) (batch loaded : List HotMeta) (after : String)
    → length loaded ≤ cap_n
    → length (take_batch cap_n prev batch loaded after).0 ≤ cap_n
unfolding take_batch
length-take_batch cap_n prev [] loaded after h = h
length-take_batch cap_n prev (m ∷ batch) loaded after h = ground (
  arith,
  length-append loaded (restore_inflight prev m ∷ []),
  length-take_batch cap_n prev batch (loaded ++ restore_inflight prev m ∷ []) m.id,
)

take_batch_grows :
    (cap_n : ℕ) (prev : List (String × ℤ)) (batch loaded : List HotMeta) (after : String)
    → length loaded ≤ length (take_batch cap_n prev batch loaded after).0
unfolding take_batch
take_batch_grows cap_n prev [] loaded after = omega arith
take_batch_grows cap_n prev (m ∷ batch) loaded after = ground (
  arith,
  length-append loaded (restore_inflight prev m ∷ []),
  take_batch_grows cap_n prev batch (loaded ++ restore_inflight prev m ∷ []) m.id,
)

take_batch_advances :
    (cap_n : ℕ) (prev : List (String × ℤ)) (m : HotMeta) (batch loaded : List HotMeta)
    (after : String)
    → length loaded < cap_n
    → length loaded < length (take_batch cap_n prev (m ∷ batch) loaded after).0
unfolding take_batch
take_batch_advances cap_n prev m batch loaded after h = ground (
  arith,
  length-append loaded (restore_inflight prev m ∷ []),
  take_batch_grows cap_n prev batch (loaded ++ restore_inflight prev m ∷ []) m.id,
)

abbrev Within : ℕ → Result HotError (List HotMeta) → Type 0
Within n (ok loaded) = length loaded ≤ n
Within n (err e) = Unit {0}

after_query-Within :
    (again : List HotMeta → String → Result HotError (List HotMeta)) (cap_n : ℕ)
    (prev : List (String × ℤ)) (page : ℕ) (loaded : List HotMeta) (after : String)
    (r : Result HotError (List HotMeta))
    → ((l : List HotMeta) (a : String) → length l ≤ cap_n → Within cap_n (again l a))
    → length loaded ≤ cap_n
    → Within cap_n (after_query again cap_n prev page loaded after r)
unfolding after_query
after_query-Within again cap_n prev page loaded after (err e) next h = tt
after_query-Within again cap_n prev page loaded after (ok []) next h = h
after_query-Within again cap_n prev page loaded after (ok (m ∷ batch)) next h =
    let kept = length-take_batch cap_n prev (m ∷ batch) loaded after h in
    if_split (Within cap_n) (ltb (length (m ∷ batch)) page) (λ _. kept) (λ _. next _ _ kept)

module _ (list_eligible : ℕ → String → Result HotError (List HotMeta)) (cap_n : ℕ)
    (prev : List (String × ℤ)) where
  load_pages-Within :
      (fuel : ℕ) (loaded : List HotMeta) (after : String)
      → length loaded ≤ cap_n
      → Within cap_n (load_pages list_eligible fuel cap_n prev loaded after)
  unfolding load_pages
  load_pages-Within zero loaded after h =
      if_split (Within cap_n) (ltb (length loaded) cap_n) (λ _. tt) (λ _. h)
  load_pages-Within (suc fuel) loaded after h =
      let page = page_size cap_n (length loaded) in
      if_split (Within cap_n) (ltb (length loaded) cap_n)
        (λ more.
          after_query-Within (load_pages list_eligible fuel cap_n prev) cap_n prev page loaded after
            (list_eligible page after) (λ l a. load_pages-Within fuel l a) h)
        (λ done. h)

  pub length-load_pages :
      {loaded : List HotMeta}
      → load_pages list_eligible cap_n cap_n prev [] "" ≡ ok loaded
      → length loaded ≤ cap_n
  length-load_pages e = subst (Within cap_n) e (load_pages-Within cap_n [] "" (omega arith))

  -- The loop has ended by itself, and has not been cut off by its fuel.
  abbrev Ended : Result HotError (List HotMeta) → Type 0
  Ended r = r ≢ err out_of_fuel

  after_query-Ended :
      (again : List HotMeta → String → Result HotError (List HotMeta)) (page : ℕ)
      (loaded : List HotMeta) (after : String) (r : Result HotError (List HotMeta))
      → ((l : List HotMeta) (a : String) → length loaded < length l → Ended (again l a))
      → length loaded < cap_n
      → Ended (after_query again cap_n prev page loaded after r)
  unfolding after_query
  after_query-Ended again page loaded after (err e) next h = λ e. ground (arith, e)
  after_query-Ended again page loaded after (ok []) next h = λ e. ground (arith, e)
  after_query-Ended again page loaded after (ok (m ∷ batch)) next h =
      let t = take_batch cap_n prev (m ∷ batch) loaded after in
      if_split Ended (ltb (length (m ∷ batch)) page) (λ _ e. ground (arith, e))
        (λ _. next t.0 t.1 (take_batch_advances cap_n prev m batch loaded after h))

  -- With as much fuel as there is room for metas, or more, the loop over the pages ends by itself and
  -- is not cut off by its fuel. The catalog may answer anything, at every query.
  pub load_pages-ends :
      (fuel : ℕ) (loaded : List HotMeta) (after : String)
      → cap_n ≤ length loaded + fuel
      → load_pages list_eligible fuel cap_n prev loaded after ≢ err out_of_fuel
  unfolding load_pages
  load_pages-ends zero loaded after h =
      if_split Ended (ltb (length loaded) cap_n) (λ more. absurd (ground (arith, more, h)))
        (λ _ e. ground (arith, e))
  load_pages-ends (suc fuel) loaded after h =
      let page = page_size cap_n (length loaded) in
      if_split Ended (ltb (length loaded) cap_n)
        (λ more.
          after_query-Ended (load_pages list_eligible fuel cap_n prev) page loaded after
            (list_eligible page after)
            (λ l a grown. load_pages-ends fuel l a (omega (arith, grown, h)))
            (ground (arith, more)))
        (λ _ e. ground (arith, e))
