-- ===== src/Catalog/Loaded.antt =====
-- internal/hot/index.go (LoadEligible) over internal/catalog/catalog.go (ListEligible): what the pages
-- add up to.
use mathlib.Core.List.{append-nil, append_assoc}
use grokbuild_pool.Base.{
  ℕ, zero, suc, ◌+◌, ltb→lt, ◌≤◌, ◌<◌, ltb, ℤ, pos, String, false, List, [], ◌∷◌, ◌++◌, Option, map,
  ◌≡◌, refl, sym, ap, ◌∙◌, subst, arith, if_split, option_split, ◌==◌, lookup, string_eq, take,
  length, length-append, length-map, map-append, length-take-le, Result, ok,
}
use grokbuild_pool.Hot.Meta.{HotMeta}
use grokbuild_pool.Hot.Index.{HotError, Index, prev_inflight}
use grokbuild_pool.Hot.Load.{
  restore_inflight, take_batch, page_size, after_query, load_pages, load_begin, load_commit,
  load_rest, load_eligible,
}
use grokbuild_pool.Lease.Catalog.{Account, Catalog}
use grokbuild_pool.Catalog.Listing.{hot_meta, page_rows}
use grokbuild_pool.Catalog.Sorted.{IsTable}
use grokbuild_pool.Catalog.Pages.{page_first, page_rows-next, list_eligible_open}
use grokbuild_pool.Catalog.Batches.{
  last_id, take_batch_all, go_on, after_query_cons, take_short, last_of, as_hot, queried,
}

module _ (probe : String → Option ℤ) (now : ℤ) (c : Catalog) (prev : List (String × ℤ))
    (table : IsTable c.accounts) (opened : c.is_closed ≡ false) where
  -- The first n rows, and their metas with the live counts.
  first_rows : ℕ → List Account
  first_rows n = page_rows probe now c.accounts (pos n) ""

  best : ℕ → List HotMeta
  best n = map (restore_inflight prev) (map hot_meta (first_rows n))

  -- The cursor stands after the first n rows.
  Reached : ℕ → String → Type 0
  Reached n after =
      (length (first_rows n) ≡ n)
      × ((k : ℕ)
          → first_rows (n + k) ≡ first_rows n ++ page_rows probe now c.accounts (pos k) after)

  short_rows : (m k : ℕ) → length (first_rows m) < m → m ≤ k → best k ≡ best m
  unfolding best first_rows
  short_rows m k h le =
      let at_m = page_first probe now c.accounts table m "" refl in
      let at_k = page_first probe now c.accounts table k "" refl in
      ap (λ rows. map (restore_inflight prev) (map hot_meta rows))
        (at_k ∙ (take_short m k _ (subst (λ r. length r < m) at_m h) le ∙ sym at_m))

  best-append :
      (n p : ℕ) (batch : List Account)
      → first_rows (n + p) ≡ first_rows n ++ batch
      → best n ++ map (restore_inflight prev) (map hot_meta batch) ≡ best (n + p)
  unfolding best
  best-append n p batch e =
      sym (map-append (restore_inflight prev) (map hot_meta (first_rows n)) (map hot_meta batch))
      ∙ ap (map (restore_inflight prev))
          (sym (map-append hot_meta (first_rows n) batch) ∙ ap (map hot_meta) (sym e))

  length-best : (n : ℕ) → length (best n) ≡ length (first_rows n)
  unfolding best
  length-best n =
      length-map (restore_inflight prev) (map hot_meta (first_rows n))
      ∙ length-map hot_meta (first_rows n)

  next-Reached :
      (n p : ℕ) (after : String) (a : Account) (rows : List Account)
      → Reached n after
      → page_rows probe now c.accounts (pos p) after ≡ a ∷ rows
      → length (a ∷ rows) ≡ p
      → Reached (n + p) (last_id (hot_meta a).id (map hot_meta rows))
  unfolding Reached first_rows
  next-Reached n p after a rows (full, more) page whole =
      let (heads, x, e, l) = last_of a rows in
      let joined : first_rows (n + p) ≡ (first_rows n ++ heads) ++ x ∷ [] =
        more p
        ∙ (ap (λ r. first_rows n ++ r) (page ∙ e)
            ∙ sym (append_assoc (first_rows n) heads (x ∷ []))) in
      let counted : length (first_rows (n + p)) ≡ n + p =
        ap length (more p ∙ ap (λ r. first_rows n ++ r) page)
        ∙ omega (arith, length-append (first_rows n) (a ∷ rows), full, whole) in
      (
        counted,
        λ k.
            page_rows-next probe now c.accounts table (n + p) k "" (first_rows n ++ heads) x joined
            ∙ (λ i. sym joined i ++ page_rows probe now c.accounts (pos k) (sym l i)),
      )

  asked :
      (p : ℕ) (after : String)
      → 0 < p
      → queried probe now c p after
        ≡ ok (map hot_meta (page_rows probe now c.accounts (pos p) after))
  asked zero after h = absurd (omega (arith, h))
  asked (suc p) after h = ap as_hot (list_eligible_open probe now c p after opened)

  length-page_rows :
      (p : ℕ) (after : String) → length (page_rows probe now c.accounts (pos p) after) ≤ p
  unfolding page_rows
  length-page_rows p after =
      if_split (λ (r : List Account). length r ≤ p) (after == "") (λ _. length-take-le p _)
        (λ _.
          option_split (λ (r : List Account). length r ≤ p) (lookup after c.accounts)
            (λ _. omega arith) (λ cur _. length-take-le p _))

  -- What a round makes of its page, where `again` goes on rightly from the next one.
  round :
      (again : List HotMeta → String → Result HotError (List HotMeta)) (cap_n n p : ℕ)
      (after : String) (batch : List Account)
      → 0 < p
      → n + p ≤ cap_n
      → Reached n after
      → page_rows probe now c.accounts (pos p) after ≡ batch
      → length batch ≤ p
      → ((after' : String) → Reached (n + p) after' → again (best (n + p)) after' ≡ ok (best cap_n))
      → after_query again cap_n prev p (best n) after (ok (map hot_meta batch)) ≡ ok (best cap_n)
  unfolding after_query Reached
  round again cap_n n p after [] some_room within reached page few next =
      let same : first_rows (n + p) ≡ first_rows n =
        reached.1 p ∙ (ap (λ r. first_rows n ++ r) page ∙ append-nil (first_rows n)) in
      let short : length (first_rows (n + p)) < n + p =
        omega (arith, ap length same, reached.0, some_room) in
      ap ok (
        sym (
          short_rows (n + p) cap_n short within
          ∙ (sym (best-append n p [] (reached.1 p ∙ ap (λ r. first_rows n ++ r) page))
              ∙ append-nil (best n))))
  round again cap_n n p after (a ∷ rows) some_room within reached page few next =
      let metas = map (restore_inflight prev) (map hot_meta (a ∷ rows)) in
      let after' = last_id (hot_meta a).id (map hot_meta rows) in
      let fits : length (best n) + length (map hot_meta (a ∷ rows)) ≤ cap_n =
        omega (arith, length-best n, length-map hot_meta (a ∷ rows), reached.0, few, within) in
      let grown : best n ++ metas ≡ best (n + p) =
        best-append n p (a ∷ rows) (reached.1 p ∙ ap (λ r. first_rows n ++ r) page) in
      let taken : take_batch cap_n prev (map hot_meta (a ∷ rows)) (best n) after
          ≡ (best (n + p), after') =
        take_batch_all cap_n prev (map hot_meta (a ∷ rows)) (best n) after fits
        ∙ (λ i. (grown i, after')) in
      after_query_cons again cap_n prev p (best n) after (hot_meta a) (map hot_meta rows)
      ∙ (ap (go_on again p (map hot_meta (a ∷ rows))) taken
          ∙ if_split (λ (x : Result HotError (List HotMeta)). x ≡ ok (best cap_n))
              (ltb (length (map hot_meta (a ∷ rows))) p)
              (λ short.
                let less : length (first_rows (n + p)) < n + p = omega (
                  arith,
                  ap length (reached.1 p ∙ ap (λ r. first_rows n ++ r) page),
                  length-append (first_rows n) (a ∷ rows),
                  reached.0,
                  ltb→lt (length (map hot_meta (a ∷ rows))) p short,
                  length-map hot_meta (a ∷ rows),
                ) in
                ap ok (sym (short_rows (n + p) cap_n less within)))
              (λ whole. next after' (
                next-Reached n p after a rows reached page
                  (ground (arith, whole, few, length-map hot_meta (a ∷ rows))))))

  load_loop :
      (cap_n fuel n : ℕ) (after : String)
      → n ≤ cap_n
      → cap_n ≤ n + fuel
      → Reached n after
      → load_pages (queried probe now c) fuel cap_n prev (best n) after ≡ ok (best cap_n)
  unfolding load_pages Reached
  load_loop cap_n zero n after low high reached =
      let count : length (best n) ≡ n = length-best n ∙ reached.0 in
      if_split (λ (x : Result HotError (List HotMeta)). x ≡ ok (best cap_n))
        (ltb (length (best n)) cap_n) (λ more. absurd (ground (arith, more, count, high)))
        (λ _. ap (λ m. ok (best m)) (omega (arith, low, high)))
  load_loop cap_n (suc fuel) n after low high reached =
      let count : length (best n) ≡ n = length-best n ∙ reached.0 in
      let p = page_size cap_n (length (best n)) in
      if_split (λ (x : Result HotError (List HotMeta)). x ≡ ok (best cap_n))
        (ltb (length (best n)) cap_n)
        (λ more.
          let some_room : 0 < p = ground (arith, more, count) in
          let within : n + p ≤ cap_n = ground (arith, more, count) in
          ap
            (after_query (load_pages (queried probe now c) fuel cap_n prev) cap_n prev p (best n)
              after)
            (asked p after some_room)
          ∙ round (load_pages (queried probe now c) fuel cap_n prev) cap_n n p after
              (page_rows probe now c.accounts (pos p) after) some_room within reached refl
              (length-page_rows p after)
              (λ after' there.
                load_loop cap_n fuel (n + p) after' within (omega (arith, high, some_room)) there))
        (λ full. ap (λ m. ok (best m)) (ground (arith, full, count, low)))

  load_pages-best :
      (cap_n : ℕ) → load_pages (queried probe now c) cap_n cap_n prev [] "" ≡ ok (best cap_n)
  unfolding best first_rows Reached page_rows take
  load_pages-best cap_n =
      load_loop cap_n cap_n 0 "" (omega arith) (omega arith)
        (refl, λ k. ap (λ m. page_rows probe now c.accounts (pos m) "") (omega arith))

begun :
    (idx : Index) → idx.is_closed ≡ false → load_begin idx ≡ ok (idx.limit, prev_inflight idx.hot)
unfolding load_begin
begun idx live = rw live refl

committed :
    (list : ℕ → String → Result HotError (List HotMeta)) (idx : Index) (cap_n : ℕ)
    (prev : List (String × ℤ)) (loaded : List HotMeta)
    → load_pages list cap_n cap_n prev [] "" ≡ ok loaded
    → load_rest list idx (ok (cap_n, prev)) ≡ load_commit idx loaded
unfolding load_rest
committed list idx cap_n prev loaded e = rw (load_rest, e) refl

-- The metas of the best accounts, as many as the hot set has room for, with the live counts that the
-- set has for them.
abbrev pub best_metas : (String → Option ℤ) → ℤ → Catalog → Index → List HotMeta
best_metas probe now c idx =
    map (restore_inflight (prev_inflight idx.hot))
      (map hot_meta (page_rows probe now c.accounts (pos idx.limit) ""))

-- A reload of the hot set from the catalog, page by page, commits what one query with the limit of the
-- set answers: the accounts that may serve in the order of their priority and id, the first of them,
-- each with the live count that it had. Neither closes meanwhile, and the rows stand under their own
-- ids, which are distinct and not empty.
pub load_eligible-best :
    (probe : String → Option ℤ) (now : ℤ) (c : Catalog) (idx : Index)
    → IsTable c.accounts
    → c.is_closed ≡ false
    → idx.is_closed ≡ false
    → load_eligible (queried probe now c) idx ≡ load_commit idx (best_metas probe now c idx)
unfolding load_eligible best first_rows
load_eligible-best probe now c idx table opened live =
    let loaded = load_pages-best probe now c (prev_inflight idx.hot) table opened idx.limit in
    ap (load_rest (queried probe now c) idx) (begun idx live)
    ∙ committed (queried probe now c) idx idx.limit (prev_inflight idx.hot)
        (best_metas probe now c idx) loaded
