-- ===== src/Catalog/Batches.antt =====
-- internal/hot/index.go (LoadEligible): a batch that is taken whole.
use mathlib.Core.List.{append-nil, append_assoc}
use grokbuild_pool.Base.{
  ℕ, zero, suc, ◌+◌, ◌≤◌, ◌<◌, ltb, leb, ℤ, pos, String, false, List, [], ◌∷◌, ◌++◌, Option, map,
  ◌≡◌, refl, sym, ap, ◌∙◌, arith, if◌then◌else◌, string_eq, take, length, length-append, Result, ok,
  err,
}
use grokbuild_pool.Hot.Meta.{HotMeta}
use grokbuild_pool.Hot.Index.{HotError, load_failed}
use grokbuild_pool.Hot.Load.{restore_inflight, take_batch, after_query}
use grokbuild_pool.Lease.Catalog.{Account, Catalog, CatalogError}
use grokbuild_pool.Catalog.Listing.{hot_meta, list_eligible}

-- The catalog's answer, as the index sees it.
abbrev pub as_hot : Result CatalogError (List HotMeta) → Result HotError (List HotMeta)
as_hot (ok metas) = ok metas
as_hot (err e) = err load_failed

abbrev pub queried : (String → Option ℤ) → ℤ → Catalog → ℕ → String → Result HotError (List HotMeta)
queried probe now c page after = as_hot (list_eligible probe now c (pos page) after)

abbrev pub last_id : String → List HotMeta → String
last_id after [] = after
last_id after (m ∷ metas) = last_id m.id metas

-- A batch for which there is room is taken whole.
pub take_batch_all :
    (cap_n : ℕ) (prev : List (String × ℤ)) (batch loaded : List HotMeta) (after : String)
    → length loaded + length batch ≤ cap_n
    → take_batch cap_n prev batch loaded after
      ≡ (loaded ++ map (restore_inflight prev) batch, last_id after batch)
unfolding take_batch
take_batch_all cap_n prev [] loaded after h = λ i. (sym (append-nil loaded) i, after)
take_batch_all cap_n prev (m ∷ batch) loaded after h =
    let room : leb cap_n (length loaded) ≡ false = ground (arith, h) in
    let next : length (loaded ++ restore_inflight prev m ∷ []) + length batch ≤ cap_n =
      omega (arith, length-append loaded (restore_inflight prev m ∷ []), h) in
    rw room (
      take_batch_all cap_n prev batch (loaded ++ restore_inflight prev m ∷ []) m.id next ∙ (λ i. (
        append_assoc loaded (restore_inflight prev m ∷ []) (map (restore_inflight prev) batch) i,
        last_id m.id batch,
      )))

-- A page that is not empty, with the batch that was taken of it.
abbrev pub go_on :
    (List HotMeta → String → Result HotError (List HotMeta))
    → ℕ
    → List HotMeta
    → List HotMeta × String
    → Result HotError (List HotMeta)
go_on again page batch (loaded, after) =
    let rest = again loaded after in if ltb (length batch) page then ok loaded else rest

pub after_query_cons :
    (again : List HotMeta → String → Result HotError (List HotMeta)) (cap_n : ℕ)
    (prev : List (String × ℤ)) (page : ℕ) (loaded : List HotMeta) (after : String) (m : HotMeta)
    (batch : List HotMeta)
    → after_query again cap_n prev page loaded after (ok (m ∷ batch))
      ≡ go_on again page (m ∷ batch) (take_batch cap_n prev (m ∷ batch) loaded after)
unfolding after_query
after_query_cons again cap_n prev page loaded after m batch = refl

pub take_short :
    {A : Type 0} (m k : ℕ) (xs : List A) → length (take m xs) < m → m ≤ k → take k xs ≡ take m xs
unfolding take
take_short zero k xs h le = absurd (omega (arith, h))
take_short (suc m) zero xs h le = absurd (omega (arith, le))
take_short (suc m) (suc k) [] h le = refl
take_short (suc m) (suc k) (x ∷ xs) h le =
    ap (λ r. x ∷ r) (take_short m k xs (omega (arith, h)) (omega (arith, le)))

pub last_of :
    (a : Account) (rows : List Account)
    → (heads : List Account) × (x : Account) × (a ∷ rows ≡ heads ++ x ∷ [])
      × (last_id (hot_meta a).id (map hot_meta rows) ≡ x.id)
unfolding hot_meta
last_of a [] = ([], a, refl, refl)
last_of a (b ∷ rows) = let (heads, x, e, l) = last_of b rows in (a ∷ heads, x, ap (λ r. a ∷ r) e, l)
