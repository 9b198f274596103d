-- ===== src/Hot/Replace.antt =====
-- internal/hot/index.go: rebuilding the whole set (replaceAllLocked, LoadMetas, LoadEligible).
use grokbuild_pool.Base.{
  ℕ, suc, ◌+◌, ◌≤◌, ℤ, String, true, false, ◌≡◌, refl, List, [], ◌∷◌, ◌++◌, arith, length,
  string_eq, ◌==◌, eq_iff, lookup, insert, has, IsUniq, lookup-insert, insert-IsUniq, length-insert,
  length-append, Result, ok, err, inl, inr, Bool-cases, ◌||◌, subst,
}
use grokbuild_pool.Hot.Meta.{HotMeta}
use grokbuild_pool.Hot.Index.{
  HotError, HotMap, Index, number_ids, replace_all_locked, load_loop, keep_inflight,
}
use grokbuild_pool.Hot.Load.{index_metas}
use grokbuild_pool.Hot.Dense.{IsDense, nil-IsDense, add-IsDense}
use grokbuild_pool.Hot.Valid.{IsSound, IsNamed, insert-IsNamed}

-- The ids numbered so far, and the entries still to come, which are new.
record Numbers (next : HotMap) (ids : List String) (ps : List (String × ℕ)) : Type 0 where
  dense : IsDense ids ps
  same : (k : String) → has k next ≡ has k ps
  counted : length next ≡ length ids

number_ids-Numbers :
    (done next : HotMap) (all : HotMap) (ids : List String) (ps : List (String × ℕ))
    → Numbers done ids ps
    → IsUniq next
    → ((k : String) → has k next ≡ true → has k done ≡ false)
    → ((k : String) → has k all ≡ (has k done || has k next))
    → length all ≡ length done + length next
    → Numbers all (number_ids next ids ps).0 (number_ids next ids ps).1
unfolding number_ids lookup
number_ids-Numbers done [] all ids ps n u fresh cover count = record {
  dense = n.dense;
  same = λ k. ground (arith, cover k, n.same k);
  counted = ground (arith, count, n.counted);
}
number_ids-Numbers done ((id, m) ∷ next) all ids ps n u fresh cover count =
    number_ids-Numbers ((id, m) ∷ done) next all (ids ++ id ∷ []) (insert id (length ids) ps)
      (record {
        dense = add-IsDense n.dense id (ground (arith, eq_iff id id, fresh id, n.same id));
        same = λ k. ground (arith, lookup-insert id k (length ids) ps, n.same k);
        counted = ground (arith, n.counted, length-append ids (id ∷ []));
      })
      u.1 (λ k h. ground (arith, eq_iff id k, fresh k, u)) (λ k. ground (arith, cover k))
      (omega (arith, count))

pub replace_all_locked-IsSound :
    (idx : Index) (next : HotMap)
    → IsUniq next
    → IsNamed next
    → IsSound (replace_all_locked idx next)
unfolding replace_all_locked lookup
replace_all_locked-IsSound idx next u named =
    let n : Numbers next (number_ids next [] []).0 (number_ids next [] []).1 =
      number_ids-Numbers [] next next [] []
        (record { dense = nil-IsDense; same = λ k. refl; counted = refl }) u (λ k h. refl)
        (λ k. refl) (omega arith) in
    record { dense = n.dense; same = n.same; uniq = u; counted = n.counted; named = named }

pub hot-replace_all_locked :
    (idx : Index) (next : HotMap)
    → ((replace_all_locked idx next).hot ≡ next) × ((replace_all_locked idx next).limit ≡ idx.limit)
unfolding replace_all_locked
hot-replace_all_locked idx next = (refl, refl)

-- What a loading loop has built.
pub record IsLoaded (next : HotMap) (n : ℕ) : Type 0 where
  pub uniq : IsUniq next
  pub named : IsNamed next
  pub bounded : length next ≤ n

abbrev AllLoaded : ℕ → Result HotError HotMap → Type 0
AllLoaded n (ok next) = IsLoaded next n
AllLoaded n (err e) = Unit {0}

insert-IsLoaded :
    (k : String) (m : HotMeta) (next : HotMap) (n : ℕ)
    → m.id ≡ k
    → IsLoaded next n
    → IsLoaded (insert k m next) (n + 1)
insert-IsLoaded k m next n e l = record {
  uniq = insert-IsUniq k m next l.uniq;
  named = insert-IsNamed k m next e l.named;
  bounded = ground (arith, length-insert k m next, l.bounded);
}

id-keep_inflight : (prev : List (String × ℤ)) (m : HotMeta) → (keep_inflight prev m).id ≡ m.id
unfolding keep_inflight
id-keep_inflight prev m = ground arith

nil-IsLoaded : IsLoaded [] 0
unfolding lookup
nil-IsLoaded = record { uniq = tt; named = λ k m h. cc; bounded = omega arith }

weaken : {next : HotMap} {n : ℕ} (k : ℕ) → n ≡ k → IsLoaded next n → IsLoaded next k
weaken k e l = record { uniq = l.uniq; named = l.named; bounded = omega (arith, l.bounded) }

AllLoaded-cast : {n k : ℕ} (r : Result HotError HotMap) → n ≡ k → AllLoaded n r → AllLoaded k r
AllLoaded-cast {k} (ok next) e l = weaken k e l
AllLoaded-cast (err x) e l = tt

load_loop-AllLoaded :
    (prev : List (String × ℤ)) (metas : List HotMeta) (next : HotMap) (n : ℕ)
    → IsLoaded next n
    → AllLoaded (n + length metas) (load_loop prev metas next)
unfolding load_loop
load_loop-AllLoaded prev [] next n l = weaken (n + 0) (omega arith) l
load_loop-AllLoaded prev (m ∷ metas) next n l =
    let next' = insert m.id (keep_inflight prev m) next in
    let rest = AllLoaded-cast (load_loop prev metas next') (omega arith) (
      load_loop-AllLoaded prev metas next' (n + 1)
        (insert-IsLoaded m.id (keep_inflight prev m) next n (id-keep_inflight prev m) l)) in
    elim (Bool-cases (m.id == "")) [ inl e ↦ rw e tt | inr e ↦ rw e rest ]

index_metas-IsLoaded :
    (loaded : List HotMeta) (next : HotMap) (n : ℕ)
    → IsLoaded next n
    → IsLoaded (index_metas loaded next) (n + length loaded)
unfolding index_metas
index_metas-IsLoaded [] next n l = weaken (n + 0) (omega arith) l
index_metas-IsLoaded (m ∷ loaded) next n l = weaken (n + suc (length loaded)) (omega arith) (
    index_metas-IsLoaded loaded (insert m.id m next) (n + 1) (insert-IsLoaded m.id m next n refl l))

-- A fresh load of at most `n` metas is a map of at most `n` entries.
pub load_loop-IsLoaded :
    (prev : List (String × ℤ)) (metas : List HotMeta) {next : HotMap}
    → load_loop prev metas [] ≡ ok next
    → IsLoaded next (length metas)
load_loop-IsLoaded prev metas e =
    weaken (length metas) (omega arith)
      (subst (AllLoaded (0 + length metas)) e (load_loop-AllLoaded prev metas [] 0 nil-IsLoaded))

pub index_metas-IsLoaded' :
    (loaded : List HotMeta) → IsLoaded (index_metas loaded []) (length loaded)
index_metas-IsLoaded' loaded =
    weaken (length loaded) (omega arith) (index_metas-IsLoaded loaded [] 0 nil-IsLoaded)
