-- ===== src/Hot/Carry.antt =====
-- internal/hot/index.go: LoadMetas and LoadEligible carry the live in-flight counts over.
use grokbuild_pool.Base.{
  ℕ, zero, suc, ℤ, pos, eq_of_parts, String, ◌≡◌, refl, ◌≢◌, List, [], ◌∷◌, none, some, arith,
  length, take, string_eq, ◌==◌, eq_iff, lookup, insert, lookup-insert, ltb, Result, ok, err, inl,
  inr, ◌⊎◌, if_split, result_split, subst, All, All-append, leb, ◌++◌,
}
use grokbuild_pool.Hot.Meta.{HotMeta}
use grokbuild_pool.Hot.Index.{
  HotError, HotMap, Index, load_metas, load_loop, keep_inflight, prev_inflight,
}
use grokbuild_pool.Hot.Load.{
  index_metas, take_batch, after_query, page_size, load_commit, load_pages, load_rest,
  restore_inflight,
}
use grokbuild_pool.Hot.Replace.{hot-replace_all_locked}
use grokbuild_pool.Hot.Inflight.{count_in, Keeps}

-- The counts that a load carries over.
pub lookup-prev_inflight :
    (hot : HotMap) (id : String) (n : ℤ)
    → n ≢ pos 0
    → count_in id hot ≡ some n
    → lookup id (prev_inflight hot) ≡ some n
unfolding prev_inflight lookup
lookup-prev_inflight [] id n h e = cc
lookup-prev_inflight ((k, m) ∷ hot) id n h e = ground (
  arith,
  eq_iff k id,
  lookup-insert k id m.inflight (prev_inflight hot),
  eq_of_parts m.inflight (pos 0),
  lookup-prev_inflight hot id n h,
)

abbrev pub Carries : List (String × ℤ) → HotMap → Type 0
Carries prev next =
    (id : String) (n : ℤ)
    → lookup id prev ≡ some n
    → (count_in id next ≡ none) ⊎ (count_in id next ≡ some n)

insert-Carries :
    (prev : List (String × ℤ)) (next : HotMap) (m : HotMeta)
    → ((n : ℤ) → lookup m.id prev ≡ some n → m.inflight ≡ n)
    → Carries prev next
    → Carries prev (insert m.id m next)
insert-Carries prev next m h c id n e =
    ground (arith, lookup-insert m.id id m next, eq_iff m.id id, h n, c id n e)

abbrev AllCarry : List (String × ℤ) → Result HotError HotMap → Type 0
AllCarry prev (ok next) = Carries prev next
AllCarry prev (err e) = Unit {0}

kept-Carries :
    (prev : List (String × ℤ)) (m : HotMeta) (next : HotMap)
    → Carries prev next
    → Carries prev (insert m.id (keep_inflight prev m) next)
unfolding keep_inflight
kept-Carries prev m next c id n e =
    ground (arith, lookup-insert m.id id (keep_inflight prev m) next, eq_iff m.id id, c id n e)

load_loop-Carries :
    (prev : List (String × ℤ)) (metas : List HotMeta) (next : HotMap)
    → Carries prev next
    → AllCarry prev (load_loop prev metas next)
unfolding load_loop
load_loop-Carries prev [] next c = c
load_loop-Carries prev (m ∷ metas) next c =
    if_split (AllCarry prev) (m.id == "") (λ _. tt)
      λ _.
        load_loop-Carries prev metas (insert m.id (keep_inflight prev m) next)
          (kept-Carries prev m next c)

abbrev pub Carried : List (String × ℤ) → HotMeta → Type 0
Carried prev m = (n : ℤ) → lookup m.id prev ≡ some n → m.inflight ≡ n

pub index_metas-Carries :
    (prev : List (String × ℤ)) (loaded : List HotMeta) (next : HotMap)
    → All (Carried prev) loaded
    → Carries prev next
    → Carries prev (index_metas loaded next)
unfolding index_metas
index_metas-Carries prev [] next a c = c
index_metas-Carries prev (m ∷ loaded) next a c =
    index_metas-Carries prev loaded (insert m.id m next) a.1 (insert-Carries prev next m a.0 c)

-- A batch of `LoadEligible` gives each meta the count of its id.
take_batch-All :
    (cap_n : ℕ) (prev : List (String × ℤ)) (batch loaded : List HotMeta) (after : String)
    → All (Carried prev) loaded
    → All (Carried prev) (take_batch cap_n prev batch loaded after).0
unfolding take_batch restore_inflight
take_batch-All cap_n prev [] loaded after a = a
take_batch-All cap_n prev (m ∷ batch) loaded after a =
    if_split (λ (r : List HotMeta × String). All (Carried prev) r.0) (leb cap_n (length loaded))
      (λ _. a)
      λ _. take_batch-All cap_n prev batch (loaded ++ restore_inflight prev m ∷ []) m.id (
        All-append (Carried prev) loaded (restore_inflight prev m ∷ []) a
          ((λ n e. ground arith), tt))

abbrev pub AllCarried : List (String × ℤ) → Result HotError (List HotMeta) → Type 0
AllCarried prev (ok loaded) = All (Carried prev) loaded
AllCarried prev (err e) = Unit {0}

after_query-AllCarried :
    (again : List HotMeta → String → Result HotError (List HotMeta)) (cap_n : ℕ)
    (prev : List (String × ℤ)) (page : ℕ) (loaded : List HotMeta) (after : String)
    (r : Result HotError (List HotMeta))
    → ((l : List HotMeta) (a : String) → All (Carried prev) l → AllCarried prev (again l a))
    → All (Carried prev) loaded
    → AllCarried prev (after_query again cap_n prev page loaded after r)
unfolding after_query
after_query-AllCarried again cap_n prev page loaded after (err e) next a = tt
after_query-AllCarried again cap_n prev page loaded after (ok []) next a = a
after_query-AllCarried again cap_n prev page loaded after (ok (m ∷ batch)) next a =
    let kept = take_batch-All cap_n prev (m ∷ batch) loaded after a in
    if_split (AllCarried prev) (ltb (length (m ∷ batch)) page) (λ _. kept) (λ _. next _ _ kept)

pub load_pages-AllCarried :
    (list_eligible : ℕ → String → Result HotError (List HotMeta)) (fuel cap_n : ℕ)
    (prev : List (String × ℤ)) (loaded : List HotMeta) (after : String)
    → All (Carried prev) loaded
    → AllCarried prev (load_pages list_eligible fuel cap_n prev loaded after)
unfolding load_pages
load_pages-AllCarried list_eligible zero cap_n prev loaded after a =
    if_split (AllCarried prev) (ltb (length loaded) cap_n) (λ _. tt) (λ _. a)
load_pages-AllCarried list_eligible (suc fuel) cap_n prev loaded after a =
    let page = page_size cap_n (length loaded) in
    if_split (AllCarried prev) (ltb (length loaded) cap_n)
      (λ more.
        after_query-AllCarried (load_pages list_eligible fuel cap_n prev) cap_n prev page loaded
          after (list_eligible page after)
          (λ l x. load_pages-AllCarried list_eligible fuel cap_n prev l x) a)
      (λ done. a)

pub nil-Carries : (prev : List (String × ℤ)) → Carries prev []
unfolding lookup
nil-Carries prev id n e = inl refl

Carries-Keeps : (hot next : HotMap) → Carries (prev_inflight hot) next → Keeps hot next
Carries-Keeps hot next c id n h e = c id n (lookup-prev_inflight hot id n h e)

-- `P` of the map that a call leaves.
abbrev LeavesKept {ℓ} : {A : Type ℓ} → HotMap → Index × A → Type 0
LeavesKept hot r = Keeps hot r.0.hot

pub same-Keeps : (hot : HotMap) → Keeps hot hot
same-Keeps hot id n h e = inr e

pub load_metas-Keeps :
    (idx : Index) (metas : List HotMeta) → Keeps idx.hot (load_metas idx metas).0.hot
unfolding load_metas
load_metas-Keeps idx metas =
    let prev = prev_inflight idx.hot in
    if_split (LeavesKept idx.hot) idx.is_closed (λ _. same-Keeps idx.hot)
      λ _.
        result_split (LeavesKept idx.hot) (load_loop prev (take idx.limit metas) [])
          (λ next e. rw (hot-replace_all_locked idx next).0 (
            Carries-Keeps idx.hot next (
              subst (AllCarry prev) e
                (load_loop-Carries prev (take idx.limit metas) [] (nil-Carries prev)))))
          (λ e _. same-Keeps idx.hot)

pub load_rest-Keeps :
    (list_eligible : ℕ → String → Result HotError (List HotMeta)) (idx : Index)
    (begun : Result HotError (ℕ × List (String × ℤ)))
    → ((n : ℕ) (prev : List (String × ℤ)) → begun ≡ ok (n, prev) → prev ≡ prev_inflight idx.hot)
    → Keeps idx.hot (load_rest list_eligible idx begun).0.hot
unfolding load_rest load_commit
load_rest-Keeps list_eligible idx (err e) h = same-Keeps idx.hot
load_rest-Keeps list_eligible idx (ok (n, prev)) h =
    result_split (LeavesKept idx.hot) (load_pages list_eligible n n prev [] "")
      (λ loaded e.
        if_split (LeavesKept idx.hot) idx.is_closed (λ _. same-Keeps idx.hot)
          λ _. rw (hot-replace_all_locked idx (index_metas loaded [])).0 (
            Carries-Keeps idx.hot (index_metas loaded []) (
              subst (λ p. Carries p (index_metas loaded [])) (h n prev refl)
                (index_metas-Carries prev loaded []
                  (subst (AllCarried prev) e
                    (load_pages-AllCarried list_eligible n n prev [] "" tt))
                  (nil-Carries prev)))))
      (λ e _. same-Keeps idx.hot)
