-- ===== src/Hot/Inflight.antt =====
-- internal/hot/index.go: the live in-flight counts. Only AddInflight and SubInflight change the count
-- of an account that stays in the set.
use grokbuild_pool.Base.{
  ℕ, zero, suc, ◌-◌, ℤ, pos, String, ◌≡◌, refl, ◌≢◌, List, [], ◌∷◌, Option, none, some, arith,
  length, get_or, string_eq, ◌==◌, eq_iff, lookup, delete, lookup-insert, lookup-delete,
  if◌then◌else◌, ltb, inr, ◌⊎◌, if_split,
}
use grokbuild_pool.Hot.Meta.{HotMeta, pick_demote_victim}
use grokbuild_pool.Hot.Index.{
  HotMap, Index, drop_entry, clamp_inflight, append_entry, promote_new, demote_each, shrink,
}
use grokbuild_pool.Hot.Valid.{hot-drop_entry}

-- The live count of an id in a map.
abbrev pub count_in : String → HotMap → Option ℤ
count_in id hot = elim (lookup id hot) [ none ↦ none | some m ↦ some m.inflight ]

abbrev pub live : Index → String → Option ℤ
live idx id = count_in id idx.hot

-- An id that is still there has the count that it had. A count of 0 may be given anew by a load.
abbrev pub Keeps : HotMap → HotMap → Type 0
Keeps hot hot' =
    (id : String) (n : ℤ)
    → n ≢ pos 0
    → count_in id hot ≡ some n
    → (count_in id hot' ≡ none) ⊎ (count_in id hot' ≡ some n)

-- What is left of a map after removals.
abbrev pub Within : HotMap → HotMap → Type 0
Within hot hot' = (id : String) → (lookup id hot' ≡ none) ⊎ (lookup id hot' ≡ lookup id hot)

pub Within-Keeps : (hot hot' : HotMap) → Within hot hot' → Keeps hot hot'
Within-Keeps hot hot' w id n _ e = ground (arith, w id)

pub drop_entry-Within : (idx : Index) (k : String) → Within idx.hot (drop_entry idx k).hot
drop_entry-Within idx k id = rw (hot-drop_entry idx k) (ground (arith, lookup-delete k id idx.hot))

Within-trans : (a b c : HotMap) → Within a b → Within b c → Within a c
Within-trans a b c v w id = ground (arith, v id, w id)

pub demote_each-Within :
    (idx : Index) (ids : List String) → Within idx.hot (demote_each idx ids).hot
unfolding demote_each
demote_each-Within idx [] = λ id. inr refl
demote_each-Within idx (k ∷ ids) =
    let rest = demote_each-Within (if k == "" then idx else drop_entry idx k) ids in
    Within-trans idx.hot (if k == "" then idx else drop_entry idx k).hot _
      (if_split (λ (i : Index). Within idx.hot i.hot) (k == "") (λ _ id. inr refl)
        (λ _. drop_entry-Within idx k))
      rest

pub shrink-Within : (fuel n : ℕ) (idx : Index) → Within idx.hot (shrink fuel n idx).hot
unfolding shrink
shrink-Within zero n idx = λ id. inr refl
shrink-Within (suc fuel) n idx =
    let last = get_or idx.ids (length idx.ids - 1) "" in
    if_split (λ (i : Index). Within idx.hot i.hot) (ltb n (length idx.ids))
      (λ _.
        Within-trans idx.hot (drop_entry idx last).hot _ (drop_entry-Within idx last)
          (shrink-Within fuel n (drop_entry idx last)))
      (λ _ id. inr refl)

pub promote_new-Keeps :
    (idx : Index) (meta : HotMeta)
    → lookup meta.id idx.hot ≡ none
    → Keeps idx.hot (promote_new idx meta).0.hot
unfolding promote_new append_entry
promote_new-Keeps idx meta fresh id n h e =
    let victim = pick_demote_victim idx.hot in
    ground (
      arith,
      hot-drop_entry idx victim,
      lookup-delete victim id idx.hot,
      lookup-insert meta.id id (clamp_inflight meta) idx.hot,
      lookup-insert meta.id id (clamp_inflight meta) (delete victim idx.hot),
      eq_iff meta.id id,
    )
