-- ===== src/Hot/Preserve.antt =====
-- internal/hot/index.go: every method keeps the index valid.
use grokbuild_pool.Base.{
  ℕ, zero, suc, ◌-◌, ◌≤◌, ◌<◌, ℤ, String, true, false, ◌≡◌, refl, List, [], ◌∷◌, arith, length,
  get_or, take, string_eq, ◌==◌, eq_iff, lookup, insert, has, lookup-delete, length-insert,
  length-delete, if◌then◌else◌, ltb, inl, ◌⊎◌, if_split, option_split, result_split, length-take-le,
  get_elem?_or,
}
use grokbuild_pool.Hot.Meta.{HotMeta, victim_from, pick_demote_victim}
use grokbuild_pool.Hot.Index.{
  HotMap, Index, drop_entry, update_entry, clamp_inflight, append_entry, promote, promote_new,
  demote, demote_each, shrink, resize, load_metas, load_loop, prev_inflight, size_or_default,
  replace_all_locked,
}
use grokbuild_pool.Hot.Load.{index_metas, load_commit}
use grokbuild_pool.Hot.Valid.{
  IsSound, IsValid, overwrite-IsSound, append_entry-IsSound, drop_entry-IsSound, hot-drop_entry,
  limit-drop_entry,
}
use grokbuild_pool.Hot.Replace.{
  replace_all_locked-IsSound, IsLoaded, load_loop-IsLoaded, index_metas-IsLoaded',
  hot-replace_all_locked,
}

abbrev pub LeavesValid {ℓ} : {A : Type ℓ} → Index × A → Type 0
LeavesValid r = IsValid r.0

overwrite-IsValid :
    (idx : Index) (k : String) (m : HotMeta)
    → IsValid idx
    → has k idx.hot ≡ true
    → m.id ≡ k
    → IsValid (record idx { hot = insert k m idx.hot })
overwrite-IsValid idx k m v h e = record {
  sound = overwrite-IsSound idx k m v.sound h e;
  bounded = ground (arith, length-insert k m idx.hot, v.bounded);
  roomy = v.roomy;
}

pub update_entry-IsValid :
    (idx : Index) (id : String) (f : HotMeta → HotMeta)
    → ((m : HotMeta) → (f m).id ≡ m.id)
    → IsValid idx
    → IsValid (update_entry idx id f).0
unfolding update_entry
update_entry-IsValid idx id f keeps v =
    if_split LeavesValid (id == "") (λ _. v)
      λ _.
        if_split LeavesValid idx.is_closed (λ _. v)
          λ _.
            option_split LeavesValid (lookup id idx.hot) (λ _. v)
              λ m g.
                overwrite-IsValid idx id (f m) v (ground arith)
                  (ground (arith, keeps m, v.sound.named id m))

drop_entry-IsValid : (idx : Index) (k : String) → IsValid idx → IsValid (drop_entry idx k)
drop_entry-IsValid idx k v = record {
  sound = drop_entry-IsSound idx k v.sound;
  bounded = ground (
    arith,
    hot-drop_entry idx k,
    limit-drop_entry idx k,
    length-delete k idx.hot,
    v.sound.uniq,
    v.bounded,
  );
  roomy = ground (arith, limit-drop_entry idx k, v.roomy);
}

-- The victim is one of the ids in the set.
victim_from-has :
    (best_id : String) (best : HotMeta) (hot : HotMap)
    → (victim_from best_id best hot ≡ best_id) ⊎ (has (victim_from best_id best hot) hot ≡ true)
unfolding victim_from lookup
victim_from-has best_id best [] = inl refl
victim_from-has best_id best ((id, m) ∷ hot) = ground (
  arith,
  victim_from-has id m hot,
  victim_from-has best_id best hot,
  eq_iff id (victim_from id m hot),
  eq_iff id (victim_from best_id best hot),
)

pub pick_demote_victim-has :
    (hot : HotMap) → 0 < length hot → has (pick_demote_victim hot) hot ≡ true
unfolding pick_demote_victim lookup
pick_demote_victim-has [] h = absurd (omega arith)
pick_demote_victim-has ((id, m) ∷ hot) h =
    ground (arith, victim_from-has id m hot, eq_iff id (victim_from id m hot))

append_entry-IsValid :
    (idx : Index) (meta : HotMeta)
    → IsSound idx
    → has meta.id idx.hot ≡ false
    → length idx.hot < idx.limit
    → IsValid (append_entry idx meta)
unfolding append_entry
append_entry-IsValid idx meta s h room = record {
  sound = append_entry-IsSound idx meta s h;
  bounded = ground (arith, length-insert meta.id (clamp_inflight meta) idx.hot);
  roomy = omega arith;
}

promote_new-IsValid :
    (idx : Index) (meta : HotMeta)
    → IsValid idx
    → has meta.id idx.hot ≡ false
    → IsValid (promote_new idx meta).0
unfolding promote_new
promote_new-IsValid idx meta v h =
    let victim = pick_demote_victim idx.hot in
    if_split LeavesValid (ltb (length idx.hot) idx.limit)
      (λ room. append_entry-IsValid idx meta v.sound h (ground arith))
      λ full.
        if_split LeavesValid (victim == "") (λ _. v)
          λ _.
            append_entry-IsValid (drop_entry idx victim) meta
              (drop_entry-IsSound idx victim v.sound)
              (ground (arith, hot-drop_entry idx victim, lookup-delete victim meta.id idx.hot))
              (ground (
                arith,
                hot-drop_entry idx victim,
                limit-drop_entry idx victim,
                length-delete victim idx.hot v.sound.uniq,
                pick_demote_victim-has idx.hot,
                v.bounded,
                v.roomy,
              ))

pub promote-IsValid : (idx : Index) (meta : HotMeta) → IsValid idx → IsValid (promote idx meta).0
unfolding promote
promote-IsValid idx meta v =
    if_split LeavesValid (meta.id == "") (λ _. v)
      λ _.
        if_split LeavesValid idx.is_closed (λ _. v)
          λ _.
            option_split LeavesValid (lookup meta.id idx.hot)
              (λ n. promote_new-IsValid idx meta v (ground arith))
              (λ existing g.
                overwrite-IsValid idx meta.id (record meta { inflight = existing.inflight }) v
                  (ground arith) refl)

pub demote-IsValid : (idx : Index) (id : String) → IsValid idx → IsValid (demote idx id).0
unfolding demote
demote-IsValid idx id v =
    if_split LeavesValid (id == "") (λ _. v)
      λ _. if_split LeavesValid idx.is_closed (λ _. v) λ _. drop_entry-IsValid idx id v

pub demote_each-IsValid :
    (idx : Index) (ids : List String) → IsValid idx → IsValid (demote_each idx ids)
unfolding demote_each
demote_each-IsValid idx [] v = v
demote_each-IsValid idx (id ∷ ids) v =
    demote_each-IsValid (if id == "" then idx else drop_entry idx id) ids
      (if_split IsValid (id == "") (λ _. v) (λ _. drop_entry-IsValid idx id v))

-- Dropping the last id makes the list one shorter.
last_drop :
    (idx : Index) (fuel : ℕ)
    → IsSound idx
    → length idx.ids ≤ suc fuel
    → 0 < length idx.ids
    → length (drop_entry idx (get_or idx.ids (length idx.ids - 1) "")).ids ≤ fuel
last_drop idx fuel s f h =
    let last = get_or idx.ids (length idx.ids - 1) "" in
    let gone = drop_entry-IsSound idx last s in
    ground (
      arith,
      gone.counted,
      s.counted,
      hot-drop_entry idx last,
      length-delete last idx.hot s.uniq,
      s.same last,
      get_elem?_or idx.ids (length idx.ids - 1) "",
      s.dense.found (length idx.ids - 1) last,
    )

-- The loop of `Resize` ends below the limit.
shrink-IsValid :
    (fuel n : ℕ) (idx : Index)
    → IsSound idx
    → idx.limit ≡ n
    → 0 < n
    → length idx.ids ≤ fuel
    → IsValid (shrink fuel n idx)
unfolding shrink
shrink-IsValid zero n idx s e h f = record {
  sound = s;
  bounded = ground (arith, s.counted);
  roomy = ground arith;
}
shrink-IsValid (suc fuel) n idx s e h f =
    let last = get_or idx.ids (length idx.ids - 1) "" in
    if_split IsValid (ltb n (length idx.ids))
      (λ more.
        shrink-IsValid fuel n (drop_entry idx last) (drop_entry-IsSound idx last s)
          (ground (arith, limit-drop_entry idx last)) h (last_drop idx fuel s f (ground arith)))
      (λ done. record { sound = s; bounded = ground (arith, s.counted); roomy = ground arith })

pub resize-IsValid : (idx : Index) (n : ℤ) → IsValid idx → IsValid (resize idx n)
unfolding resize
resize-IsValid idx n v =
    shrink-IsValid (length idx.ids) (size_or_default n) _
      (record {
        dense = v.sound.dense;
        same = v.sound.same;
        uniq = v.sound.uniq;
        counted = v.sound.counted;
        named = v.sound.named;
      })
      refl (ground arith) (omega arith)

install-IsValid :
    (idx : Index) (next : HotMap) {n : ℕ}
    → IsValid idx
    → IsLoaded next n
    → n ≤ idx.limit
    → IsValid (replace_all_locked idx next)
install-IsValid idx next v l h = record {
  sound = replace_all_locked-IsSound idx next l.uniq l.named;
  bounded = ground (arith, hot-replace_all_locked idx next, l.bounded);
  roomy = ground (arith, hot-replace_all_locked idx next, v.roomy);
}

pub load_metas-IsValid :
    (idx : Index) (metas : List HotMeta) → IsValid idx → IsValid (load_metas idx metas).0
unfolding load_metas
load_metas-IsValid idx metas v =
    if_split LeavesValid idx.is_closed (λ _. v)
      λ _.
        result_split LeavesValid (load_loop (prev_inflight idx.hot) (take idx.limit metas) [])
          (λ next e.
            install-IsValid idx next v (load_loop-IsLoaded (prev_inflight idx.hot) _ e)
              (length-take-le idx.limit metas))
          (λ e _. v)

-- A commit of no more metas than the limit allows.
pub load_commit-IsValid :
    (idx : Index) (loaded : List HotMeta)
    → length loaded ≤ idx.limit
    → IsValid idx
    → IsValid (load_commit idx loaded).0
unfolding load_commit
load_commit-IsValid idx loaded h v =
    if_split LeavesValid idx.is_closed (λ _. v)
      λ _. install-IsValid idx (index_metas loaded []) v (index_metas-IsLoaded' loaded) h
