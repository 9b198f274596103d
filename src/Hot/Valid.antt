-- ===== src/Hot/Valid.antt =====
-- internal/hot/index.go: the well-formedness of the index, and that every operation keeps it.
use grokbuild_pool.Base.{
  ◌≤◌, ◌<◌, String, true, false, ◌≡◌, refl, [], ◌∷◌, none, some, arith, length, string_eq, eq_iff,
  lookup, insert, delete, has, IsUniq, lookup-insert, lookup-delete, insert-IsUniq, delete-IsUniq,
  length-insert, length-delete, length-append, inl, inr, Option-cases,
}
use grokbuild_pool.Hot.Meta.{HotMeta}
use grokbuild_pool.Hot.Index.{
  HotMap, Index, remove_locked, drop_entry, append_entry, clamp_inflight,
}
use grokbuild_pool.Hot.Dense.{IsDense, add-IsDense, remove-IsDense, length-remove, has-remove}

-- Every entry is stored under its own id.
abbrev pub IsNamed : HotMap → Type 0
IsNamed hot = (k : String) (m : HotMeta) → lookup k hot ≡ some m → m.id ≡ k

-- The map, the list and the positions hold the same ids, once each.
pub record IsSound (idx : Index) : Type 0 where
  pub dense : IsDense idx.ids idx.pos_of
  pub same : (k : String) → has k idx.hot ≡ has k idx.pos_of
  pub uniq : IsUniq idx.hot
  pub counted : length idx.hot ≡ length idx.ids
  pub named : IsNamed idx.hot

-- A sound index within its limit, which is not zero.
pub record IsValid (idx : Index) : Type 0 where
  pub sound : IsSound idx
  pub bounded : length idx.hot ≤ idx.limit
  pub roomy : 0 < idx.limit

pub insert-IsNamed :
    (k : String) (m : HotMeta) (hot : HotMap) → m.id ≡ k → IsNamed hot → IsNamed (insert k m hot)
insert-IsNamed k m hot e n j m' h = ground (arith, lookup-insert k j m hot, eq_iff k j, n j m')

delete-IsNamed : (k : String) (hot : HotMap) → IsNamed hot → IsNamed (delete k hot)
delete-IsNamed k hot n j m' h = ground (arith, lookup-delete k j hot, n j m')

-- A write to an entry that is there.
pub overwrite-IsSound :
    (idx : Index) (k : String) (m : HotMeta)
    → IsSound idx
    → has k idx.hot ≡ true
    → m.id ≡ k
    → IsSound (record idx { hot = insert k m idx.hot })
overwrite-IsSound idx k m s h e = record {
  dense = s.dense;
  same = λ j. ground (arith, lookup-insert k j m idx.hot, eq_iff k j, s.same j);
  uniq = insert-IsUniq k m idx.hot s.uniq;
  counted = ground (arith, length-insert k m idx.hot, s.counted);
  named = insert-IsNamed k m idx.hot e s.named;
}

pub append_entry-IsSound :
    (idx : Index) (meta : HotMeta)
    → IsSound idx
    → has meta.id idx.hot ≡ false
    → IsSound (append_entry idx meta)
unfolding append_entry
append_entry-IsSound idx meta s h =
    let absent : lookup meta.id idx.pos_of ≡ none = ground (arith, s.same meta.id) in
    record {
      dense = add-IsDense s.dense meta.id absent;
      same = λ j. ground (
        arith,
        lookup-insert meta.id j (clamp_inflight meta) idx.hot,
        lookup-insert meta.id j (length idx.ids) idx.pos_of,
        s.same j,
      );
      uniq = insert-IsUniq meta.id (clamp_inflight meta) idx.hot s.uniq;
      counted = ground (
        arith,
        length-insert meta.id (clamp_inflight meta) idx.hot,
        length-append idx.ids (meta.id ∷ []),
        s.counted,
      );
      named = insert-IsNamed meta.id (clamp_inflight meta) idx.hot refl s.named;
    }

-- After a removal the map has lost the one id.
pub drop_entry-IsSound : (idx : Index) (k : String) → IsSound idx → IsSound (drop_entry idx k)
unfolding drop_entry
drop_entry-IsSound idx k s = elim (Option-cases (lookup k idx.pos_of)) [
  | inl e ↦
      rw (e, drop_entry, remove_locked)
        (record {
          dense = s.dense;
          same = λ j. ground (arith, lookup-delete k j idx.hot, eq_iff k j, s.same j, s.same k);
          uniq = delete-IsUniq k idx.hot s.uniq;
          counted = ground (arith, length-delete k idx.hot, s.uniq, s.counted, s.same k);
          named = delete-IsNamed k idx.hot s.named;
        })
  | inr (p, e) ↦
      rw (e, drop_entry, remove_locked)
        (record {
          dense = remove-IsDense s.dense k p e;
          same =
              λ j. ground (arith, lookup-delete k j idx.hot, has-remove s.dense k p j e, s.same j);
          uniq = delete-IsUniq k idx.hot s.uniq;
          counted = ground (
            arith,
            length-delete k idx.hot,
            s.uniq,
            s.counted,
            s.same k,
            length-remove s.dense k p e,
          );
          named = delete-IsNamed k idx.hot s.named;
        })
]

pub hot-drop_entry : (idx : Index) (k : String) → (drop_entry idx k).hot ≡ delete k idx.hot
unfolding drop_entry
hot-drop_entry idx k = ground arith

pub limit-drop_entry : (idx : Index) (k : String) → (drop_entry idx k).limit ≡ idx.limit
unfolding drop_entry
limit-drop_entry idx k = ground arith
