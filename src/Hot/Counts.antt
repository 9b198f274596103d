-- ===== src/Hot/Counts.antt =====
-- internal/hot/index.go: what the methods do to the live in-flight counts.
use grokbuild_pool.Base.{
  ℤ, pos, ◌+ℤ◌, ◌-ℤ◌, +ℤ_parts, inc32, ltb_ℤ, ◌≤ℤ◌, ◌<ℤ◌, String, false, ◌≡◌, refl, ◌≢◌, List, [],
  ◌∷◌, some, arith, length, string_eq, ◌==◌, eq_iff, lookup, insert, lookup-insert, if◌then◌else◌,
  Result, ok, Bool-cases, All, inl, inr, ◌⊎◌, ℕ, subst, if_split, option_split, ap, int_laws,
}
use grokbuild_pool.Hot.Meta.{HotMeta}
use grokbuild_pool.Hot.Index.{
  HotError, HotMap, Index, get, prev_inflight, size_or_default, update_entry, add_inflight,
  sub_inflight, set_cooldown, promote, demote, demote_many, resize, close, set_max_inflight,
}
use grokbuild_pool.Hot.Load.{load_begin, load_commit, load_eligible, load_pages, index_metas}
use grokbuild_pool.Hot.Replace.{hot-replace_all_locked}
use grokbuild_pool.Hot.Inflight.{
  live, count_in, Keeps, Within-Keeps, demote_each-Within, shrink-Within, drop_entry-Within,
  promote_new-Keeps,
}
use grokbuild_pool.Hot.Carry.{
  Carried, AllCarried, index_metas-Carries, load_pages-AllCarried, nil-Carries,
  lookup-prev_inflight, same-Keeps, load_metas-Keeps, load_rest-Keeps,
}
use grokbuild_pool.Hot.Run.{
  HotCall, adds, subs, demotes, cools, promotes, demotes_many, resizes, caps, loads, reloads,
  closes, step,
}

abbrev Leaves {ℓ} : {A : Type ℓ} → Index → Index × A → Type 0
Leaves idx r = Keeps idx.hot r.0.hot

promote-Keeps : (idx : Index) (meta : HotMeta) → Keeps idx.hot (promote idx meta).0.hot
unfolding promote
promote-Keeps idx meta =
    if_split (Leaves idx) (meta.id == "") (λ _. same-Keeps idx.hot)
      λ _.
        if_split (Leaves idx) idx.is_closed (λ _. same-Keeps idx.hot)
          λ _.
            option_split (Leaves idx) (lookup meta.id idx.hot) (λ n. promote_new-Keeps idx meta n)
              λ m e id n h g. ground (
                arith,
                lookup-insert meta.id id (record meta { inflight = m.inflight }) idx.hot,
                eq_iff meta.id id,
              )

demote-Keeps : (idx : Index) (id : String) → Keeps idx.hot (demote idx id).0.hot
unfolding demote
demote-Keeps idx id =
    if_split (Leaves idx) (id == "") (λ _. same-Keeps idx.hot)
      λ _.
        if_split (Leaves idx) idx.is_closed (λ _. same-Keeps idx.hot)
          λ _. Within-Keeps idx.hot _ (drop_entry-Within idx id)

set_cooldown-Keeps :
    (idx : Index) (id : String) (until : ℤ) → Keeps idx.hot (set_cooldown idx id until).0.hot
unfolding set_cooldown
set_cooldown-Keeps idx id until =
    if_split (Leaves idx) (id == "") (λ _. same-Keeps idx.hot)
      λ _.
        if_split (Leaves idx) idx.is_closed (λ _. same-Keeps idx.hot)
          λ _.
            option_split (Leaves idx) (lookup id idx.hot) (λ _. same-Keeps idx.hot)
              λ m e j n h g. ground (
                arith,
                lookup-insert id j (record m { cooldown_until = until }) idx.hot,
                eq_iff id j,
              )

-- The calls that are meant to change a count.
abbrev pub IsCounting : HotCall → Type 0
IsCounting (adds id) = Unit {0}
IsCounting (subs id) = Unit {0}
IsCounting _ = ⊥

-- Every method but AddInflight and SubInflight leaves a live count that is not 0 as it is, or removes
-- the account: promotions, demotions, resizes and both reloads included.
pub step-Keeps : (idx : Index) (c : HotCall) → ¬ IsCounting c → Keeps idx.hot (step idx c).hot
unfolding step demote_many resize set_max_inflight close load_eligible load_begin
step-Keeps idx (adds id) h = absurd (h tt)
step-Keeps idx (subs id) h = absurd (h tt)
step-Keeps idx (demotes id) h = demote-Keeps idx id
step-Keeps idx (cools id until) h = set_cooldown-Keeps idx id until
step-Keeps idx (promotes meta) h = promote-Keeps idx meta
step-Keeps idx (demotes_many ids) h =
    if_split (λ (i : Index). Keeps idx.hot i.hot) idx.is_closed (λ _. same-Keeps idx.hot)
      (λ _. Within-Keeps idx.hot _ (demote_each-Within idx ids))
step-Keeps idx (resizes n) h =
    Within-Keeps idx.hot _ (shrink-Within (length idx.ids) (size_or_default n) _)
step-Keeps idx (caps max) h = same-Keeps idx.hot
step-Keeps idx (loads metas) h = load_metas-Keeps idx metas
step-Keeps idx (reloads list_eligible) h =
    load_rest-Keeps list_eligible idx (load_begin idx) (λ n prev e. ground arith)
step-Keeps idx closes h = same-Keeps idx.hot

update_entry_known :
    (idx : Index) (id : String) (f : HotMeta → HotMeta) (m : HotMeta)
    → id ≢ ""
    → idx.is_closed ≡ false
    → lookup id idx.hot ≡ some m
    → update_entry idx id f ≡ (record idx { hot = insert id (f m) idx.hot }, ok tt)
unfolding update_entry
update_entry_known idx id f m named opened e = ground (arith, eq_iff id "")

inc32_small : (n : ℤ) → n <ℤ pos 2147483647 → inc32 n ≡ n +ℤ pos 1
unfolding inc32
inc32_small n h = ground arith

add_sub : (n : ℤ) → n +ℤ pos 1 -ℤ pos 1 ≡ n
add_sub n = omega int_laws

-- One count up and down again.
abbrev added : HotMeta → HotMeta
added m = record m { inflight = inc32 m.inflight }

abbrev subtracted : HotMeta → HotMeta
subtracted m = if ltb_ℤ (pos 0) m.inflight then record m { inflight = m.inflight -ℤ pos 1 } else m

inflight-subtracted :
    (m : HotMeta)
    → pos 0 ≤ℤ m.inflight
    → m.inflight <ℤ pos 2147483647
    → (subtracted (added m)).inflight ≡ m.inflight
inflight-subtracted m low high =
    ground (arith, inc32_small m.inflight, +ℤ_parts m.inflight (pos 1), add_sub m.inflight)

add_inflight_known :
    (idx : Index) (id : String) (m : HotMeta)
    → id ≢ ""
    → idx.is_closed ≡ false
    → lookup id idx.hot ≡ some m
    → add_inflight idx id ≡ (record idx { hot = insert id (added m) idx.hot }, ok tt)
unfolding add_inflight
add_inflight_known idx id m = update_entry_known idx id added m

sub_inflight_known :
    (idx : Index) (id : String) (m : HotMeta)
    → id ≢ ""
    → idx.is_closed ≡ false
    → lookup id idx.hot ≡ some m
    → sub_inflight idx id ≡ (record idx { hot = insert id (subtracted m) idx.hot }, ok tt)
unfolding sub_inflight
sub_inflight_known idx id m = update_entry_known idx id subtracted m

-- For a known account of an open index whose count is from 0 to below 2^31 - 1, AddInflight succeeds
-- and adds 1, SubInflight after it succeeds, and the two together change no account's count.
pub sub-add_inflight :
    (idx : Index) (id : String) (m : HotMeta)
    → id ≢ ""
    → idx.is_closed ≡ false
    → get idx id ≡ some m
    → pos 0 ≤ℤ m.inflight
    → m.inflight <ℤ pos 2147483647
    → let up = add_inflight idx id in
      let down = sub_inflight up.0 id in
      (up.1 ≡ ok tt)
      × (live up.0 id ≡ some (m.inflight +ℤ pos 1))
      × (down.1 ≡ ok tt)
      × ((j : String) → live down.0 j ≡ live idx j)
unfolding get
sub-add_inflight idx id m named opened e low high =
    let up = add_inflight_known idx id m named opened e in
    let hot' = insert id (added m) idx.hot in
    let there : lookup id hot' ≡ some (added m) =
      ground (arith, lookup-insert id id (added m) idx.hot, eq_iff id id) in
    let down = sub_inflight_known (record idx { hot = hot' }) id (added m) named opened there in
    rw up (
      refl,
      ground (arith, inc32_small m.inflight),
      ap (λ r. r.1) down,
      λ j. rw down (
          ground (
            arith,
            lookup-insert id j (subtracted (added m)) hot',
            lookup-insert id j (added m) idx.hot,
            eq_iff id j,
            inflight-subtracted m low high,
          )),
    )

-- The loaded list has a meta with that id.
unfoldable pub Lists : String → List HotMeta → Type 0
Lists id [] = ⊥
Lists id (m ∷ loaded) = (m.id ≡ id) ⊎ Lists id loaded

Counts : String → HotMap → Type 0
Counts id hot = (n : ℤ) × (count_in id hot ≡ some n)

index_metas-Counts :
    (id : String) (loaded : List HotMeta) (next : HotMap)
    → Lists id loaded ⊎ Counts id next
    → Counts id (index_metas loaded next)
unfolding index_metas Lists Counts
index_metas-Counts id [] next (inl h) = elim h [ ]
index_metas-Counts id [] next (inr h) = h
index_metas-Counts id (m ∷ loaded) next (inl (inl here)) =
    index_metas-Counts id loaded (insert m.id m next)
      (inr (m.inflight, ground (arith, lookup-insert m.id id m next, eq_iff m.id id)))
index_metas-Counts id (m ∷ loaded) next (inl (inr h)) =
    index_metas-Counts id loaded (insert m.id m next) (inl h)
index_metas-Counts id (m ∷ loaded) next (inr (n, h)) =
    index_metas-Counts id loaded (insert m.id m next) (
      inr (elim (Bool-cases (m.id == id)) [
        | inl same ↦ (m.inflight, ground (arith, lookup-insert m.id id m next, eq_iff m.id id))
        | inr other ↦ (n, ground (arith, lookup-insert m.id id m next, eq_iff m.id id))
      ]))

-- What the pages put into the hot set has the counts of the snapshot.
loaded_count :
    (list_eligible : ℕ → String → Result HotError (List HotMeta)) (hot : HotMap) (n : ℕ)
    (loaded : List HotMeta) (id : String) (k : ℤ)
    → load_pages list_eligible n n (prev_inflight hot) [] "" ≡ ok loaded
    → Lists id loaded
    → k ≢ pos 0
    → count_in id hot ≡ some k
    → count_in id (index_metas loaded []) ≡ some k
unfolding Counts
loaded_count list_eligible hot n loaded id k e listed busy at =
    let prev = prev_inflight hot in
    let (c, there) = index_metas-Counts id loaded [] (inl listed) in
    let carried : All (Carried prev) loaded =
      subst (AllCarried prev) e (load_pages-AllCarried list_eligible n n prev [] "" tt) in
    elim (index_metas-Carries prev loaded [] carried (nil-Carries prev) id k
      (lookup-prev_inflight hot id k busy at)) [
        | inl gone ↦ absurd (ground (arith, gone, there))
        | inr same ↦ same
      ]

-- LoadEligible is not one step: what AddInflight adds between its snapshot and its commit is lost. For
-- a known account of an open index whose count is not 0, and which is in the list that the pages of
-- the catalog have given, AddInflight in between adds one to the count, as an int32 does, and the
-- commit puts the count of the snapshot back. The pages are of any catalog, with any other accounts.
pub commit_loses_add :
    (list_eligible : ℕ → String → Result HotError (List HotMeta)) (idx : Index) (id : String)
    (m : HotMeta) (n : ℕ) (prev : List (String × ℤ)) (loaded : List HotMeta)
    → id ≢ ""
    → get idx id ≡ some m
    → m.inflight ≢ pos 0
    → load_begin idx ≡ ok (n, prev)
    → load_pages list_eligible n n prev [] "" ≡ ok loaded
    → Lists id loaded
    → let up = (add_inflight idx id).0 in
      (live up id ≡ some (inc32 m.inflight)) × (live (load_commit up loaded).0 id ≡ some m.inflight)
unfolding get load_begin load_commit
commit_loses_add list_eligible idx id m n prev loaded named e busy begun paged listed =
    let opened : idx.is_closed ≡ false = ground (arith, begun) in
    let snapshot : prev ≡ prev_inflight idx.hot = ground (arith, begun) in
    let paged' : load_pages list_eligible n n (prev_inflight idx.hot) [] "" ≡ ok loaded =
      subst (λ p. load_pages list_eligible n n p [] "" ≡ ok loaded) snapshot paged in
    let kept =
      loaded_count list_eligible idx.hot n loaded id m.inflight paged' listed busy
        (ground (arith, e)) in
    let up = record idx { hot = insert id (added m) idx.hot } in
    rw (add_inflight_known idx id m named opened e) (
      ground (arith, lookup-insert id id (added m) idx.hot, eq_iff id id),
      ground (arith, kept, opened, (hot-replace_all_locked up (index_metas loaded [])).0),
    )
