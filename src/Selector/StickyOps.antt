-- ===== src/Selector/StickyOps.antt =====
-- internal/selector/sticky.go: the writers keep the index in step with the bindings.
use grokbuild_pool.Base.{
  ℕ, zero, suc, ℤ, ◌+ℤ◌, leb, String, ◌||◌, ◌≡◌, refl, ◌≢◌, none, some, arith, length, string_eq,
  ◌==◌, eq_iff, lookup, lookup-insert, lookup-delete, insert-IsUniq, if_split, option_split,
}
use grokbuild_pool.Selector.Acct.{
  index_account, unindex_account, indexed-index_account, indexed-unindex_account,
}
use grokbuild_pool.Selector.Sticky.{
  StickyEntry, StickyLru, remove_element, back, evict, push_new, put, bind_secondary, put_secondary,
  delete_key, forget,
}
use grokbuild_pool.Selector.StickyInv.{
  IsSticky, to_front-IsSticky, remove_element-IsSticky, evict-IsSticky, rebind-IsSticky,
}

pub push_new-IsSticky :
    (s : StickyLru) (now : ℤ) (key account_id : String)
    → IsSticky s
    → lookup key s.entries ≡ none
    → account_id ≢ ""
    → IsSticky (push_new s now key account_id)
unfolding push_new
push_new-IsSticky s now key account_id v h named =
    let e : StickyEntry = record {
      key = key;
      account_id = account_id;
      secondary = "";
      expires_at = now +ℤ s.ttl_sec;
    } in
    to_front-IsSticky s (record s { by_acct = index_account s.by_acct account_id key }) e v refl
      (record { keyed = refl; bound = named; apart = named })
      (λ a k a_named. ground (
        arith,
        eq_iff key k,
        eq_iff account_id a,
        eq_iff account_id "",
        eq_iff "" a,
        indexed-index_account s.by_acct account_id key a k,
        v.agrees a k a_named,
      ))

-- A missing key stays missing while old bindings make room.
pub evict_absent :
    (fuel : ℕ) (s : StickyLru) (key : String)
    → lookup key s.entries ≡ none
    → lookup key (evict fuel s).entries ≡ none
unfolding evict remove_element
evict_absent zero s key h = h
evict_absent (suc fuel) s key h =
    if_split (λ (t : StickyLru). lookup key t.entries ≡ none) (leb s.max (length s.entries))
      (λ _.
        option_split (λ (t : StickyLru). lookup key t.entries ≡ none) (back s.entries) (λ _. h)
          λ e _.
            evict_absent fuel (remove_element s e) key
              (ground (arith, lookup-delete e.key key s.entries)))
      (λ _. h)

pub put-IsSticky :
    (s : StickyLru) (now : ℤ) (key account_id : String)
    → IsSticky s
    → IsSticky (put s now key account_id)
unfolding put
put-IsSticky s now key account_id v =
    if_split IsSticky ((key == "") || (account_id == "")) (λ _. v)
      λ full.
        let named : account_id ≢ "" = ground (arith, eq_iff account_id "") in
        option_split IsSticky (lookup key s.entries)
          (λ n.
            push_new-IsSticky (evict (length s.entries) s) now key account_id
              (evict-IsSticky (length s.entries) s v) (evict_absent (length s.entries) s key n)
              named)
          (λ e h. rebind-IsSticky s now e account_id v (ground (arith, v.entry key e h)) named)

bind_secondary-IsSticky :
    (s : StickyLru) (now : ℤ) (e : StickyEntry) (account_id : String)
    → IsSticky s
    → lookup e.key s.entries ≡ some e
    → account_id ≢ ""
    → IsSticky (bind_secondary s now e account_id)
unfolding bind_secondary
bind_secondary-IsSticky s now e account_id v h named =
    let q = v.entry e.key e h in
    let fresh = record e { expires_at = now +ℤ s.ttl_sec } in
    let dropped = unindex_account s.by_acct e.secondary e.key in
    if_split IsSticky (e.account_id == account_id)
      (λ same.
        to_front-IsSticky s _ (record fresh { secondary = "" }) v refl
          (record { keyed = refl; bound = q.bound; apart = q.bound })
          (λ a k a_named. ground (
            arith,
            eq_iff e.key k,
            eq_iff e.secondary "",
            eq_iff e.secondary a,
            eq_iff e.account_id a,
            eq_iff "" a,
            q.apart,
            indexed-unindex_account s.by_acct e.secondary e.key a k,
            v.agrees a k a_named,
          )))
      (λ other.
        to_front-IsSticky s _ (record fresh { secondary = account_id }) v refl
          (record {
            keyed = refl;
            bound = q.bound;
            apart = ground (arith, eq_iff e.account_id account_id);
          })
          (λ a k a_named. ground (
            arith,
            eq_iff e.key k,
            eq_iff e.secondary "",
            eq_iff e.secondary account_id,
            eq_iff e.secondary a,
            eq_iff e.account_id a,
            eq_iff account_id a,
            eq_iff account_id "",
            q.apart,
            indexed-unindex_account s.by_acct e.secondary e.key a k,
            indexed-index_account s.by_acct account_id e.key a k,
            indexed-index_account dropped account_id e.key a k,
            v.agrees a k a_named,
          )))

pub put_secondary-IsSticky :
    (s : StickyLru) (now : ℤ) (key account_id : String)
    → IsSticky s
    → IsSticky (put_secondary s now key account_id)
unfolding put_secondary
put_secondary-IsSticky s now key account_id v =
    if_split IsSticky ((key == "") || (account_id == "")) (λ _. v)
      λ full.
        option_split IsSticky (lookup key s.entries) (λ _. v)
          (λ e h.
            bind_secondary-IsSticky s now e account_id v (ground (arith, v.entry key e h))
              (ground (arith, eq_iff account_id "")))

pub delete_key-IsSticky : (s : StickyLru) (key : String) → IsSticky s → IsSticky (delete_key s key)
unfolding delete_key
delete_key-IsSticky s key v =
    if_split IsSticky (key == "") (λ _. v)
      λ _.
        option_split IsSticky (lookup key s.entries) (λ _. v)
          (λ e h. remove_element-IsSticky s e v (ground (arith, v.entry key e h)))

pub forget-IsSticky :
    (s : StickyLru) (account_id k : String)
    → account_id ≢ ""
    → IsSticky s
    → IsSticky (forget s account_id k)
unfolding forget
forget-IsSticky s account_id k named v =
    option_split IsSticky (lookup k s.entries) (λ _. v)
      λ e h.
        let q = v.entry k e h in
        let e' = record e { secondary = "" } in
        if_split IsSticky (e.account_id == account_id)
          (λ _. remove_element-IsSticky s e v (ground (arith, q)))
          λ other.
            if_split IsSticky (e.secondary == account_id)
              (λ hit. record {
                uniq = insert-IsUniq k e' s.entries v.uniq;
                entry = λ j x g.
                    ground (arith, lookup-insert k j e' s.entries, eq_iff k j, v.entry j x, q);
                agrees = λ a j a_named. ground (
                  arith,
                  lookup-insert k j e' s.entries,
                  eq_iff k j,
                  eq_iff account_id a,
                  eq_iff e.account_id a,
                  eq_iff e.account_id account_id,
                  eq_iff e.secondary a,
                  eq_iff e.secondary account_id,
                  eq_iff "" a,
                  indexed-unindex_account s.by_acct account_id k a j,
                  v.agrees a j a_named,
                );
              })
              (λ _. v)
