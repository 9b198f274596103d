-- ===== src/Selector/StickyLaws.antt =====
-- internal/selector/sticky.go: what the bindings are after each operation.
use grokbuild_pool.Base.{
  ℕ, zero, suc, ℤ, pos, ◌+ℤ◌, ◌<ℤ◌, ◌≤ℤ◌, leb, String, true, false, [], ◌∷◌, ◌≡◌, refl, ◌≢◌, Option,
  none, some, arith, length, string_eq, ◌==◌, eq_iff, lookup, has, lookup-insert, lookup-delete,
  if◌then◌else◌, if_split, option_split, Option-cases, inl, inr,
}
use grokbuild_pool.Hot.Meta.{IdSet}
use grokbuild_pool.Selector.Acct.{keys_of}
use grokbuild_pool.Selector.Sticky.{
  StickyEntry, StickyLru, remove_element, get_pair, back, evict, rebind, push_new, put, forget,
  forget_each, delete_account,
}
use grokbuild_pool.Selector.StickyInv.{mentions, IsSticky}
use grokbuild_pool.Selector.StickyOps.{forget-IsSticky}

-- What a binding becomes when an account is forgotten.
pub forgotten : String → Option StickyEntry → Option StickyEntry
forgotten a none = none
forgotten a (some e) =
    if e.account_id == a
    then none
    else if e.secondary == a
    then some (record e { secondary = "" })
    else some e

forget_lem :
    (s : StickyLru) (a k j : String)
    → IsSticky s
    → lookup j (forget s a k).entries
      ≡ (if k == j then forgotten a (lookup j s.entries) else lookup j s.entries)
unfolding forget forgotten remove_element
forget_lem s a k j v = elim (Option-cases (lookup k s.entries)) [
  | inl n ↦ ground (arith, eq_iff k j)
  | inr (e, h) ↦ ground (
    arith,
    eq_iff k j,
    v.entry k e h,
    lookup-delete e.key j s.entries,
    lookup-insert k j (record e { secondary = "" }) s.entries,
  )
]

forgotten_idem :
    (a : String) (o : Option StickyEntry) → a ≢ "" → forgotten a (forgotten a o) ≡ forgotten a o
unfolding forgotten
forgotten_idem a none h = refl
forgotten_idem a (some e) h = ground (arith, eq_iff "" a)

forget_each_lem :
    (s : StickyLru) (a : String) (keys : IdSet) (j : String)
    → a ≢ ""
    → IsSticky s
    → (lookup j (forget_each s a keys).entries
        ≡ (if has j keys then forgotten a (lookup j s.entries) else lookup j s.entries))
      × IsSticky (forget_each s a keys)
unfolding forget_each lookup
forget_each_lem s a [] j named v = (refl, v)
forget_each_lem s a ((k, u) ∷ keys) j named v =
    let (rest, kept) =
      forget_each_lem (forget s a k) a keys j named (forget-IsSticky s a k named v) in
    (ground (arith, rest, forget_lem s a k j v, forgotten_idem a (lookup j s.entries) named), kept)

forgotten_unmentioned :
    (a : String) (o : Option StickyEntry) → mentions a o ≡ false → forgotten a o ≡ o
unfolding forgotten
forgotten_unmentioned a none h = refl
forgotten_unmentioned a (some e) h = ground arith

-- Clearing an account treats every binding as it should, and the index of accounts finds them all: a
-- binding with that primary is gone, one with that secondary loses it, every other is untouched.
pub delete_account_lem :
    (s : StickyLru) (a : String) (j : String)
    → a ≢ ""
    → IsSticky s
    → lookup j (delete_account s a).entries ≡ forgotten a (lookup j s.entries)
unfolding delete_account
delete_account_lem s a j named v = ground (
  arith,
  eq_iff a "",
  (forget_each_lem s a (keys_of a s.by_acct) j named v).0,
  v.agrees a j named,
  forgotten_unmentioned a (lookup j s.entries),
)

pub delete_account-IsSticky :
    (s : StickyLru) (a : String) → IsSticky s → IsSticky (delete_account s a)
unfolding delete_account
delete_account-IsSticky s a v =
    if_split IsSticky (a == "") (λ _. v)
      (λ n. (forget_each_lem s a (keys_of a s.by_acct) "" (ground (arith, eq_iff a "")) v).1)

put_known :
    (s : StickyLru) (now : ℤ) (key a : String) (e : StickyEntry)
    → key ≢ ""
    → a ≢ ""
    → lookup key s.entries ≡ some e
    → put s now key a ≡ rebind s now e a true
unfolding put
put_known s now key a e k_named a_named h = ground (arith, eq_iff key "", eq_iff a "")

put_unknown :
    (s : StickyLru) (now : ℤ) (key a : String)
    → key ≢ ""
    → a ≢ ""
    → lookup key s.entries ≡ none
    → put s now key a ≡ push_new (evict (length s.entries) s) now key a
unfolding put
put_unknown s now key a k_named a_named h = ground (arith, eq_iff key "", eq_iff a "")

-- The secondary that a binding has once `a` is its primary.
pub demoted : StickyEntry → String → String
demoted e a =
    if e.account_id == a
    then e.secondary
    else if e.secondary == a
    then ""
    else if e.secondary == ""
    then e.account_id
    else e.secondary

entry-rebind :
    (s : StickyLru) (now : ℤ) (e : StickyEntry) (a : String)
    → e.account_id ≢ ""
    → lookup e.key (rebind s now e a true).entries
      ≡ some (record e { account_id = a; secondary = demoted e a; expires_at = now +ℤ s.ttl_sec })
unfolding rebind lookup demoted
entry-rebind s now e a bound =
    ground (arith, eq_iff e.key e.key, eq_iff e.account_id a, eq_iff e.account_id "")

ttl-evict : (fuel : ℕ) (s : StickyLru) → (evict fuel s).ttl_sec ≡ s.ttl_sec
unfolding evict remove_element
ttl-evict zero s = refl
ttl-evict (suc fuel) s =
    if_split (λ (t : StickyLru). t.ttl_sec ≡ s.ttl_sec) (leb s.max (length s.entries))
      (λ _.
        option_split (λ (t : StickyLru). t.ttl_sec ≡ s.ttl_sec) (back s.entries) (λ _. refl)
          λ e _. ttl-evict fuel (remove_element s e))
      (λ _. refl)

entry-push_new :
    (s : StickyLru) (now : ℤ) (key a : String)
    → lookup key (push_new s now key a).entries
      ≡ some (record { key = key; account_id = a; secondary = ""; expires_at = now +ℤ s.ttl_sec })
unfolding push_new lookup
entry-push_new s now key a = ground (arith, eq_iff key key)

ttl-push_new :
    (s : StickyLru) (now : ℤ) (key a : String) → (push_new s now key a).ttl_sec ≡ s.ttl_sec
unfolding push_new
ttl-push_new s now key a = refl

ttl-rebind :
    (s : StickyLru) (now : ℤ) (e : StickyEntry) (a : String)
    → (rebind s now e a true).ttl_sec ≡ s.ttl_sec
unfolding rebind
ttl-rebind s now e a = ground arith

-- The secondary that `put` leaves: none for a new binding.
abbrev pub secondary_after : Option StickyEntry → String → String
secondary_after none a = ""
secondary_after (some e) a = demoted e a

pub entry-put :
    (s : StickyLru) (now : ℤ) (key a : String)
    → key ≢ ""
    → a ≢ ""
    → IsSticky s
    → lookup key (put s now key a).entries
      ≡ some (record {
        key = key;
        account_id = a;
        secondary = secondary_after (lookup key s.entries) a;
        expires_at = now +ℤ s.ttl_sec;
      })
entry-put s now key a k_named a_named v = elim (Option-cases (lookup key s.entries)) [
  | inl n ↦
      rw (put_unknown s now key a k_named a_named n, n)
        (ground (
          arith,
          entry-push_new (evict (length s.entries) s) now key a,
          ttl-evict (length s.entries) s,
        ))
  | inr (e, h) ↦
      rw (put_known s now key a e k_named a_named h, h)
        (ground (arith, entry-rebind s now e a, v.entry key e h))
]

pub get_pair_fresh :
    (s : StickyLru) (now : ℤ) (key : String) (e : StickyEntry)
    → key ≢ ""
    → lookup key s.entries ≡ some e
    → now <ℤ e.expires_at
    → (get_pair s now key).1 ≡ some (e.account_id, e.secondary)
unfolding get_pair
get_pair_fresh s now key e named h alive = ground (arith, eq_iff key "")

get_pair_stale :
    (s : StickyLru) (now : ℤ) (key : String) (e : StickyEntry)
    → key ≢ ""
    → lookup key s.entries ≡ some e
    → pos 0 <ℤ e.expires_at
    → e.expires_at ≤ℤ now
    → get_pair s now key ≡ (remove_element s e, none)
unfolding get_pair
get_pair_stale s now key e named h set late = ground (arith, eq_iff key "")

-- A lookup after `put`, while the time to live has not run out, finds the account as the primary. As
-- the secondary it finds what the binding had: nothing for a new key, the old primary where there was
-- no secondary, nothing where the account was the secondary, and the same secondary otherwise.
pub get_pair-put :
    (s : StickyLru) (now later : ℤ) (key a : String)
    → key ≢ ""
    → a ≢ ""
    → IsSticky s
    → later <ℤ now +ℤ s.ttl_sec
    → (get_pair (put s now key a) later key).1 ≡ some (a, secondary_after (lookup key s.entries) a)
get_pair-put s now later key a k_named a_named v alive =
    get_pair_fresh (put s now key a) later key _ k_named (entry-put s now key a k_named a_named v)
      alive

-- Once the time to live has run out, the binding is not found, and the lookup has removed it.
get_pair-put_expired :
    (s : StickyLru) (now later : ℤ) (key a : String)
    → key ≢ ""
    → a ≢ ""
    → IsSticky s
    → pos 0 <ℤ now +ℤ s.ttl_sec
    → now +ℤ s.ttl_sec ≤ℤ later
    → let r = get_pair (put s now key a) later key in (r.1 ≡ none) × (lookup key r.0.entries ≡ none)
unfolding remove_element
get_pair-put_expired s now later key a k_named a_named v set late =
    let e = entry-put s now key a k_named a_named v in
    rw (get_pair_stale (put s now key a) later key _ k_named e set late)
      (refl, ground (arith, lookup-delete key key (put s now key a).entries, eq_iff key key))

-- A session whose secondary takes over keeps no secondary: the old primary is not retained.
pub takeover_drops_primary :
    (s : StickyLru) (now later : ℤ) (key : String) (e : StickyEntry)
    → key ≢ ""
    → e.secondary ≢ ""
    → IsSticky s
    → lookup key s.entries ≡ some e
    → later <ℤ now +ℤ s.ttl_sec
    → (get_pair (put s now key e.secondary) later key).1 ≡ some (e.secondary, "")
unfolding demoted
takeover_drops_primary s now later key e k_named named v h alive = ground (
  arith,
  get_pair-put s now later key e.secondary k_named named v alive,
  v.entry key e h,
  eq_iff e.account_id e.secondary,
  eq_iff e.secondary e.secondary,
)
