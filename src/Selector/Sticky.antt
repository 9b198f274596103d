-- ===== src/Selector/Sticky.antt =====
-- internal/selector/sticky.go: an LRU of sticky bindings with a time to live. The list `ll`, most
-- recently used first, and the map `items` into it hold the same elements; they are one association
-- list here, in the order of `ll`.
use grokbuild_pool.Base.{
  ℕ, zero, suc, ℤ, pos, pos_part, ◌+ℤ◌, ltb_ℤ, leb_ℤ, leb, String, Bool, true, ◌||◌, List, [], ◌∷◌,
  Option, none, some, length, string_eq, ◌==◌, ◌/=◌, lookup, insert, delete, if◌then◌else◌, ◌&&◌,
}
use grokbuild_pool.Hot.Meta.{IdSet}
use grokbuild_pool.Selector.Acct.{AcctIndex, keys_of, index_account, unindex_account}

pub record StickyEntry : Type 0 where
  pub key : String
  pub account_id : String
  pub secondary : String
  pub expires_at : ℤ

abbrev pub Entries : Type 0
Entries = List (String × StickyEntry)

pub record StickyLru : Type 0 where
  pub max : ℕ
  pub ttl_sec : ℤ
  pub entries : Entries
  pub by_acct : AcctIndex

abbrev pub default_sticky_max : ℕ
default_sticky_max = 100_000

abbrev pub default_sticky_ttl_sec : ℕ
default_sticky_ttl_sec = 1800

unfoldable pub new_sticky_lru : ℤ → ℤ → StickyLru
new_sticky_lru max ttl_sec = record {
  max = if leb_ℤ max (pos 0) then default_sticky_max else pos_part max;
  ttl_sec = if leb_ℤ ttl_sec (pos 0) then pos default_sticky_ttl_sec else ttl_sec;
  entries = [];
  by_acct = [];
}

-- `removeElement`: out of the list and the map, and out of the index under both accounts.
unfoldable pub remove_element : StickyLru → StickyEntry → StickyLru
remove_element s e =
    let ix = unindex_account s.by_acct e.account_id e.key in
    record s {
      entries = delete e.key s.entries;
      by_acct = if e.secondary /= "" then unindex_account ix e.secondary e.key else ix;
    }

-- An entry given anew at the front: `MoveToFront` after its fields were set, or `PushFront`.
unfoldable pub to_front : StickyLru → StickyEntry → StickyLru
to_front s e = record s { entries = (e.key, e) ∷ delete e.key s.entries }

unfoldable pub get_pair : StickyLru → ℤ → String → StickyLru × Option (String × String)
unfolding remove_element to_front
get_pair s now key = if key == "" then (s, none) else elim (lookup key s.entries) [
  | none ↦ (s, none)
  | some e ↦
      if ltb_ℤ (pos 0) e.expires_at && leb_ℤ e.expires_at now then (remove_element s e, none) else (
        to_front s (record e { expires_at = now +ℤ s.ttl_sec }),
        some (e.account_id, e.secondary),
      )
]

-- The oldest entry, `ll.Back()`.
unfoldable pub back : Entries → Option StickyEntry
back [] = none
back ((k, e) ∷ []) = some e
back ((k, e) ∷ (x ∷ es)) = back (x ∷ es)

-- The loop that makes room; each round removes an entry, so the length is fuel enough.
unfoldable pub evict : ℕ → StickyLru → StickyLru
unfolding remove_element back
evict zero s = s
evict (suc fuel) s =
    let rest = elim (back s.entries) as (λ o. StickyLru) [
      | none ↦ s
      | some e ↦ evict fuel (remove_element s e)
    ] in
    if leb s.max (length s.entries) then rest else s

-- What becomes of an entry with another primary: the secondary it then has, and the index.
unfoldable pub shift_secondary : AcctIndex → StickyEntry → String → Bool → String × AcctIndex
shift_secondary ix e account_id shift =
    if shift && (e.account_id /= "")
    then if e.secondary == account_id
      then ("", ix)
      else if e.secondary == ""
      then (e.account_id, index_account ix e.account_id e.key)
      else (e.secondary, ix)
    else (e.secondary, ix)

unfoldable pub rebind : StickyLru → ℤ → StickyEntry → String → Bool → StickyLru
unfolding shift_secondary to_front
rebind s now e account_id shift =
    let fresh = record e { expires_at = now +ℤ s.ttl_sec } in
    let (secondary', ix) =
      shift_secondary (unindex_account s.by_acct e.account_id e.key) e account_id shift in
    if e.account_id == account_id
    then to_front s fresh
    else to_front (record s { by_acct = index_account ix account_id e.key })
        (record fresh { account_id = account_id; secondary = secondary' })

unfoldable pub push_new : StickyLru → ℤ → String → String → StickyLru
unfolding to_front
push_new s now key account_id =
    let e : StickyEntry = record {
      key = key;
      account_id = account_id;
      secondary = "";
      expires_at = now +ℤ s.ttl_sec;
    } in
    let t = to_front s e in record t { by_acct = index_account t.by_acct account_id key }

unfoldable pub put_primary : StickyLru → ℤ → String → String → Bool → StickyLru
unfolding evict rebind push_new
put_primary s now key account_id shift =
    if (key == "") || (account_id == "") then s else elim (lookup key s.entries) [
      | some e ↦ rebind s now e account_id shift
      | none ↦ push_new (evict (length s.entries) s) now key account_id
    ]

unfoldable pub put : StickyLru → ℤ → String → String → StickyLru
unfolding put_primary
put s now key account_id = put_primary s now key account_id true

-- The secondary of an entry that is there; it is never the primary.
unfoldable pub bind_secondary : StickyLru → ℤ → StickyEntry → String → StickyLru
unfolding to_front
bind_secondary s now e account_id =
    let fresh = record e { expires_at = now +ℤ s.ttl_sec } in
    if e.account_id == account_id
    then to_front
        (record s {
          by_acct =
              if e.secondary /= "" then unindex_account s.by_acct e.secondary e.key else s.by_acct;
        })
        (record fresh { secondary = "" })
    else let ix =
        if (e.secondary /= "") && (e.secondary /= account_id)
        then unindex_account s.by_acct e.secondary e.key
        else s.by_acct in
      to_front (record s { by_acct = index_account ix account_id e.key })
        (record fresh { secondary = account_id })

unfoldable pub put_secondary : StickyLru → ℤ → String → String → StickyLru
unfolding bind_secondary
put_secondary s now key account_id =
    if (key == "") || (account_id == "")
    then s
    else elim (lookup key s.entries) [ none ↦ s | some e ↦ bind_secondary s now e account_id ]

unfoldable pub delete_key : StickyLru → String → StickyLru
unfolding remove_element
delete_key s key =
    if key == "" then s else elim (lookup key s.entries) [ none ↦ s | some e ↦ remove_element s e ]

-- One key of `deleteAccount`: a primary loses the whole entry, a secondary only its place.
unfoldable pub forget : StickyLru → String → String → StickyLru
unfolding remove_element
forget s account_id k = elim (lookup k s.entries) [
  | none ↦ s
  | some e ↦
      if e.account_id == account_id
      then remove_element s e
      else if e.secondary == account_id
      then record s {
        entries = insert k (record e { secondary = "" }) s.entries;
        by_acct = unindex_account s.by_acct account_id k;
      }
      else s
]

unfoldable pub forget_each : StickyLru → String → IdSet → StickyLru
unfolding forget
forget_each s account_id [] = s
forget_each s account_id ((k, u) ∷ keys) = forget_each (forget s account_id k) account_id keys

unfoldable pub delete_account : StickyLru → String → StickyLru
unfolding forget_each
delete_account s account_id =
    if account_id == "" then s else forget_each s account_id (keys_of account_id s.by_acct)
