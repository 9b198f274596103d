-- ===== src/Selector/StickyInv.antt =====
-- internal/selector/sticky.go: the account index mirrors the bindings.
use grokbuild_pool.Base.{
  ℕ, zero, suc, ℤ, pos, ◌+ℤ◌, ltb_ℤ, leb_ℤ, leb, String, Bool, true, false, ◌||◌, [], ◌∷◌, ◌≡◌,
  refl, ◌≢◌, Option, none, some, arith, length, string_eq, ◌==◌, eq_iff, lookup, IsUniq,
  lookup-delete, delete-IsUniq, if◌then◌else◌, ◌&&◌, if_split, option_split, Bool-cases, inl, inr,
  ◌⊎◌,
}
use grokbuild_pool.Selector.Acct.{
  AcctIndex, index_account, unindex_account, indexed, indexed-index_account,
  indexed-unindex_account,
}
use grokbuild_pool.Selector.Sticky.{
  StickyEntry, Entries, StickyLru, remove_element, to_front, get_pair, back, evict, shift_secondary,
  rebind,
}

-- An account is named by a binding as its primary or its secondary.
abbrev pub mentions : String → Option StickyEntry → Bool
mentions a none = false
mentions a (some e) = (e.account_id == a) || (e.secondary == a)

-- An entry under its key, with a primary that is not its secondary.
pub record IsEntry (k : String) (e : StickyEntry) : Type 0 where
  pub keyed : e.key ≡ k
  pub bound : e.account_id ≢ ""
  pub apart : e.account_id ≢ e.secondary

pub record IsSticky (s : StickyLru) : Type 0 where
  pub uniq : IsUniq s.entries
  pub entry : (k : String) (e : StickyEntry) → lookup k s.entries ≡ some e → IsEntry k e
  pub agrees : (a k : String) → a ≢ "" → indexed s.by_acct a k ≡ mentions a (lookup k s.entries)

pub lookup-to_front :
    (s : StickyLru) (e : StickyEntry) (k : String)
    → lookup k (to_front s e).entries ≡ (if e.key == k then some e else lookup k s.entries)
unfolding to_front lookup
lookup-to_front s e k = ground (arith, lookup-delete e.key k s.entries)

by_acct-to_front : (s : StickyLru) (e : StickyEntry) → (to_front s e).by_acct ≡ s.by_acct
unfolding to_front
by_acct-to_front s e = refl

to_front-IsUniq :
    (s : StickyLru) (e : StickyEntry) → IsUniq s.entries → IsUniq (to_front s e).entries
unfolding to_front
to_front-IsUniq s e u = (
  ground (arith, lookup-delete e.key e.key s.entries, eq_iff e.key e.key),
  delete-IsUniq e.key s.entries u,
)

-- A binding moved to the front under its own index.
pub to_front-IsSticky :
    (s t : StickyLru) (e : StickyEntry)
    → IsSticky s
    → t.entries ≡ s.entries
    → IsEntry e.key e
    → ((a k : String)
        → a ≢ ""
        → indexed t.by_acct a k
          ≡ (if e.key == k then mentions a (some e) else indexed s.by_acct a k))
    → IsSticky (to_front t e)
to_front-IsSticky s t e v same is_entry index = record {
  uniq = to_front-IsUniq t e (rw same v.uniq);
  entry =
      λ k x h. ground (arith, same, lookup-to_front t e k, eq_iff e.key k, v.entry k x, is_entry);
  agrees = λ a k h.
      ground
        (arith, same, lookup-to_front t e k, index a k h, v.agrees a k h, by_acct-to_front t e);
}

abbrev pub Leaves {ℓ} : {A : Type ℓ} → StickyLru × A → Type 0
Leaves r = IsSticky r.0

-- A binding taken out of the list and of the index.
pub remove_element-IsSticky :
    (s : StickyLru) (e : StickyEntry)
    → IsSticky s
    → lookup e.key s.entries ≡ some e
    → IsSticky (remove_element s e)
unfolding remove_element
remove_element-IsSticky s e v h = record {
  uniq = delete-IsUniq e.key s.entries v.uniq;
  entry = λ k x g. ground (arith, lookup-delete e.key k s.entries, v.entry k x);
  agrees = λ a k named.
      let ix = unindex_account s.by_acct e.account_id e.key in
      ground (
        arith,
        eq_iff e.key k,
        eq_iff e.account_id a,
        eq_iff e.secondary a,
        eq_iff e.secondary "",
        lookup-delete e.key k s.entries,
        indexed-unindex_account s.by_acct e.account_id e.key a k,
        indexed-unindex_account ix e.secondary e.key a k,
        v.agrees a k named,
      );
}

pub get_pair-IsSticky :
    (s : StickyLru) (now : ℤ) (key : String) → IsSticky s → IsSticky (get_pair s now key).0
unfolding get_pair
get_pair-IsSticky s now key v =
    if_split Leaves (key == "") (λ _. v)
      λ _.
        option_split Leaves (lookup key s.entries) (λ _. v)
          λ e h.
            let q = v.entry key e h in
            if_split Leaves (ltb_ℤ (pos 0) e.expires_at && leb_ℤ e.expires_at now)
              (λ _. remove_element-IsSticky s e v (ground (arith, q)))
              (λ _.
                to_front-IsSticky s s (record e { expires_at = now +ℤ s.ttl_sec }) v refl
                  (record { keyed = refl; bound = q.bound; apart = q.apart })
                  (λ a k named. ground (arith, q, eq_iff e.key k, v.agrees a k named)))

-- The back of the list is an entry of it.
pub back-lookup :
    (es : Entries) (e : StickyEntry)
    → IsUniq es
    → ((k : String) (x : StickyEntry) → lookup k es ≡ some x → x.key ≡ k)
    → back es ≡ some e
    → lookup e.key es ≡ some e
unfolding back lookup
back-lookup [] e u n h = cc
back-lookup ((k, x) ∷ []) e u n h = ground (arith, eq_iff k k, n k x, eq_iff k e.key)
back-lookup ((k, x) ∷ ((j, y) ∷ es)) e u n h =
    let rest = back-lookup ((j, y) ∷ es) e u.1 (λ i z g. ground (arith, u, eq_iff k i, n i z)) h in
    ground (arith, u, rest, eq_iff k e.key)

pub evict-IsSticky : (fuel : ℕ) (s : StickyLru) → IsSticky s → IsSticky (evict fuel s)
unfolding evict
evict-IsSticky zero s v = v
evict-IsSticky (suc fuel) s v =
    if_split IsSticky (leb s.max (length s.entries))
      (λ _.
        option_split IsSticky (back s.entries) (λ _. v)
          λ e h. evict-IsSticky fuel (remove_element s e) (
            remove_element-IsSticky s e v
              (back-lookup s.entries e v.uniq (λ k x g. (v.entry k x g).keyed) h)))
      (λ _. v)

-- What `put` makes of the secondary, and what the index then holds under the key.
abbrev shifted : StickyLru → StickyEntry → String → String × AcctIndex
shifted s e account_id =
    shift_secondary (unindex_account s.by_acct e.account_id e.key) e account_id true

-- The three outcomes: the secondary takes over, the old primary takes its place, or it stays.
shifted_cases :
    (s : StickyLru) (e : StickyEntry) (account_id : String)
    → e.account_id ≢ ""
    → let ix = unindex_account s.by_acct e.account_id e.key in
      ((e.secondary ≡ account_id) × (shifted s e account_id ≡ ("", ix)))
      ⊎ ((e.secondary ≡ "")
          × (shifted s e account_id ≡ (e.account_id, index_account ix e.account_id e.key)))
      ⊎ ((e.secondary ≢ account_id)
          × (e.secondary ≢ "")
          × (shifted s e account_id ≡ (e.secondary, ix)))
unfolding shift_secondary
shifted_cases s e account_id bound =
    let i = eq_iff e.account_id "" in
    elim (Bool-cases (e.secondary == account_id)) [
      | inl p ↦ inl (ground (arith, eq_iff e.secondary account_id), ground (arith, i))
      | inr p ↦ elim (Bool-cases (e.secondary == "")) [
        | inl r ↦ inr (inl (ground (arith, eq_iff e.secondary ""), ground (arith, i)))
        | inr r ↦ inr (
            inr (
              ground (arith, eq_iff e.secondary account_id),
              ground (arith, eq_iff e.secondary ""),
              ground (arith, i),
            ))
      ]
    ]

shifted-apart :
    (s : StickyLru) (e : StickyEntry) (account_id : String)
    → e.account_id ≢ ""
    → e.account_id ≢ account_id
    → account_id ≢ ""
    → account_id ≢ (shifted s e account_id).0
shifted-apart s e account_id bound other named = ground (arith, shifted_cases s e account_id bound)

indexed-shifted :
    (s : StickyLru) (e : StickyEntry) (account_id a k : String)
    → IsSticky s
    → lookup e.key s.entries ≡ some e
    → IsEntry e.key e
    → e.account_id ≢ account_id
    → account_id ≢ ""
    → a ≢ ""
    → indexed (index_account (shifted s e account_id).1 account_id e.key) a k ≡ (
        if e.key == k
        then (account_id == a) || ((shifted s e account_id).0 == a)
        else indexed s.by_acct a k)
indexed-shifted s e account_id a k v h q other named a_named =
    let ix = unindex_account s.by_acct e.account_id e.key in
    let rest = indexed-unindex_account s.by_acct e.account_id e.key a k in
    let mentioned : (e.key == k) ≡ true → indexed s.by_acct a k ≡ mentions a (some e) =
      λ same. ground (arith, eq_iff e.key k, v.agrees a k a_named) in
    elim (shifted_cases s e account_id q.bound) [
      | inl (p, r) ↦ rw r (
          ground (
            arith,
            indexed-index_account ix account_id e.key a k,
            rest,
            mentioned,
            p,
            eq_iff e.account_id a,
            eq_iff e.secondary a,
            eq_iff account_id a,
            eq_iff account_id "",
            eq_iff "" a,
          ))
      | inr (inl (p, r)) ↦ rw r (
          ground (
            arith,
            indexed-index_account (index_account ix e.account_id e.key) account_id e.key a k,
            indexed-index_account ix e.account_id e.key a k,
            rest,
            mentioned,
            p,
            eq_iff e.account_id a,
            eq_iff e.account_id "",
            eq_iff e.secondary a,
            eq_iff account_id a,
            eq_iff account_id "",
            eq_iff "" a,
          ))
      | inr (inr (p, z, r)) ↦ rw r (
          ground (
            arith,
            indexed-index_account ix account_id e.key a k,
            rest,
            mentioned,
            eq_iff e.account_id a,
            eq_iff e.secondary a,
            eq_iff account_id a,
            eq_iff account_id "",
          ))
    ]

pub rebind-IsSticky :
    (s : StickyLru) (now : ℤ) (e : StickyEntry) (account_id : String)
    → IsSticky s
    → lookup e.key s.entries ≡ some e
    → account_id ≢ ""
    → IsSticky (rebind s now e account_id true)
unfolding rebind
rebind-IsSticky s now e account_id v h named =
    let q = v.entry e.key e h in
    let fresh = record e { expires_at = now +ℤ s.ttl_sec } in
    if_split IsSticky (e.account_id == account_id)
      (λ _.
        to_front-IsSticky s s fresh v refl
          (record { keyed = refl; bound = q.bound; apart = q.apart })
          (λ a k a_named. ground (arith, eq_iff e.key k, v.agrees a k a_named)))
      (λ other.
        let ne : e.account_id ≢ account_id = ground (arith, eq_iff e.account_id account_id) in
        to_front-IsSticky s _
          (record fresh { account_id = account_id; secondary = (shifted s e account_id).0 }) v refl
          (record {
            keyed = refl;
            bound = named;
            apart = shifted-apart s e account_id q.bound ne named;
          })
          (λ a k a_named. indexed-shifted s e account_id a k v h q ne named a_named))
