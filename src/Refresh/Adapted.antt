-- ===== src/Refresh/Adapted.antt =====
-- internal/refresh/executor_adapter.go: the answer, the catalog and the hot index agree.
use grokbuild_pool.Base.{
  ℤ, pos, ltb_ℤ, leb_ℤ, String, true, false, none, some, [], ◌≡◌, refl, sym, ap, ◌∙◌, subst, arith,
  if_split, if◌then◌else◌, ◌==◌, string_eq, int_eq, eqb_ℤ_iff, eq_iff, lookup, lookup-insert,
  Result, ok, err, Bool-cases, inl, inr,
}
use grokbuild_pool.Hot.Meta.{HotMeta}
use grokbuild_pool.Hot.Index.{Index, get, promote}
use grokbuild_pool.Lease.Catalog.{Account, get_account}
use grokbuild_pool.Catalog.Rows.{TokenSet}
use grokbuild_pool.Refresh.Policy.{RefreshError}
use grokbuild_pool.Refresh.Service.{Service, World, tokens_of, ensure_fresh}
use grokbuild_pool.Refresh.Keyed.{IsKeyed}
use grokbuild_pool.Refresh.Holds.{HoldsRow, get_account-found}
use grokbuild_pool.Refresh.Held.{Held-HoldsRow}
use grokbuild_pool.Refresh.Fresh.{ensure_fresh-HoldsRow}
use grokbuild_pool.Refresh.Adapter.{
  Adapted, read_row, patch_hot_expires, settle, token_and_rev, revision_of, adapt,
  adapter_ensure_fresh,
}

-- A positive expiry is set, and nothing else of the meta changes.
abbrev pub expiring_at : ℤ → HotMeta → HotMeta
expiring_at t m = record m { expires_at = if ltb_ℤ (pos 0) t then t else m.expires_at }

-- A promotion of a meta that is there replaces it, with its live count.
promoted :
    (idx : Index) (m new : HotMeta)
    → new.id ≡ m.id
    → new.inflight ≡ m.inflight
    → (m.id == "") ≡ false
    → idx.is_closed ≡ false
    → lookup m.id idx.hot ≡ some m
    → lookup m.id (promote idx new).0.hot ≡ some new
unfolding promote
promoted idx m new own count named opened there =
    let there' : lookup new.id idx.hot ≡ some m = ap (λ k. lookup k idx.hot) own ∙ there in
    let named' : (new.id == "") ≡ false = ap (λ (k : String). k == "") own ∙ named in
    let kept : record new { inflight = m.inflight } ≡ new =
      ap (λ n. record new { inflight = n }) (sym count) in
    rw (named', opened, there')
      (ground (
        arith,
        lookup-insert new.id m.id (record new { inflight = m.inflight }) idx.hot,
        eq_iff new.id m.id,
        own,
      )
        ∙ ap some kept)

own_patch :
    (idx : Index) (t : ℤ) (m : HotMeta)
    → (m.id == "") ≡ false
    → idx.is_closed ≡ false
    → lookup m.id idx.hot ≡ some m
    → lookup m.id (patch_hot_expires idx m.id t).hot ≡ some (expiring_at t m)
unfolding patch_hot_expires get promote
own_patch idx t m named opened there = elim (Bool-cases (ltb_ℤ (pos 0) t)) [
  | inr low ↦
      let low' : leb_ℤ t (pos 0) ≡ true = ground (arith, low) in rw (named, low', low, there) refl
  | inl high ↦
      let high' : leb_ℤ t (pos 0) ≡ false = ground (arith, high) in
      elim (Bool-cases (m.expires_at == t)) [
        | inl e ↦
            let same : m.expires_at ≡ t = ground (arith, eqb_ℤ_iff m.expires_at t, e) in
            rw (named, high', high, there, e)
              (there ∙ ap (λ z. some (record m { expires_at = z })) same)
        | inr e ↦
            rw (named, high', high, there, e)
              (promoted idx m (record m { expires_at = t }) refl refl named opened there)
      ]
]

patch_hot_expires_lem :
    (idx : Index) (id : String) (t : ℤ) (m : HotMeta)
    → (id == "") ≡ false
    → idx.is_closed ≡ false
    → m.id ≡ id
    → lookup id idx.hot ≡ some m
    → lookup id (patch_hot_expires idx id t).hot ≡ some (expiring_at t m)
patch_hot_expires_lem idx id t m named opened own there =
    subst
      (λ k.
        (k == "") ≡ false
        → lookup k idx.hot ≡ some m
        → lookup k (patch_hot_expires idx k t).hot ≡ some (expiring_at t m))
      own (λ n. own_patch idx t m n opened) named there

-- The token and the revision are the row's, and the hot meta has its expiry.
abbrev pub Agrees : String → HotMeta → String → ℤ → Adapted → Type 0
Agrees id m token rev (s, idx, r) =
    (a : Account) × (get_account s.cat id ≡ ok a)
    × (token ≡ a.access_token)
    × (rev ≡ revision_of a)
    × (lookup id idx.hot ≡ some (expiring_at a.expires_at m))

module _ (idx : Index) (id : String) (m : HotMeta) (opened : idx.is_closed ≡ false)
    (own : m.id ≡ id) (there : lookup id idx.hot ≡ some m) where
  read_row_lem :
      (s : Service) (a : Account)
      → get_account s.cat id ≡ ok a
      → read_row s.cat id (tokens_of a) ≡ (tokens_of a, revision_of a)
  read_row_lem s a row =
      let t = tokens_of a in
      let expiry : (if ltb_ℤ (pos 0) a.expires_at then a.expires_at else a.expires_at)
          ≡ a.expires_at =
        if_split (λ z. z ≡ a.expires_at) (ltb_ℤ (pos 0) a.expires_at) (λ _. refl) (λ _. refl) in
      let access : (if a.access_token == "" then a.access_token else a.access_token)
          ≡ a.access_token =
        if_split (λ z. z ≡ a.access_token) (a.access_token == "") (λ _. refl) (λ _. refl) in
      rw (read_row, row)
        (λ i. (record t { expires_at = expiry i; access_token = access i }, revision_of a))

  abbrev Answered : Adapted → Type 0
  Answered x = (token : String) (rev : ℤ) → x.2 ≡ ok (token, rev) → Agrees id m token rev x

  token_and_rev_lem :
      (s : Service) (a : Account)
      → get_account s.cat id ≡ ok a
      → (a.access_token == "") ≡ false
      → token_and_rev s.cat idx id (tokens_of a)
        ≡ (patch_hot_expires idx id a.expires_at, ok (a.access_token, revision_of a))
  unfolding token_and_rev settle
  token_and_rev_lem s a row access = ap (settle idx id) (read_row_lem s a row) ∙ rw access refl

  row-Answered :
      (s : Service) (a : Account)
      → get_account s.cat id ≡ ok a
      → (a.access_token == "") ≡ false
      → Answered (adapt idx id (s, ok (tokens_of a)))
  row-Answered s a row access =
      subst (λ (x : Index × Result RefreshError (String × ℤ)). Answered (s, x.0, x.1))
        (sym (token_and_rev_lem s a row access))
        (λ token rev h. (
          a,
          row,
          ground (arith, h),
          ground (arith, h),
          patch_hot_expires_lem idx id a.expires_at m (get_account-found s.cat id a row).0 opened
              own there,
        ))

  adapt-Answered :
      (s : Service) (r : Result RefreshError TokenSet)
      → ((t : TokenSet) → r ≡ ok t → HoldsRow s.cat id t)
      → Answered (adapt idx id (s, r))
  adapt-Answered s (err e) held = λ token rev h. absurd (ground (arith, h))
  adapt-Answered s (ok t) held =
      let (a, row, same, access) = held t refl in
      subst (λ u. Answered (adapt idx id (s, ok u))) same
        (row-Answered s a row (
          ground
            (arith, eq_iff a.access_token "", ap (λ (u : TokenSet). u.access_token) same, access)))

-- When the executor's EnsureFresh succeeds, the catalog, the answer and the hot index agree: the token
-- is the one in the account's row, the revision is the row's, and the meta that the hot index had for
-- the account differs at most in its expiry, which is the row's where that is positive. The call
-- leads its flight, others write nothing between a store and the note of it, the catalog and the index
-- are open, and rows and metas stand under their own ids.
pub adapter_ensure_fresh-Agrees :
    (w : World) (s : Service) (idx : Index) (id : String) (m : HotMeta) (token : String) (rev : ℤ)
    → w.joined ≡ none
    → w.noting ≡ []
    → s.cat.is_closed ≡ false
    → IsKeyed s.cat.accounts
    → idx.is_closed ≡ false
    → m.id ≡ id
    → lookup id idx.hot ≡ some m
    → (adapter_ensure_fresh w s idx id).2 ≡ ok (token, rev)
    → Agrees id m token rev (adapter_ensure_fresh w s idx id)
unfolding adapter_ensure_fresh
adapter_ensure_fresh-Agrees w s idx id m token rev alone quiet open_cat keyed opened own there =
    adapt-Answered idx id m opened own there (ensure_fresh w s id).0 (ensure_fresh w s id).1
      (λ t h.
        Held-HoldsRow w s.cat id t (ensure_fresh w s id).0.cat quiet
          (ensure_fresh-HoldsRow w s id t alone open_cat keyed h))
      token rev
