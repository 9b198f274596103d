-- ===== src/Refresh/Adapter.antt =====
-- internal/refresh/executor_adapter.go, with its catalog and its hot index set, the catalog being the
-- service's.
use grokbuild_pool.Base.{
  ℤ, pos, ltb_ℤ, leb_ℤ, String, ◌||◌, none, some, if◌then◌else◌, ◌==◌, string_eq, int_eq, Result,
  ok, err,
}
use grokbuild_pool.Hot.Index.{Index, get, promote}
use grokbuild_pool.Lease.Catalog.{Account, Catalog, get_account}
use grokbuild_pool.Catalog.Rows.{TokenSet}
use grokbuild_pool.Refresh.Policy.{RefreshError, invalid_input}
use grokbuild_pool.Refresh.Service.{Service, World, Answer, ensure_fresh, force_refresh}

unfoldable pub patch_hot_expires : Index → String → ℤ → Index
patch_hot_expires idx id expires_at =
    if (id == "") || leb_ℤ expires_at (pos 0) then idx else elim (get idx id) [
      | none ↦ idx
      | some meta ↦
          if meta.expires_at == expires_at
          then idx
          else (promote idx (record meta { expires_at = expires_at })).0
    ]

-- The row's expiry and token where it has them.
abbrev pub prefer_row : Account → TokenSet → TokenSet
prefer_row acct set = record set {
  expires_at = if ltb_ℤ (pos 0) acct.expires_at then acct.expires_at else set.expires_at;
  access_token = if acct.access_token == "" then set.access_token else acct.access_token;
}

abbrev pub revision_of : Account → ℤ
revision_of acct = if ltb_ℤ (pos 0) acct.revision then acct.revision else pos 0

abbrev pub read_row : Catalog → String → TokenSet → TokenSet × ℤ
read_row c id set = elim (get_account c id) [
  | ok acct ↦ (prefer_row acct set, revision_of acct)
  | err e ↦ (set, pos 0)
]

unfoldable pub settle : Index → String → TokenSet × ℤ → Index × Result RefreshError (String × ℤ)
unfolding patch_hot_expires
settle idx id (best, rev) =
    let idx' = patch_hot_expires idx id best.expires_at in
    if best.access_token == ""
    then (idx', err invalid_input)
    else (idx', ok (best.access_token, rev))

unfoldable pub token_and_rev :
    Catalog → Index → String → TokenSet → Index × Result RefreshError (String × ℤ)
unfolding settle
token_and_rev c idx id set = settle idx id (read_row c id set)

abbrev pub Adapted : Type 0
Adapted = Service × Index × Result RefreshError (String × ℤ)

abbrev pub adapt : Index → String → Answer → Adapted
adapt idx id (s, err e) = (s, idx, err e)
adapt idx id (s, ok set) = let (idx', r) = token_and_rev s.cat idx id set in (s, idx', r)

unfoldable pub adapter_ensure_fresh : World → Service → Index → String → Adapted
unfolding token_and_rev
adapter_ensure_fresh w s idx id = adapt idx id (ensure_fresh w s id)

unfoldable pub adapter_force_refresh : World → Service → Index → String → Adapted
unfolding token_and_rev
adapter_force_refresh w s idx id = adapt idx id (force_refresh w s id)
