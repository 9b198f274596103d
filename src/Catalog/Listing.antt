-- ===== src/Catalog/Listing.antt =====
-- internal/catalog/catalog.go: ListEligible and ListExpiring. A query answers with the rows that its
-- WHERE takes, in the order of its ORDER BY, cut at its LIMIT. `probe` is SQLite's
-- `json_extract(..., '$.probe_ok')`, none where it is NULL.
use grokbuild_pool.Base.{
  ℤ, pos, pos_part, ltb_ℤ, leb_ℤ, eqb_ℤ, String, Bool, true, not, ◌&&◌, ◌||◌, List, [], ◌∷◌, Option,
  none, some, map, if◌then◌else◌, ◌==◌, ◌/=◌, string_eq, int_eq, str_lt, lookup, keep, take, Result,
  ok, err,
}
use grokbuild_pool.Hot.Meta.{HotMeta, lifecycle_active}
use grokbuild_pool.Lease.Catalog.{Account, Catalog, CatalogError, closed, invalid_input}
use grokbuild_pool.Catalog.Rows.{Rows}

-- `ORDER BY priority DESC, id ASC` and `ORDER BY expires_at ASC, id ASC`.
unfoldable pub is_before : Account → Account → Bool
is_before a b = ltb_ℤ b.priority a.priority || (eqb_ℤ a.priority b.priority && str_lt a.id b.id)

unfoldable pub expires_before : Account → Account → Bool
expires_before a b =
    ltb_ℤ a.expires_at b.expires_at || (eqb_ℤ a.expires_at b.expires_at && str_lt a.id b.id)

unfoldable pub place : (Account → Account → Bool) → Account → List Account → List Account
place lt a [] = a ∷ []
place lt a (b ∷ sorted) =
    let rest = place lt a sorted in if lt a b then a ∷ b ∷ sorted else b ∷ rest

unfoldable pub order_by : (Account → Account → Bool) → List Account → List Account
unfolding place
order_by lt [] = []
order_by lt (a ∷ rows) = place lt a (order_by lt rows)

abbrev pub row_of : String × Account → Account
row_of entry = entry.1

abbrev pub probe_allows : (String → Option ℤ) → String → Bool
probe_allows probe json =
    if json == "" then true else elim (probe json) [ none ↦ true | some v ↦ v == pos 1 ]

unfoldable pub may_serve : (String → Option ℤ) → ℤ → Account → Bool
may_serve probe now a =
    a.enabled
    && (not a.manual_disabled
        && ((a.lifecycle == lifecycle_active)
            && (leb_ℤ a.cooldown_until now
                && ((a.access_token /= "") && probe_allows probe a.billing_json))))

unfoldable pub hot_meta : Account → HotMeta
hot_meta a = record {
  id = a.id;
  priority = a.priority;
  cooldown_until = a.cooldown_until;
  expires_at = a.expires_at;
  inflight = pos 0;
  failure_score = a.failure_count;
  enabled = a.enabled;
  lifecycle = a.lifecycle;
  revision = a.revision;
  identity_key = a.identity_key;
  proxy_mode = a.proxy_mode;
  proxy_url = a.proxy_url;
}

-- The rows of a page; the row of the cursor is joined, and without it there are none.
unfoldable pub page_rows : (String → Option ℤ) → ℤ → Rows → ℤ → String → List Account
unfolding order_by is_before may_serve
page_rows probe now rows limit after =
    let serving = keep (may_serve probe now) (order_by is_before (map row_of rows)) in
    if after == "" then take (pos_part limit) serving else elim (lookup after rows) [
      | none ↦ []
      | some cur ↦ take (pos_part limit) (keep (is_before cur) serving)
    ]

unfoldable pub list_eligible :
    (String → Option ℤ) → ℤ → Catalog → ℤ → String → Result CatalogError (List HotMeta)
unfolding page_rows hot_meta
list_eligible probe now c limit after =
    if c.is_closed
    then err closed
    else if leb_ℤ limit (pos 0)
    then err invalid_input
    else ok (map hot_meta (page_rows probe now c.accounts limit after))

unfoldable pub expires_soon : ℤ → Account → Bool
expires_soon before a =
    a.enabled && ((a.lifecycle == lifecycle_active) && ltb_ℤ a.expires_at before)

unfoldable pub list_expiring : Catalog → ℤ → ℤ → Result CatalogError (List Account)
unfolding order_by expires_before expires_soon
list_expiring c limit before =
    if c.is_closed
    then err closed
    else if leb_ℤ limit (pos 0)
    then err invalid_input
    else ok (
        take (pos_part limit)
          (keep (expires_soon before) (order_by expires_before (map row_of c.accounts))))
