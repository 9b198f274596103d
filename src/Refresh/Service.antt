-- ===== src/Refresh/Service.antt =====
-- internal/refresh/service.go: EnsureFresh, ForceRefresh and the refresh they share, with the scan for
-- rows that expire. What others do to the catalog while a call runs is a list of writes at each point
-- where it waits or may be overtaken.
use grokbuild_pool.Base.{
  ℕ, ℤ, pos, ◌+ℤ◌, leb_ℤ, String, Bool, true, ◌&&◌, ◌||◌, List, [], Option, none, some, map, take,
  if◌then◌else◌, ◌==◌, ◌/=◌, string_eq, int_eq, Result, ok, err,
}
use grokbuild_pool.Lease.Catalog.{Account, Catalog, CatalogError, cas_conflict, get_account}
use grokbuild_pool.Catalog.Rows.{TokenSet, update_tokens}
use grokbuild_pool.Refresh.Others.{Other, others}
use grokbuild_pool.Catalog.Listing.{list_expiring}
use grokbuild_pool.Refresh.Policy.{
  RefreshError, cancelled, invalid_input, oauth_failed, catalog_failed, not_persisted,
  DefaultPolicy, on_refresh_failure, on_refresh_success,
}

pub record Service : Type 0 where
  pub cat : Catalog
  pub policy : DefaultPolicy
  pub skew_sec : ℤ
  pub scan_limit : ℤ
  pub refresh_ok : ℤ
  pub refresh_fail : ℤ
  pub ensure_hit : ℤ

-- What a call meets: the context at its start, before the provider is asked and when the policy notes
-- the outcome, the limiter, the provider's answer to a refresh token, the clock at each reading, and
-- the answer of the same key's call in flight, which singleflight shares. Others write while the call
-- queues, while it waits for the limiter and the provider, between a conflict and the second reading,
-- between that and the second store, and before the outcome is noted. `text` is the text of a catalog
-- error.
pub record World : Type 0 where
  pub starts_dead : Bool
  pub is_granted : Bool
  pub is_dead : Bool
  pub is_over : Bool
  pub oauth : String → Result String TokenSet
  pub text : CatalogError → String
  pub read_at : ℤ
  pub recheck_at : ℤ
  pub stored_at : ℤ
  pub reread_at : ℤ
  pub noted_at : ℤ
  pub queued : List Other
  pub waiting : List Other
  pub overtaken : List Other
  pub retrying : List Other
  pub noting : List Other
  pub joined : Option (Result RefreshError TokenSet)

abbrev pub Answer : Type 0
Answer = Service × Result RefreshError TokenSet

abbrev pub tokens_of : Account → TokenSet
tokens_of a = record {
  access_token = a.access_token;
  refresh_token = a.refresh_token;
  expires_at = a.expires_at;
}

abbrev pub is_fresh : ℤ → ℤ → Account → Bool
is_fresh now skew a = leb_ℤ (now +ℤ skew) a.expires_at && (a.access_token /= "")

abbrev pub after : Service → List Other → Service
after s os = record s { cat = others s.cat os }

abbrev pub count_fail : Service → Service
count_fail s = record s { refresh_fail = s.refresh_fail +ℤ pos 1 }

abbrev pub count_ok : Service → Service
count_ok s = record s { refresh_ok = s.refresh_ok +ℤ pos 1 }

-- A failure is counted and noted on the row; what the policy answers is ignored.
unfoldable pub note_failure : World → Service → String → String → RefreshError → Answer
note_failure w s id text e = (
  record (count_fail s) {
    cat =
        (on_refresh_failure s.policy w.is_over w.noted_at (others s.cat w.noting) id (some text)).0;
  },
  err e,
)

unfoldable pub note_success : World → Service → String → TokenSet → Answer
note_success w s id tokens = (
  record (count_ok s) {
    cat = (on_refresh_success w.is_over w.noted_at (others s.cat w.noting) id).0;
  },
  ok tokens,
)

-- What follows the answer of a store.
unfoldable pub stored :
    World → Service → String → TokenSet → Result CatalogError (Unit {0}) → Answer
unfolding note_failure note_success
stored w s id tokens (ok _) = note_success w s id tokens
stored w s id tokens (err e) = note_failure w s id (w.text e) (not_persisted e)

abbrev pub with_cat : Service → Catalog → Service
with_cat s c = record s { cat = c }

-- The row is read again; a fresh one is used as it is, else the store is tried once more.
unfoldable pub retry : World → Service → String → TokenSet → Answer
unfolding stored
retry w s id tokens = elim (get_account s.cat id) [
  | err e ↦ (count_fail s, err (catalog_failed e))
  | ok cur ↦
      if is_fresh w.reread_at s.skew_sec cur
      then (count_ok s, ok (tokens_of cur))
      else (let s' = after s w.retrying in
          let (c, r) = update_tokens w.stored_at s'.cat id cur.revision tokens in
          stored w (with_cat s' c) id tokens r)
]

-- What follows the answer of the first store: a conflict alone is tried again.
unfoldable pub first_stored :
    World → Service → String → TokenSet → Result CatalogError (Unit {0}) → Answer
unfolding stored retry
first_stored w s id tokens (err cas_conflict) = retry w (after s w.overtaken) id tokens
first_stored w s id tokens r = stored w s id tokens r

unfoldable pub store_tokens : World → Service → Account → TokenSet → Answer
unfolding first_stored
store_tokens w s acct tokens =
    let (c, r) = update_tokens w.stored_at s.cat acct.id acct.revision tokens in
    first_stored w (with_cat s c) acct.id tokens r

abbrev pub empty_text : String
empty_text = "refresh: invalid input: empty tokens from oauth"

unfoldable pub refresh_and_persist : World → Service → Account → Answer
unfolding note_failure store_tokens
refresh_and_persist w s acct =
    if (if w.is_granted then w.is_dead else true)
    then (s, err cancelled)
    else (let s' = after s w.waiting in
        elim (w.oauth acct.refresh_token) [
          | err text ↦ note_failure w s' acct.id text (oauth_failed text)
          | ok tokens ↦
              if (tokens.access_token == "") || (tokens.refresh_token == "")
              then note_failure w s' acct.id empty_text invalid_input
              else store_tokens w s' acct tokens
        ])

-- The call that leads a flight of EnsureFresh.
unfoldable pub lead_fresh : World → Service → String → Answer
unfolding refresh_and_persist
lead_fresh w s id = elim (get_account s.cat id) [
  | err e ↦ (s, err (catalog_failed e))
  | ok cur ↦
      if is_fresh w.recheck_at s.skew_sec cur
      then (s, ok (tokens_of cur))
      else refresh_and_persist w s cur
]

unfoldable pub ensure_fresh : World → Service → String → Answer
unfolding lead_fresh
ensure_fresh w s id =
    if id == ""
    then (s, err invalid_input)
    else if w.starts_dead
    then (s, err cancelled)
    else elim (get_account s.cat id) [
      | err e ↦ (s, err (catalog_failed e))
      | ok acct ↦
          if is_fresh w.read_at s.skew_sec acct
          then (record s { ensure_hit = s.ensure_hit +ℤ pos 1 }, ok (tokens_of acct))
          else elim w.joined [
            | some shared ↦ (s, shared)
            | none ↦ lead_fresh w (after s w.queued) id
          ]
    ]

unfoldable pub lead_force : World → Service → String → Answer
unfolding refresh_and_persist
lead_force w s id = elim (get_account s.cat id) [
  | err e ↦ (s, err (catalog_failed e))
  | ok cur ↦ refresh_and_persist w s cur
]

unfoldable pub force_refresh : World → Service → String → Answer
unfolding lead_force
force_refresh w s id =
    if id == ""
    then (s, err invalid_input)
    else if w.starts_dead
    then (s, err cancelled)
    else elim w.joined [ some shared ↦ (s, shared) | none ↦ lead_force w (after s w.queued) id ]

-- The ids that a scan sends to the workers, as many as the channel has room for.
unfoldable pub enqueue_expiring : Service → ℤ → ℕ → List String
enqueue_expiring s now room = elim (list_expiring s.cat s.scan_limit (now +ℤ s.skew_sec)) [
  | err e ↦ []
  | ok rows ↦ map (λ (a : Account). a.id) (take room rows)
]
