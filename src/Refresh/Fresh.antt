-- ===== src/Refresh/Fresh.antt =====
-- internal/refresh/service.go: what a call that succeeds has left in the catalog.
use grokbuild_pool.Base.{
  ℤ, pos, ◌+ℤ◌, String, true, false, ◌||◌, none, ◌≡◌, ◌≢◌, refl, ap, ◌∙◌, subst, arith, if_split,
  option_split, result_split, if◌then◌else◌, ◌==◌, string_eq, eq_iff, Result, ok, err, ◌⊎◌, inl,
  inr,
}
use grokbuild_pool.Lease.Catalog.{
  Account, Catalog, CatalogError, not_found, cas_conflict, closed, invalid_input, get_account,
}
use grokbuild_pool.Catalog.Rows.{TokenSet, update_tokens}
use grokbuild_pool.Refresh.Policy
use grokbuild_pool.Refresh.Policy.{
  RefreshError, cancelled, oauth_failed, catalog_failed, not_persisted, on_refresh_success,
}
use grokbuild_pool.Refresh.Others.{others}
use grokbuild_pool.Refresh.Service.{
  Service, World, Answer, tokens_of, is_fresh, after, with_cat, count_ok, count_fail, empty_text,
  note_failure, note_success, stored, first_stored, retry, store_tokens, refresh_and_persist,
  lead_fresh, ensure_fresh, lead_force, force_refresh,
}
use grokbuild_pool.Refresh.Keyed.{IsKeyed, others-IsKeyed}
use grokbuild_pool.Refresh.Held.{Held}
use grokbuild_pool.Refresh.Holds.{get_account-found, update_tokens-HoldsRow}

update_tokens_refused :
    (now : ℤ) (c : Catalog) (id : String) (expected : ℤ) (t : TokenSet) (e : CatalogError)
    → (update_tokens now c id expected t).1 ≡ err e
    → (update_tokens now c id expected t).0 ≡ c
unfolding update_tokens
update_tokens_refused now c id expected t e h = ground (arith, h)

module _ (w : World) (start : Catalog) (id : String) where
  -- An answer with tokens has found or left them in the row.
  abbrev Serves : Answer → Type 0
  Serves answer = (t : TokenSet) → answer.1 ≡ ok t → Held w start id t (answer.0).cat

  refusal-Serves : (s : Service) (e : RefreshError) → Serves (s, err e)
  refusal-Serves s e t h = absurd (ground (arith, h))

  given-Serves : (s : Service) (t : TokenSet) → Held w start id t s.cat → Serves (s, ok t)
  given-Serves s t held t' h = subst (λ x. Held w start id x s.cat) (ground (arith, h)) held

  -- A fresh row is served as it is.
  fresh-Serves :
      (s : Service) (now skew : ℤ) (a : Account)
      → get_account s.cat id ≡ ok a
      → is_fresh now skew a ≡ true
      → Serves (s, ok (tokens_of a))
  fresh-Serves s now skew a row fresh =
      given-Serves s (tokens_of a)
        (inl (a, row, refl, λ e. ground (arith, fresh, eq_iff a.access_token "", e)))

  module _ (t : TokenSet) (access : t.access_token ≢ "") where
    abbrev Reached : Catalog → Type 0
    Reached before =
        (before ≡ others (others start w.queued) w.waiting)
        ⊎ (before
            ≡ others (others (others (others start w.queued) w.waiting) w.overtaken) w.retrying)

    stored-Serves :
        (s : Service) (before : Catalog) (expected : ℤ) (r : Result CatalogError (Unit {0}))
        → Reached before
        → (update_tokens w.stored_at before id expected t).1 ≡ r
        → s.cat ≡ (update_tokens w.stored_at before id expected t).0
        → Serves (stored w s id t r)
    unfolding stored note_failure note_success
    stored-Serves s before expected (ok u) reached won left =
        given-Serves (note_success w s id t).0 t (
          inr (record {
            before = before;
            expected = expected;
            reached = reached;
            holds = update_tokens-HoldsRow w.stored_at before id expected t won access;
            noted =
                ap (λ c. (on_refresh_success w.is_over w.noted_at (others c w.noting) id).0) left;
          }))
    stored-Serves s before expected (err e) reached won left =
        refusal-Serves (note_failure w s id (w.text e) (not_persisted e)).0 (not_persisted e)

    retry-Serves :
        (s : Service)
        → s.cat ≡ others (others (others start w.queued) w.waiting) w.overtaken
        → Serves (retry w s id t)
    unfolding retry
    retry-Serves s at =
        result_split Serves (get_account s.cat id)
          (λ cur row.
            if_split Serves (is_fresh w.reread_at s.skew_sec cur)
              (fresh-Serves (count_ok s) w.reread_at s.skew_sec cur row)
              (λ _.
                let before = others s.cat w.retrying in
                let u = update_tokens w.stored_at before id cur.revision t in
                stored-Serves (with_cat (after s w.retrying) u.0) before cur.revision u.1
                  (inr (ap (λ c. others c w.retrying) at)) refl refl))
          (λ e _. refusal-Serves (count_fail s) (catalog_failed e))

    first_stored-Serves :
        (s : Service) (before : Catalog) (expected : ℤ) (r : Result CatalogError (Unit {0}))
        → before ≡ others (others start w.queued) w.waiting
        → (update_tokens w.stored_at before id expected t).1 ≡ r
        → s.cat ≡ (update_tokens w.stored_at before id expected t).0
        → Serves (first_stored w s id t r)
    unfolding first_stored
    first_stored-Serves s before expected (err cas_conflict) at lost left =
        retry-Serves (after s w.overtaken) (
          ap (λ c. others c w.overtaken)
            (left
              ∙ (update_tokens_refused w.stored_at before id expected t cas_conflict lost ∙ at)))
    first_stored-Serves s before expected (err not_found) at won left =
        stored-Serves s before expected (err not_found) (inl at) won left
    first_stored-Serves s before expected (err closed) at won left =
        stored-Serves s before expected (err closed) (inl at) won left
    first_stored-Serves s before expected (err invalid_input) at won left =
        stored-Serves s before expected (err invalid_input) (inl at) won left
    first_stored-Serves s before expected (ok u) at won left =
        stored-Serves s before expected (ok u) (inl at) won left

refresh_and_persist-Serves :
    (w : World) (start : Catalog) (s : Service) (a : Account)
    → s.cat ≡ others start w.queued
    → Serves w start a.id (refresh_and_persist w s a)
unfolding refresh_and_persist store_tokens note_failure
refresh_and_persist-Serves w start s a at =
    let s' = after s w.waiting in
    let P = Serves w start a.id in
    if_split P (if w.is_granted then w.is_dead else true)
      (λ _. refusal-Serves w start a.id s cancelled)
      (λ _.
        result_split P (w.oauth a.refresh_token)
          (λ t _.
            if_split P ((t.access_token == "") || (t.refresh_token == ""))
              (λ _.
                refusal-Serves w start a.id
                  (note_failure w s' a.id empty_text Policy.invalid_input).0 Policy.invalid_input)
              (λ full.
                let access : t.access_token ≢ "" =
                  λ e. ground (arith, full, eq_iff t.access_token "", e) in
                let u = update_tokens w.stored_at s'.cat a.id a.revision t in
                first_stored-Serves w start a.id t access (with_cat s' u.0) s'.cat a.revision u.1
                  (ap (λ c. others c w.waiting) at) refl refl))
          (λ text _.
            refusal-Serves w start a.id (note_failure w s' a.id text (oauth_failed text)).0
              (oauth_failed text)))

module _ (w : World) (start : Catalog) (id : String) where
  led :
      (s : Service) (a : Account)
      → s.cat ≡ others start w.queued
      → a.id ≡ id
      → Serves w start id (refresh_and_persist w s a)
  led s a at named =
      subst (λ j. Serves w start j (refresh_and_persist w s a)) named
        (refresh_and_persist-Serves w start s a at)

  lead_fresh-Serves :
      (s : Service)
      → s.cat ≡ others start w.queued
      → ((a : Account) → get_account s.cat id ≡ ok a → a.id ≡ id)
      → Serves w start id (lead_fresh w s id)
  unfolding lead_fresh
  lead_fresh-Serves s at named =
      result_split (Serves w start id) (get_account s.cat id)
        (λ cur row.
          if_split (Serves w start id) (is_fresh w.recheck_at s.skew_sec cur)
            (fresh-Serves w start id s w.recheck_at s.skew_sec cur row)
            (λ _. led s cur at (named cur row)))
        (λ e _. refusal-Serves w start id s (catalog_failed e))

  lead_force-Serves :
      (s : Service)
      → s.cat ≡ others start w.queued
      → ((a : Account) → get_account s.cat id ≡ ok a → a.id ≡ id)
      → Serves w start id (lead_force w s id)
  unfolding lead_force
  lead_force-Serves s at named =
      result_split (Serves w start id) (get_account s.cat id)
        (λ cur row. led s cur at (named cur row))
        (λ e _. refusal-Serves w start id s (catalog_failed e))

-- The rows keep their ids while the call queues.
queued-named :
    (w : World) (s : Service) (id : String)
    → s.cat.is_closed ≡ false
    → IsKeyed s.cat.accounts
    → (a : Account) → get_account (after s w.queued).cat id ≡ ok a
    → a.id ≡ id
queued-named w s id opened keyed a row =
    (others-IsKeyed w.queued s.cat (opened, keyed)).1 id a
      (get_account-found (after s w.queued).cat id a row).2

-- When EnsureFresh answers with tokens, either the account's row holds exactly these as the call ends,
-- or it held them when this call had stored them, in the first attempt or in the second one after a
-- conflict; the catalog that is left is then that one, with what others wrote before the success was
-- noted and with the note. The tokens have an access token that is not empty. Others may do any of
-- the modelled writes at any point where the call waits or may be overtaken, deletions and rows put
-- anew included, but nobody closes the catalog. The call leads its flight, the catalog is open, and
-- its rows stand under their own ids.
pub ensure_fresh-HoldsRow :
    (w : World) (s : Service) (id : String) (t : TokenSet)
    → w.joined ≡ none
    → s.cat.is_closed ≡ false
    → IsKeyed s.cat.accounts
    → (ensure_fresh w s id).1 ≡ ok t
    → Held w s.cat id t (ensure_fresh w s id).0.cat
unfolding ensure_fresh
ensure_fresh-HoldsRow w s id t alone opened keyed =
    let P = Serves w s.cat id in
    if_split P (id == "") (λ _. refusal-Serves w s.cat id s Policy.invalid_input)
      (λ _.
        if_split P w.starts_dead (λ _. refusal-Serves w s.cat id s cancelled)
          (λ _.
            result_split P (get_account s.cat id)
              (λ acct row.
                if_split P (is_fresh w.read_at s.skew_sec acct)
                  (fresh-Serves w s.cat id (record s { ensure_hit = s.ensure_hit +ℤ pos 1 })
                    w.read_at s.skew_sec acct row)
                  (λ _.
                    option_split P w.joined
                      (λ _.
                        lead_fresh-Serves w s.cat id (after s w.queued) refl
                          (queued-named w s id opened keyed))
                      (λ shared e. absurd (ground (arith, alone, e)))))
              (λ e _. refusal-Serves w s.cat id s (catalog_failed e))))
      t

-- So it is with ForceRefresh, which never answers with a row as it was found unless another refresh
-- has overtaken it.
force_refresh-HoldsRow :
    (w : World) (s : Service) (id : String) (t : TokenSet)
    → w.joined ≡ none
    → s.cat.is_closed ≡ false
    → IsKeyed s.cat.accounts
    → (force_refresh w s id).1 ≡ ok t
    → Held w s.cat id t (force_refresh w s id).0.cat
unfolding force_refresh
force_refresh-HoldsRow w s id t alone opened keyed =
    let P = Serves w s.cat id in
    if_split P (id == "") (λ _. refusal-Serves w s.cat id s Policy.invalid_input)
      (λ _.
        if_split P w.starts_dead (λ _. refusal-Serves w s.cat id s cancelled)
          (λ _.
            option_split P w.joined
              (λ _.
                lead_force-Serves w s.cat id (after s w.queued) refl
                  (queued-named w s id opened keyed))
              (λ shared e. absurd (ground (arith, alone, e)))))
      t
