-- ===== src/Refresh/Held.antt =====
-- internal/refresh/service.go: where the tokens of an answer are or were.
use grokbuild_pool.Base.{ℤ, String, ◌≡◌, sym, ap, ◌∙◌, subst, [], ◌⊎◌, inl, inr}
use grokbuild_pool.Lease.Catalog.{Catalog}
use grokbuild_pool.Catalog.Rows.{TokenSet, update_tokens}
use grokbuild_pool.Refresh.Policy.{on_refresh_success}
use grokbuild_pool.Refresh.Others.{others}
use grokbuild_pool.Refresh.Service.{World}
use grokbuild_pool.Refresh.Holds.{HoldsRow, on_refresh_success-HoldsRow}

-- The tokens have been stored: by a compare-and-swap that has left them in the row, on what the writes
-- of others have made of the catalog up to then, as a first attempt or as the second. What is left
-- of the catalog is that, with what others have written before the success was noted, and the note.
pub record IsStored (w : World) (start : Catalog) (id : String) (t : TokenSet) (c : Catalog)
    : Type 0 where
  pub before : Catalog
  pub expected : ℤ
  pub reached :
      (before ≡ others (others start w.queued) w.waiting)
      ⊎ (before ≡ others (others (others (others start w.queued) w.waiting) w.overtaken) w.retrying)
  pub holds : HoldsRow (update_tokens w.stored_at before id expected t).0 id t
  pub noted :
      c
      ≡ (on_refresh_success w.is_over w.noted_at
          (others (update_tokens w.stored_at before id expected t).0 w.noting)
          id).0

-- The row holds the tokens of an answer as the call ends, or held them when they were stored.
abbrev pub Held : World → Catalog → String → TokenSet → Catalog → Type 0
Held w start id t c = HoldsRow c id t ⊎ IsStored w start id t c

-- Where others write nothing between the store and the note, the row holds the tokens as the call ends.
pub Held-HoldsRow :
    (w : World) (start : Catalog) (id : String) (t : TokenSet) (c : Catalog)
    → w.noting ≡ []
    → Held w start id t c
    → HoldsRow c id t
unfolding others
Held-HoldsRow w start id t c quiet (inl row) = row
Held-HoldsRow w start id t c quiet (inr h) =
    let kept =
      on_refresh_success-HoldsRow w.is_over w.noted_at
        (update_tokens w.stored_at h.before id h.expected t).0 id t h.holds in
    subst (λ d. HoldsRow d id t)
      (ap
          (λ os.
            (on_refresh_success w.is_over w.noted_at
              (others (update_tokens w.stored_at h.before id h.expected t).0 os) id).0)
          (sym quiet)
        ∙ sym h.noted)
      kept
