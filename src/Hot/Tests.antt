-- ===== src/Hot/Tests.antt =====
-- internal/hot/index.go: concrete inputs.
use grokbuild_pool.Base.{
  ℕ, ◌<◌, ℤ, pos, ◌+ℤ◌, String, true, ◌≡◌, ◌≢◌, refl, List, [], ◌∷◌, some, arith, length, All,
  string_eq, eq_iff, lookup, insert, Result, ok, err, inl, inr, if◌then◌else◌, ◌==◌, inc32,
}
use grokbuild_pool.Hot.Meta.{HotMeta, excluded, resolve_now, eligible_with_inflight_cap}
use grokbuild_pool.Hot.Index.{
  HotError, out_of_fuel, Index, new, get, add_locked, append_entry, clamp_inflight, promote,
  promote_new, update_entry, add_inflight, sub_inflight, prev_inflight, eligible_meta,
}
use grokbuild_pool.Hot.Load.{
  restore_inflight, load_begin, load_commit, load_pages, after_query, take_batch,
}
use grokbuild_pool.Hot.Sample.{sample_eligible}
use grokbuild_pool.Hot.Inflight.{live, Keeps}
use grokbuild_pool.Hot.Run.{HotCall, promotes, adds, demotes, run, step, run-IsValid}
use grokbuild_pool.Hot.Valid.{IsValid}
use grokbuild_pool.Hot.Picked.{MayPick, sample_eligible-MayPick}
use grokbuild_pool.Hot.Complete.{sample_eligible-finds}
use grokbuild_pool.Hot.Counts.{step-Keeps, sub-add_inflight, Lists, commit_loses_add}
use grokbuild_pool.Hot.Pages.{load_pages-ends}

unfoldable pub program : Unit {0}
unfolding run step new promote promote_new append_entry add_locked clamp_inflight lookup insert
    add_inflight update_entry get excluded eligible_meta eligible_with_inflight_cap inc32 ◌+ℤ◌
program = tt

abbrev pub account : String → ℤ → HotMeta
account id priority = record {
  id = id;
  priority = priority;
  cooldown_until = pos 0;
  expires_at = pos 0;
  inflight = pos 0;
  failure_score = pos 0;
  enabled = true;
  lifecycle = "active";
  revision = pos 1;
  identity_key = "";
  proxy_mode = "";
  proxy_url = "";
}

abbrev pub filling : List HotCall
filling = promotes (account "a" (pos 1)) ∷ promotes (account "b" (pos 2)) ∷ []

abbrev pub two : Index
two = run (new (pos 2) (pos 3)) filling

run-IsValid_example : IsValid two
run-IsValid_example = run-IsValid (pos 2) (pos 3) filling

pub two-IsValid : IsValid two
two-IsValid = run-IsValid (pos 2) (pos 3) filling

pub get-two : get two "b" ≡ some (account "b" (pos 2))
unfolding program
get-two = refl

abbrev busy : Index
busy = run (new (pos 2) (pos 3)) (promotes (account "a" (pos 1)) ∷ adds "a" ∷ [])

abbrev busy_account : HotMeta
busy_account = record (account "a" (pos 1)) { inflight = pos 1 }

get-busy : get busy "a" ≡ some busy_account
unfolding program
get-busy = refl

step-Keeps_example : Keeps two.hot (step two (demotes "a")).hot
step-Keeps_example = step-Keeps two (demotes "a") (λ h. h)

sub-add_inflight_example :
    ((add_inflight two "b").1 ≡ ok tt)
    × (live (add_inflight two "b").0 "b" ≡ some (pos 0 +ℤ pos 1))
    × ((sub_inflight (add_inflight two "b").0 "b").1 ≡ ok tt)
    × ((j : String) → live (sub_inflight (add_inflight two "b").0 "b").0 j ≡ live two j)
unfolding program
sub-add_inflight_example =
    sub-add_inflight two "b" (account "b" (pos 2)) (ground (arith, eq_iff "b" "")) refl get-two
      (omega arith) (omega arith)

abbrev two_pages : ℕ → String → Result HotError (List HotMeta)
two_pages limit after =
    if after == "" then ok (account "b" (pos 2) ∷ account "a" (pos 1) ∷ []) else ok []

abbrev two_loaded : List HotMeta
two_loaded = account "b" (pos 2) ∷ busy_account ∷ []

commit_loses_add_example :
    (live (add_inflight busy "a").0 "a" ≡ some (inc32 (pos 1)))
    × (live (load_commit (add_inflight busy "a").0 two_loaded).0 "a" ≡ some (pos 1))
unfolding program load_begin load_pages after_query take_batch restore_inflight prev_inflight Lists
commit_loses_add_example =
    commit_loses_add two_pages busy "a" busy_account 2 (prev_inflight busy.hot) two_loaded
      (ground (arith, eq_iff "a" "")) get-busy (λ e. ground arith) refl refl (inr (inl refl))

abbrev first_draw : ℕ → ℕ → ℕ
first_draw s n = 0

sample_eligible-MayPick_example :
    All
      (MayPick two (resolve_now (pos 5) (pos 0)) [])
      (sample_eligible (pos 5) two (pos 0) 1 [] first_draw)
sample_eligible-MayPick_example =
    sample_eligible-MayPick (pos 5) two (pos 0) 1 [] first_draw two-IsValid

pub b-MayPick : MayPick two (pos 5) [] (account "b" (pos 2))
unfolding program
b-MayPick = record { stored = refl; qualifies = refl; allowed = refl }

sample_eligible-finds_example : 0 < length (sample_eligible (pos 5) two (pos 0) 1 [] first_draw)
sample_eligible-finds_example =
    sample_eligible-finds (pos 5) two (pos 0) 1 [] first_draw (account "b" (pos 2)) two-IsValid
      (omega arith) (λ s n h. h) b-MayPick

abbrev one_page : ℕ → String → Result HotError (List HotMeta)
one_page limit after = ok (account "a" (pos 1) ∷ [])

load_pages-ends_example : load_pages one_page 2 2 [] [] "" ≢ err out_of_fuel
load_pages-ends_example = load_pages-ends one_page 2 [] 2 [] "" (omega arith)
