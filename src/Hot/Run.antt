-- ===== src/Hot/Run.antt =====
-- internal/hot/index.go: sequences of calls on one index.
use grokbuild_pool.Base.{
  ℕ, ℤ, String, ◌≡◌, refl, List, [], ◌∷◌, arith, string_eq, lookup, Result, ok, err, if_split,
  result_split,
}
use grokbuild_pool.Hot.Meta.{HotMeta}
use grokbuild_pool.Hot.Index.{
  HotError, Index, new, add_inflight, sub_inflight, set_cooldown, promote, demote, demote_many,
  resize, close, load_metas, set_max_inflight,
}
use grokbuild_pool.Hot.Load.{load_begin, load_pages, load_rest, load_eligible}
use grokbuild_pool.Hot.Pages.{length-load_pages}
use grokbuild_pool.Hot.Dense.{nil-IsDense}
use grokbuild_pool.Hot.Valid.{IsValid}
use grokbuild_pool.Hot.Preserve.{
  LeavesValid, update_entry-IsValid, demote-IsValid, promote-IsValid, demote_each-IsValid,
  resize-IsValid, load_metas-IsValid, load_commit-IsValid,
}

-- `LoadEligible` commits no more metas than it has room for.
load_rest-IsValid :
    (list_eligible : ℕ → String → Result HotError (List HotMeta)) (idx : Index)
    (begun : Result HotError (ℕ × List (String × ℤ)))
    → ((n : ℕ) (prev : List (String × ℤ)) → begun ≡ ok (n, prev) → n ≡ idx.limit)
    → IsValid idx
    → IsValid (load_rest list_eligible idx begun).0
unfolding load_rest
load_rest-IsValid list_eligible idx (err e) h v = v
load_rest-IsValid list_eligible idx (ok (n, prev)) h v =
    result_split LeavesValid (load_pages list_eligible n n prev [] "")
      (λ loaded e.
        load_commit-IsValid idx loaded
          (omega (arith, length-load_pages list_eligible n prev e, h n prev refl)) v)
      (λ e _. v)

load_eligible-IsValid :
    (list_eligible : ℕ → String → Result HotError (List HotMeta)) (idx : Index)
    → IsValid idx
    → IsValid (load_eligible list_eligible idx).0
unfolding load_eligible
load_eligible-IsValid list_eligible idx v =
    load_rest-IsValid list_eligible idx (load_begin idx) (λ n prev e. ground arith) v

pub data HotCall : Type 0 where
  adds subs demotes : String → HotCall
  cools : String → ℤ → HotCall
  promotes : HotMeta → HotCall
  demotes_many : List String → HotCall
  resizes caps : ℤ → HotCall
  loads : List HotMeta → HotCall
  reloads : (ℕ → String → Result HotError (List HotMeta)) → HotCall
  closes : HotCall

-- One call of a method, whether it succeeds or fails.
unfoldable pub step : Index → HotCall → Index
step idx (adds id) = (add_inflight idx id).0
step idx (subs id) = (sub_inflight idx id).0
step idx (demotes id) = (demote idx id).0
step idx (cools id until) = (set_cooldown idx id until).0
step idx (promotes meta) = (promote idx meta).0
step idx (demotes_many ids) = demote_many idx ids
step idx (resizes n) = resize idx n
step idx (caps max) = set_max_inflight idx max
step idx (loads metas) = (load_metas idx metas).0
step idx (reloads list_eligible) = (load_eligible list_eligible idx).0
step idx closes = close idx

unfoldable pub run : Index → List HotCall → Index
unfolding step
run idx [] = idx
run idx (c ∷ cs) = run (step idx c) cs

pub new-IsValid : (hot_size max_inflight : ℤ) → IsValid (new hot_size max_inflight)
unfolding new lookup
new-IsValid hot_size max_inflight = record {
  sound = record {
    dense = nil-IsDense;
    same = λ k. refl;
    uniq = tt;
    counted = refl;
    named = λ k m h. cc;
  };
  bounded = omega arith;
  roomy = ground arith;
}

-- Whatever the method and its outcome, a valid index stays valid: the map, the dense list and the
-- positions hold the same ids once each, under their own names and within the limit.
pub step-IsValid : (idx : Index) (c : HotCall) → IsValid idx → IsValid (step idx c)
unfolding step add_inflight sub_inflight set_cooldown demote_many set_max_inflight close
step-IsValid idx (adds id) v = update_entry-IsValid idx id _ (λ m. refl) v
step-IsValid idx (subs id) v = update_entry-IsValid idx id _ (λ m. ground arith) v
step-IsValid idx (demotes id) v = demote-IsValid idx id v
step-IsValid idx (cools id until) v = update_entry-IsValid idx id _ (λ m. refl) v
step-IsValid idx (promotes meta) v = promote-IsValid idx meta v
step-IsValid idx (demotes_many ids) v =
    if_split IsValid idx.is_closed (λ _. v) (λ _. demote_each-IsValid idx ids v)
step-IsValid idx (resizes n) v = resize-IsValid idx n v
step-IsValid idx (caps max) v = ground (arith, v)
step-IsValid idx (loads metas) v = load_metas-IsValid idx metas v
step-IsValid idx (reloads list_eligible) v = load_eligible-IsValid list_eligible idx v
step-IsValid idx closes v = ground (arith, v)

run_from-IsValid : (idx : Index) (cs : List HotCall) → IsValid idx → IsValid (run idx cs)
unfolding run
run_from-IsValid idx [] v = v
run_from-IsValid idx (c ∷ cs) v = run_from-IsValid (step idx c) cs (step-IsValid idx c v)

-- An index that was made empty is valid after any sequence of calls, whatever its limits are.
pub run-IsValid :
    (hot_size max_inflight : ℤ) (cs : List HotCall) → IsValid (run (new hot_size max_inflight) cs)
run-IsValid hot_size max_inflight cs =
    run_from-IsValid (new hot_size max_inflight) cs (new-IsValid hot_size max_inflight)
