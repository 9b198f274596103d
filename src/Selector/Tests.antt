-- ===== src/Selector/Tests.antt =====
-- internal/selector: concrete inputs.
use mathlib.Core.List.{Permᴰ}
use mathlib.Core.List
use grokbuild_pool.Base.{
  ℕ, zero, suc, ◌<◌, ltb_ℤ, eqb_ℤ, ℤ, pos, ◌+ℤ◌, ◌-ℤ◌, ◌*ℤ◌, String, ◌≡◌, ◌≢◌, refl, List, [], ◌∷◌,
  some, arith, length, get_elem?, string_eq, eq_iff, lookup, insert, delete, keep,
}
use grokbuild_pool.Hot.Meta.{resolve_now}
use grokbuild_pool.Hot.Index.{Index, new, eligible, get}
use grokbuild_pool.Hot.Run
use grokbuild_pool.Hot.Run.{HotCall, promotes}
use grokbuild_pool.Hot.Tests.{account, two, two-IsValid, program as hot_program}
use grokbuild_pool.Selector.Sticky.{
  StickyLru, new_sticky_lru, get_pair, put, put_primary, push_new, put_secondary, bind_secondary,
  delete_account, evict, rebind, to_front, remove_element, shift_secondary,
}
use grokbuild_pool.Selector.Acct.{index_account, unindex_account}
use grokbuild_pool.Selector.StickyInv.{IsSticky}
use grokbuild_pool.Selector.StickyCalls.{
  StickyCall, puts, puts_secondary, step, run, IsWell, run-IsWell,
}
use grokbuild_pool.Selector.StickyLaws.{
  secondary_after, forgotten, get_pair-put, delete_account_lem,
}
use grokbuild_pool.Selector.Config.{Float64, default_config, normalize}
use grokbuild_pool.Selector.Pick.{
  Selector, new_selector, pick_excluding, reselect, strategy_pick, candidates, stable_rr_pick,
  take_turn, best_layer, rev_onto, sort_by_id, sort_loop, sink, usable,
}
use grokbuild_pool.Selector.RoundRobin.{IsHighest, stable_rr_pick-IsHighest}
use grokbuild_pool.Selector.Alike.{IsReordered}
use grokbuild_pool.Selector.Rotation.{later_pick, stable_rr_pick-fair}
use grokbuild_pool.Selector.Affinity.{pick_excluding-sticky, pick_excluding-takes_over}
use grokbuild_pool.Selector.Picks.{IsPick, pick_excluding-IsPick}

sticky_program : Unit {0}
unfolding run step new_sticky_lru put put_primary push_new put_secondary bind_secondary rebind evict
    to_front index_account unindex_account shift_secondary lookup insert delete ◌+ℤ◌
sticky_program = tt

abbrev binding : List StickyCall
binding = puts (pos 10) "s" "a" ∷ puts_secondary (pos 10) "s" "b" ∷ []

abbrev bound : StickyLru
bound = run (new_sticky_lru (pos 4) (pos 60)) binding

run-IsWell_example : IsWell bound
run-IsWell_example = run-IsWell (pos 4) (pos 60) binding

bound-IsSticky : IsSticky bound
bound-IsSticky = (run-IsWell (pos 4) (pos 60) binding).sticky

s_named : ◌≢◌ {A = String} "s" ""
s_named = ground (arith, eq_iff "s" "")

a_named : ◌≢◌ {A = String} "a" ""
a_named = ground (arith, eq_iff "a" "")

b_named : ◌≢◌ {A = String} "b" ""
b_named = ground (arith, eq_iff "b" "")

get_pair-put_example :
    (get_pair (put bound (pos 20) "s" "a") (pos 30) "s").1
    ≡ some ("a", secondary_after (lookup "s" bound.entries) "a")
unfolding sticky_program
get_pair-put_example =
    get_pair-put bound (pos 20) (pos 30) "s" "a" s_named a_named bound-IsSticky (omega arith)

delete_account_lem_example :
    lookup "s" (delete_account bound "a").entries ≡ forgotten "a" (lookup "s" bound.entries)
delete_account_lem_example = delete_account_lem bound "a" "s" a_named bound-IsSticky

-- Integers as the scores' numbers; a half is rounded to 0.
abbrev pub integers : Float64
integers = record {
  F = ℤ;
  of_int = λ n. n;
  half = pos 0;
  add = ◌+ℤ◌;
  sub = ◌-ℤ◌;
  mul = ◌*ℤ◌;
  lt = ltb_ℤ;
  eq = eqb_ℤ;
}

unfoldable pub pick_program : Unit {0}
unfolding hot_program sticky_program new_selector normalize default_config pick_excluding reselect
    strategy_pick stable_rr_pick take_turn candidates best_layer rev_onto sort_by_id sort_loop sink
    usable eligible keep get_pair get_elem? get delete remove_element
pick_program = tt

abbrev pub selector : Selector integers
selector = new_selector integers (default_config integers)

abbrev pub draws : ℕ → ℕ → ℕ
draws t n = 0

abbrev pub jitters : ℕ → ℤ
jitters i = pos 0

pick_excluding-IsPick_example : IsPick two (resolve_now (pos 5) (pos 0)) [] "b"
unfolding pick_program
pick_excluding-IsPick_example =
    pick_excluding-IsPick integers (pos 5) two selector (pos 0) "s" [] draws jitters "b" two-IsValid
      refl

stable_rr_pick-IsHighest_example :
    IsHighest two (resolve_now (pos 5) (pos 0)) [] (account "b" (pos 2))
unfolding pick_program
stable_rr_pick-IsHighest_example =
    stable_rr_pick-IsHighest (pos 5) two (pos 0) [] 7 (account "b" (pos 2)) two-IsValid refl

-- Two accounts of one priority, and the same met in the other order.
abbrev level : List HotCall
level = promotes (account "a" (pos 2)) ∷ promotes (account "b" (pos 2)) ∷ []

abbrev even : Index
even = Run.run (new (pos 2) (pos 3)) level

abbrev turned : ℕ → Index
turned zero = even
turned (suc k) = record even { hot = ("b", account "b" (pos 2)) ∷ ("a", account "a" (pos 2)) ∷ [] }

even-IsReordered : (k : ℕ) → IsReordered even (turned k)
unfolding pick_program
even-IsReordered zero = record { perm = List.Permᴰ.refl even.hot; max_same = refl }
even-IsReordered (suc k) = record { perm = Permᴰ.swap refl refl; max_same = refl }

stable_rr_pick-fair_example :
    (j : ℕ) × ((j < length (candidates (pos 5) even (pos 0) []))
      × ((later_pick (pos 5) turned (pos 0) [] 7 j).1 ≡ some (account "a" (pos 2))))
unfolding pick_program
stable_rr_pick-fair_example =
    stable_rr_pick-fair (pos 5) even turned (pos 0) [] 7 0 (account "a" (pos 2))
      (Run.run-IsValid (pos 2) (pos 3) level) even-IsReordered (omega arith) refl (omega arith)

pick_excluding-sticky_example :
    (pick_excluding integers
      (pos 7)
      two
      (pick_excluding integers (pos 5) two selector (pos 0) "s" [] draws jitters).0
      (pos 0)
      "s"
      []
      draws
      jitters).1
    ≡ some "b"
unfolding pick_program
pick_excluding-sticky_example =
    pick_excluding-sticky integers (pos 5) (pos 7) two two selector (pos 0) (pos 0) "s" [] [] draws
      draws jitters jitters "b" s_named b_named (run-IsWell (pos 100_000) (pos 1800) []).sticky refl
      (omega arith) refl

-- A session whose primary is not in the hot set.
abbrev taken : StickyLru
taken =
    run (new_sticky_lru (pos 4) (pos 60))
      (puts (pos 5) "s" "gone" ∷ puts_secondary (pos 5) "s" "b" ∷ [])

pick_excluding-takes_over_example :
    let r =
      pick_excluding integers
        (pos 5)
        two
        (record selector { sticky = taken })
        (pos 0)
        "s"
        []
        draws
        jitters in
    (r.1 ≡ some "b") × ((get_pair r.0.sticky (pos 30) "s").1 ≡ some ("b", ""))
unfolding pick_program
pick_excluding-takes_over_example =
    pick_excluding-takes_over integers (pos 5) two (record selector { sticky = taken }) (pos 0)
      (pos 30) "s" [] draws jitters "gone" "b" s_named
      (run-IsWell (pos 4) (pos 60)
        (puts (pos 5) "s" "gone" ∷ puts_secondary (pos 5) "s" "b" ∷ [])).sticky
      refl refl refl (omega arith)
