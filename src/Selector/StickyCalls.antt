-- ===== src/Selector/StickyCalls.antt =====
-- internal/selector/sticky.go: any sequence of calls keeps the bindings well formed and within the
-- capacity.
use grokbuild_pool.Base.{
  ◌+◌, ◌≤◌, ◌<◌, ℤ, String, true, false, ◌||◌, List, [], ◌∷◌, ◌≡◌, refl, none, some, arith, length,
  string_eq, ◌==◌, eq_iff, lookup, IsUniq, length-delete, if_split, option_split,
}
use grokbuild_pool.Selector.Acct.{keys_of}
use grokbuild_pool.Selector.Sticky.{
  StickyEntry, StickyLru, new_sticky_lru, get_pair, evict, rebind, push_new, put, put_secondary,
  delete_key, delete_account,
}
use grokbuild_pool.Selector.StickyInv.{IsSticky, get_pair-IsSticky, evict-IsSticky, rebind-IsSticky}
use grokbuild_pool.Selector.StickyOps.{
  push_new-IsSticky, evict_absent, put_secondary-IsSticky, delete_key-IsSticky,
}
use grokbuild_pool.Selector.StickyLaws.{delete_account-IsSticky}
use grokbuild_pool.Selector.StickyRun.{
  Fewer, same-Fewer, get_pair-Fewer, rebind-Fewer, bind_secondary-Fewer, forget_each-Fewer,
  evict_room, remove_element-Fewer,
}

pub record IsWell (s : StickyLru) : Type 0 where
  pub sticky : IsSticky s
  pub bounded : length s.entries ≤ s.max
  pub roomy : 0 < s.max

Fewer-IsWell : (s t : StickyLru) → IsWell s → IsSticky t → Fewer s t → IsWell t
Fewer-IsWell s t w v f = record {
  sticky = v;
  bounded = ground (arith, w, f);
  roomy = ground (arith, w, f);
}

new_sticky_lru-IsWell : (max ttl_sec : ℤ) → IsWell (new_sticky_lru max ttl_sec)
unfolding new_sticky_lru lookup
new_sticky_lru-IsWell max ttl_sec = record {
  sticky = record { uniq = tt; entry = λ k e h. cc; agrees = λ a k h. refl };
  bounded = omega arith;
  roomy = ground arith;
}

length-push_new :
    (s : StickyLru) (now : ℤ) (key a : String)
    → IsUniq s.entries
    → (length (push_new s now key a).entries ≤ length s.entries + 1)
      × ((push_new s now key a).max ≡ s.max)
unfolding push_new
length-push_new s now key a u = (ground (arith, length-delete key s.entries u), refl)

put-IsWell : (s : StickyLru) (now : ℤ) (key a : String) → IsWell s → IsWell (put s now key a)
unfolding put
put-IsWell s now key a w =
    if_split IsWell ((key == "") || (a == "")) (λ _. w)
      λ full.
        option_split IsWell (lookup key s.entries)
          (λ n. record {
            sticky = known n full;
            bounded = ground (arith, room, pushed);
            roomy = ground (arith, room, pushed, w.roomy);
          })
          (λ e h.
            Fewer-IsWell s (rebind s now e a true) w (rebound e h full)
              (rebind-Fewer s now e a w.sticky (ground (arith, w.sticky.entry key e h))))
  where
    t : StickyLru
    t = evict (length s.entries) s

    room : (length t.entries < s.max) × (t.max ≡ s.max)
    room = evict_room (length s.entries) s w.sticky w.roomy (omega arith)

    pushed :
        (length (push_new t now key a).entries ≤ length t.entries + 1)
        × ((push_new t now key a).max ≡ t.max)
    pushed = length-push_new t now key a (evict-IsSticky (length s.entries) s w.sticky).uniq

    known :
        lookup key s.entries ≡ none
        → ((key == "") || (a == "")) ≡ false
        → IsSticky (push_new t now key a)
    known n full =
        push_new-IsSticky t now key a (evict-IsSticky (length s.entries) s w.sticky)
          (evict_absent (length s.entries) s key n) (ground (arith, eq_iff a ""))

    rebound :
        (e : StickyEntry)
        → lookup key s.entries ≡ some e
        → ((key == "") || (a == "")) ≡ false
        → IsSticky (rebind s now e a true)
    rebound e h full =
        rebind-IsSticky s now e a w.sticky (ground (arith, w.sticky.entry key e h))
          (ground (arith, eq_iff a ""))

pub data StickyCall : Type 0 where
  gets : ℤ → String → StickyCall
  puts puts_secondary : ℤ → String → String → StickyCall
  deletes_key deletes_account : String → StickyCall

unfoldable pub step : StickyLru → StickyCall → StickyLru
step s (gets now key) = (get_pair s now key).0
step s (puts now key a) = put s now key a
step s (puts_secondary now key a) = put_secondary s now key a
step s (deletes_key key) = delete_key s key
step s (deletes_account a) = delete_account s a

unfoldable pub run : StickyLru → List StickyCall → StickyLru
unfolding step
run s [] = s
run s (c ∷ cs) = run (step s c) cs

put_secondary-Fewer :
    (s : StickyLru) (now : ℤ) (key a : String) → IsSticky s → Fewer s (put_secondary s now key a)
unfolding put_secondary
put_secondary-Fewer s now key a v =
    if_split (Fewer s) ((key == "") || (a == "")) (λ _. same-Fewer s)
      λ _.
        option_split (Fewer s) (lookup key s.entries) (λ _. same-Fewer s)
          (λ e h. bind_secondary-Fewer s now e a v (ground (arith, v.entry key e h)))

delete_key-Fewer : (s : StickyLru) (key : String) → IsSticky s → Fewer s (delete_key s key)
unfolding delete_key
delete_key-Fewer s key v =
    if_split (Fewer s) (key == "") (λ _. same-Fewer s)
      λ _.
        option_split (Fewer s) (lookup key s.entries) (λ _. same-Fewer s)
          (λ e h. remove_element-Fewer s e v)

delete_account-Fewer : (s : StickyLru) (a : String) → IsSticky s → Fewer s (delete_account s a)
unfolding delete_account
delete_account-Fewer s a v =
    if_split (Fewer s) (a == "") (λ _. same-Fewer s)
      (λ n. forget_each-Fewer s a (keys_of a s.by_acct) (ground (arith, eq_iff a "")) v)

-- Every operation keeps the bindings well formed: one entry to a key, a primary that is not the
-- secondary, an account index that holds exactly the keys of the bindings that name the account, and
-- no more bindings than the capacity.
pub step-IsWell : (s : StickyLru) (c : StickyCall) → IsWell s → IsWell (step s c)
unfolding step
step-IsWell s (gets now key) w =
    Fewer-IsWell s _ w (get_pair-IsSticky s now key w.sticky) (get_pair-Fewer s now key w.sticky)
step-IsWell s (puts now key a) w = put-IsWell s now key a w
step-IsWell s (puts_secondary now key a) w =
    Fewer-IsWell s _ w (put_secondary-IsSticky s now key a w.sticky)
      (put_secondary-Fewer s now key a w.sticky)
step-IsWell s (deletes_key key) w =
    Fewer-IsWell s _ w (delete_key-IsSticky s key w.sticky) (delete_key-Fewer s key w.sticky)
step-IsWell s (deletes_account a) w =
    Fewer-IsWell s _ w (delete_account-IsSticky s a w.sticky) (delete_account-Fewer s a w.sticky)

run_from-IsWell : (s : StickyLru) (cs : List StickyCall) → IsWell s → IsWell (run s cs)
unfolding run
run_from-IsWell s [] w = w
run_from-IsWell s (c ∷ cs) w = run_from-IsWell (step s c) cs (step-IsWell s c w)

-- The bindings are well formed and within the capacity after any sequence of calls on a new LRU,
-- whatever its configured capacity and time to live.
pub run-IsWell :
    (max ttl_sec : ℤ) (cs : List StickyCall) → IsWell (run (new_sticky_lru max ttl_sec) cs)
run-IsWell max ttl_sec cs = run_from-IsWell _ cs (new_sticky_lru-IsWell max ttl_sec)
