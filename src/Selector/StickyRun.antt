-- ===== src/Selector/StickyRun.antt =====
-- internal/selector/sticky.go: how the number of bindings changes.
use grokbuild_pool.Base.{
  ℕ, zero, suc, ◌≤◌, ◌<◌, ℤ, pos, ltb_ℤ, leb_ℤ, leb, String, true, [], ◌∷◌, ◌≡◌, refl, ◌∙◌, ◌≢◌,
  Option, none, some, arith, length, string_eq, ◌==◌, lookup, has, length-insert, length-delete,
  has-length, ◌&&◌, if_split, option_split,
}
use grokbuild_pool.Hot.Meta.{IdSet}
use grokbuild_pool.Selector.Sticky.{
  StickyEntry, Entries, StickyLru, remove_element, to_front, get_pair, back, evict, rebind,
  bind_secondary, forget, forget_each,
}
use grokbuild_pool.Selector.StickyInv.{IsSticky, remove_element-IsSticky, back-lookup}
use grokbuild_pool.Selector.StickyOps.{forget-IsSticky}

-- No more bindings than before, under the same capacity.
pub record Fewer (s t : StickyLru) : Type 0 where
  pub fewer : length t.entries ≤ length s.entries
  pub same_max : t.max ≡ s.max

pub same-Fewer : (s : StickyLru) → Fewer s s
same-Fewer s = record { fewer = omega arith; same_max = refl }

pub remove_element-Fewer :
    (s : StickyLru) (e : StickyEntry) → IsSticky s → Fewer s (remove_element s e)
unfolding remove_element
remove_element-Fewer s e v = record {
  fewer = ground (arith, length-delete e.key s.entries v.uniq);
  same_max = refl;
}

-- A binding that is there moves without a change of their number.
to_front-Fewer :
    (s t : StickyLru) (e : StickyEntry)
    → IsSticky s
    → t.entries ≡ s.entries
    → t.max ≡ s.max
    → has e.key s.entries ≡ true
    → Fewer s (to_front t e)
unfolding to_front
to_front-Fewer s t e v same_entries same_max h = record {
  fewer = ground (arith, length-delete e.key s.entries v.uniq, has-length e.key s.entries h);
  same_max = same_max;
}

pub get_pair-Fewer :
    (s : StickyLru) (now : ℤ) (key : String) → IsSticky s → Fewer s (get_pair s now key).0
unfolding get_pair
get_pair-Fewer s now key v =
    if_split (λ (r : StickyLru × Option (String × String)). Fewer s r.0) (key == "")
      (λ _. same-Fewer s)
      λ _.
        option_split (λ (r : StickyLru × Option (String × String)). Fewer s r.0)
          (lookup key s.entries) (λ _. same-Fewer s)
          λ e h.
            if_split (λ (r : StickyLru × Option (String × String)). Fewer s r.0)
              (ltb_ℤ (pos 0) e.expires_at && leb_ℤ e.expires_at now)
              (λ _. remove_element-Fewer s e v)
              (λ _. to_front-Fewer s s _ v refl refl (ground (arith, v.entry key e h)))

pub rebind-Fewer :
    (s : StickyLru) (now : ℤ) (e : StickyEntry) (a : String)
    → IsSticky s
    → has e.key s.entries ≡ true
    → Fewer s (rebind s now e a true)
unfolding rebind
rebind-Fewer s now e a v h =
    if_split (Fewer s) (e.account_id == a) (λ _. to_front-Fewer s s _ v refl refl h)
      (λ _. to_front-Fewer s _ _ v refl refl h)

pub bind_secondary-Fewer :
    (s : StickyLru) (now : ℤ) (e : StickyEntry) (a : String)
    → IsSticky s
    → has e.key s.entries ≡ true
    → Fewer s (bind_secondary s now e a)
unfolding bind_secondary
bind_secondary-Fewer s now e a v h =
    if_split (Fewer s) (e.account_id == a) (λ _. to_front-Fewer s _ _ v refl refl h)
      (λ _. to_front-Fewer s _ _ v refl refl h)

forget-Fewer : (s : StickyLru) (a k : String) → IsSticky s → Fewer s (forget s a k)
unfolding forget
forget-Fewer s a k v =
    option_split (Fewer s) (lookup k s.entries) (λ _. same-Fewer s)
      λ e h.
        if_split (Fewer s) (e.account_id == a) (λ _. remove_element-Fewer s e v)
          λ _.
            if_split (Fewer s) (e.secondary == a)
              (λ _. record {
                fewer = ground (arith, length-insert k (record e { secondary = "" }) s.entries);
                same_max = refl;
              })
              (λ _. same-Fewer s)

pub forget_each-Fewer :
    (s : StickyLru) (a : String) (keys : IdSet)
    → a ≢ ""
    → IsSticky s
    → Fewer s (forget_each s a keys)
unfolding forget_each
forget_each-Fewer s a [] named v = same-Fewer s
forget_each-Fewer s a ((k, u) ∷ keys) named v =
    let first = forget-Fewer s a k v in
    let rest = forget_each-Fewer (forget s a k) a keys named (forget-IsSticky s a k named v) in
    record { fewer = omega (arith, first, rest); same_max = rest.same_max ∙ first.same_max }

-- The loop that makes room ends with room for one, however many bindings there were.
back-none : (es : Entries) → back es ≡ none → length es ≡ 0
unfolding back
back-none [] h = refl
back-none ((k, e) ∷ []) h = cc
back-none ((k, e) ∷ (x ∷ es)) h = absurd (ground (arith, back-none (x ∷ es) h))

remove_shorter :
    (s : StickyLru) (e : StickyEntry) (fuel : ℕ)
    → IsSticky s
    → lookup e.key s.entries ≡ some e
    → length s.entries ≤ suc fuel
    → (length (remove_element s e).entries ≤ fuel) × ((remove_element s e).max ≡ s.max)
unfolding remove_element
remove_shorter s e fuel v h f =
    (ground (arith, length-delete e.key s.entries v.uniq, has-length e.key s.entries), refl)

pub evict_room :
    (fuel : ℕ) (s : StickyLru)
    → IsSticky s
    → 0 < s.max
    → length s.entries ≤ fuel
    → (length (evict fuel s).entries < s.max) × ((evict fuel s).max ≡ s.max)
unfolding evict
evict_room zero s v r f = (omega arith, refl)
evict_room (suc fuel) s v r f =
    if_split (λ (t : StickyLru). (length t.entries < s.max) × (t.max ≡ s.max))
      (leb s.max (length s.entries)) {y = s}
      (λ _.
        option_split (λ (t : StickyLru). (length t.entries < s.max) × (t.max ≡ s.max))
          (back s.entries) {x = s} (λ n. (ground (arith, back-none s.entries n), refl))
          λ e h.
            let there = back-lookup s.entries e v.uniq (λ k x g. (v.entry k x g).keyed) h in
            let gone = remove_element-IsSticky s e v there in
            let shorter : (length (remove_element s e).entries ≤ fuel)
                × ((remove_element s e).max ≡ s.max) =
              remove_shorter s e fuel v there f in
            let rest =
              evict_room fuel (remove_element s e) gone (ground (arith, shorter)) shorter.0 in
            (ground (arith, rest, shorter), ground (arith, rest, shorter)))
      (λ full. (ground arith, refl))
