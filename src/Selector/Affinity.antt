-- ===== src/Selector/Affinity.antt =====
-- internal/selector/selector.go (PickExcluding): a session keeps its account.
use grokbuild_pool.Base.{
  ℕ, ◌+◌, ℤ, ◌<ℤ◌, ◌+ℤ◌, Bool, true, false, ◌||◌, ◌≡◌, ◌≢◌, refl, sym, ap, ◌∙◌, subst, Option, some,
  inl, inr, arith, if_split, option_split, Option-cases, String, string_eq, eq_iff, ◌/=◌, lookup,
}
use grokbuild_pool.Hot.Meta.{IdSet, resolve_now}
use grokbuild_pool.Hot.Index.{Index}
use grokbuild_pool.Selector.Sticky.{StickyLru, StickyEntry, get_pair, put, to_front, remove_element}
use grokbuild_pool.Selector.StickyInv.{IsSticky, get_pair-IsSticky, lookup-to_front}
use grokbuild_pool.Selector.StickyLaws.{
  get_pair-put, get_pair_fresh, secondary_after, takeover_drops_primary,
}
use grokbuild_pool.Selector.Config.{Float64}
use grokbuild_pool.Selector.Pick.{Selector, strategy_pick, usable, reselect, pick_excluding}

ttl-get_pair : (s : StickyLru) (now : ℤ) (key : String) → (get_pair s now key).0.ttl_sec ≡ s.ttl_sec
unfolding get_pair to_front remove_element
ttl-get_pair s now key = ground arith

hit_entry :
    (s : StickyLru) (now : ℤ) (key : String) (pair : String × String) (e : StickyEntry)
    → key ≢ ""
    → e.key ≡ key
    → lookup key s.entries ≡ some e
    → (get_pair s now key).1 ≡ some pair
    → (lookup key (get_pair s now key).0.entries
        ≡ some (record e { expires_at = now +ℤ s.ttl_sec }))
      × ((e.account_id, e.secondary) ≡ pair)
unfolding get_pair
hit_entry s now key pair e named keyed at hit = (
  ground (
    arith,
    eq_iff key "",
    eq_iff e.key key,
    lookup-to_front s (record e { expires_at = now +ℤ s.ttl_sec }) key,
  ),
  ground (arith, eq_iff key ""),
)

-- A lookup that finds a binding refreshes it.
get_pair_again :
    (s : StickyLru) (now later : ℤ) (key : String) (pair : String × String)
    → key ≢ ""
    → IsSticky s
    → (get_pair s now key).1 ≡ some pair
    → later <ℤ now +ℤ s.ttl_sec
    → (get_pair (get_pair s now key).0 later key).1 ≡ some pair
unfolding get_pair
get_pair_again s now later key pair named v hit alive = elim (Option-cases (lookup key s.entries)) [
  | inl missing ↦ ground (arith, eq_iff key "")
  | inr (e, at) ↦
      let found = hit_entry s now key pair e named (v.entry key e at).keyed at hit in
      get_pair_fresh (get_pair s now key).0 later key (record e { expires_at = now +ℤ s.ttl_sec })
        named found.0 alive
      ∙ ap some found.1
]

injected : (a b : String) → some a ≡ some b → a ≡ b
injected a b e = ground arith

-- A lookup that finds a binding, and the secondary of it put in the place of the primary.
takes_over :
    (s : StickyLru) (now later : ℤ) (key primary second : String)
    → key ≢ ""
    → second ≢ ""
    → IsSticky s
    → (get_pair s now key).1 ≡ some (primary, second)
    → later <ℤ now +ℤ s.ttl_sec
    → (get_pair (put (get_pair s now key).0 now key second) later key).1 ≡ some (second, "")
unfolding get_pair
takes_over s now later key primary second named known v hit alive =
    elim (Option-cases (lookup key s.entries)) [
      | inl missing ↦ absurd (ground (arith, eq_iff key ""))
      | inr (e, at) ↦
          let (found, same) =
            hit_entry s now key (primary, second) e named (v.entry key e at).keyed at hit in
          let own : e.secondary ≡ second = ap (λ p. p.1) same in
          let alive' : later <ℤ now +ℤ (get_pair s now key).0.ttl_sec =
            subst (λ t. later <ℤ now +ℤ t) (sym (ttl-get_pair s now key)) alive in
          subst (λ x. (get_pair (put (get_pair s now key).0 now key x) later key).1 ≡ some (x, ""))
            own
            (takeover_drops_primary (get_pair s now key).0 now later key
              (record e { expires_at = now +ℤ s.ttl_sec }) named
              (subst (λ i. i ≢ "") (sym own) known) (get_pair-IsSticky s now key v) found alive')
    ]

module _ (f : Float64) where
  -- A later lookup finds the account as the primary.
  Binds : ℤ → String → String → Selector f → Type 0
  Binds later key id s = (second : String) × ((get_pair s.sticky later key).1 ≡ some (id, second))

  Rebinds : ℤ → String → Selector f × Option String → Type 0
  Rebinds later key r = (id : String) → id ≢ "" → r.1 ≡ some id → Binds later key id r.0

  put-Binds :
      (s : Selector f) (sticky : StickyLru) (now later : ℤ) (key id : String)
      → key ≢ ""
      → id ≢ ""
      → IsSticky sticky
      → later <ℤ now +ℤ sticky.ttl_sec
      → s.sticky ≡ put sticky now key id
      → Binds later key id s
  unfolding Binds
  put-Binds s sticky now later key id named known v alive same = (
    secondary_after (lookup key sticky.entries) id,
    ap (λ t. (get_pair t later key).1) same
        ∙ get_pair-put sticky now later key id named known v alive,
  )

  reselect-Rebinds :
      (clock : ℤ) (idx : Index) (s : Selector f) (now later : ℤ) (key : String) (exclude : IdSet)
      (draw : ℕ → ℕ → ℕ) (uniform : ℕ → f.F) (was : Bool)
      → key ≢ ""
      → IsSticky s.sticky
      → later <ℤ now +ℤ s.sticky.ttl_sec
      → Rebinds later key (reselect f clock idx s now key exclude draw uniform was)
  unfolding reselect Rebinds
  reselect-Rebinds clock idx s now later key exclude draw uniform was named v alive =
      option_split (Rebinds later key) (strategy_pick f clock idx s now exclude draw uniform).1
        (λ _ id known e. ground arith)
        (λ picked at id known e.
          put-Binds _ s.sticky now later key id named known v alive
            (ground (arith, eq_iff key "", ap (put s.sticky now key) (injected picked id e))))

  pick_excluding-Rebinds :
      (clock : ℤ) (idx : Index) (s : Selector f) (now later : ℤ) (key : String) (exclude : IdSet)
      (draw : ℕ → ℕ → ℕ) (uniform : ℕ → f.F)
      → key ≢ ""
      → IsSticky s.sticky
      → later <ℤ resolve_now clock now +ℤ s.sticky.ttl_sec
      → Rebinds later key (pick_excluding f clock idx s now key exclude draw uniform)
  unfolding pick_excluding Rebinds Binds
  pick_excluding-Rebinds clock idx s given later key exclude draw uniform named v alive =
      let now = resolve_now clock given in
      let sticky' = (get_pair s.sticky now key).0 in
      let s' = record s { sticky = sticky' } in
      let v' = get_pair-IsSticky s.sticky now key v in
      let alive' : later <ℤ now +ℤ sticky'.ttl_sec =
        subst (λ t. later <ℤ now +ℤ t) (sym (ttl-get_pair s.sticky now key)) alive in
      let again : (was : Bool)
          → Rebinds later key (reselect f clock idx s' now key exclude draw uniform was) =
        λ was.
          reselect-Rebinds clock idx s' now later key exclude draw uniform was named v' alive' in
      let P = Rebinds later key in
      option_split P (get_pair s.sticky now key).1 (λ _. again false)
        (λ pair hit.
          if_split P (usable f idx now exclude pair.0)
            (λ h id known e. (
              pair.1,
              get_pair_again s.sticky now later key pair named v hit alive
                  ∙ ap (λ i. some (i, pair.1)) (injected pair.0 id e),
            ))
            (λ _.
              if_split P (usable f idx now exclude pair.1)
                (λ h id known e.
                  put-Binds
                    (record s' {
                      sticky = put sticky' now key pair.1;
                      secondary_hits = s'.secondary_hits + 1;
                    })
                    sticky' now later key id named known v' alive'
                    (ap (put sticky' now key) (injected pair.1 id e)))
                (λ _. again ((pair.0 /= "") || (pair.1 /= "")))))

  -- When a pick with a session key has answered an account, the next pick on the selector that it left,
  -- with that key, answers the same account, within the time to live of the bindings, and while the
  -- account may be used at that time and is not excluded. The index, the excluded accounts, the clock
  -- and the random draws of the next pick may all be different.
  pub pick_excluding-sticky :
      (clock later_clock : ℤ) (idx later_idx : Index) (s : Selector f) (now later : ℤ)
      (key : String) (exclude later_exclude : IdSet) (draw later_draw : ℕ → ℕ → ℕ)
      (uniform later_uniform : ℕ → f.F) (id : String)
      → key ≢ ""
      → id ≢ ""
      → IsSticky s.sticky
      → (pick_excluding f clock idx s now key exclude draw uniform).1 ≡ some id
      → resolve_now later_clock later <ℤ resolve_now clock now +ℤ s.sticky.ttl_sec
      → usable f later_idx (resolve_now later_clock later) later_exclude id ≡ true
      → (pick_excluding f later_clock later_idx
          (pick_excluding f clock idx s now key exclude draw uniform).0
          later
          key
          later_exclude
          later_draw
          later_uniform).1
        ≡ some id
  unfolding Binds Rebinds pick_excluding
  pick_excluding-sticky clock later_clock idx later_idx s now later key exclude later_exclude draw
        later_draw uniform later_uniform id named known v picked alive fit =
      let (second, bound) =
        pick_excluding-Rebinds clock idx s now (resolve_now later_clock later) key exclude draw
          uniform named v alive id known picked in
      rw (pick_excluding, bound, fit) refl

  usable_named :
      (idx : Index) (now : ℤ) (exclude : IdSet) (id : String)
      → usable f idx now exclude id ≡ true
      → id ≢ ""
  unfolding usable
  usable_named idx now exclude id fit = ground (arith, eq_iff id "")

  -- Where the primary account of a session may not be used and its secondary may, at the time of the
  -- pick and given the excluded accounts, PickExcluding answers the secondary and makes it the
  -- primary, and it does not keep the old primary as the secondary: a lookup within the time to live
  -- of the bindings finds the account that took over and no secondary.
  pub pick_excluding-takes_over :
      (clock : ℤ) (idx : Index) (s : Selector f) (now later : ℤ) (key : String) (exclude : IdSet)
      (draw : ℕ → ℕ → ℕ) (uniform : ℕ → f.F) (primary second : String)
      → key ≢ ""
      → IsSticky s.sticky
      → (get_pair s.sticky (resolve_now clock now) key).1 ≡ some (primary, second)
      → usable f idx (resolve_now clock now) exclude primary ≡ false
      → usable f idx (resolve_now clock now) exclude second ≡ true
      → later <ℤ resolve_now clock now +ℤ s.sticky.ttl_sec
      → (let r = pick_excluding f clock idx s now key exclude draw uniform in
          (r.1 ≡ some second) × ((get_pair r.0.sticky later key).1 ≡ some (second, "")))
  unfolding pick_excluding
  pick_excluding-takes_over clock idx s given later key exclude draw uniform primary second named v
        hit unfit fit alive =
      let now = resolve_now clock given in
      let sticky' = (get_pair s.sticky now key).0 in
      rw (pick_excluding, hit, unfit, fit)
        (
          refl,
          takes_over s.sticky now later key primary second named
              (usable_named idx now exclude second fit) v hit alive,
        )
