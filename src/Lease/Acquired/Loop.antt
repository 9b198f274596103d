-- ===== src/Lease/Acquired/Loop.antt =====
-- internal/lease/lease.go (Acquire): the slots that the attempts of one call take together.
use grokbuild_pool.Base.{
  ℕ, zero, suc, ◌+◌, ℤ, pos, ◌+ℤ◌, pos_part, inc32, Bool, not, ◌&&◌, ◌≡◌, ◌∙◌, sym, subst, [], some,
  arith, if◌then◌else◌, if_split, option_split, result_split, String, ◌==◌, ◌/=◌, string_eq, eq_iff,
  lookup, lookup-insert, Result, ok, err, trim_space,
}
use grokbuild_pool.Hot.Meta.{IdSet}
use grokbuild_pool.Hot.Index.{Index, get, add_inflight}
use grokbuild_pool.Hot.Inflight.{live}
use grokbuild_pool.Hot.Valid.{IsNamed}
use grokbuild_pool.Selector.Config.{Float64}
use grokbuild_pool.Selector.Pick.{pick_excluding}
use grokbuild_pool.Lease.Catalog.{Account, Catalog, CatalogError, get_account, set_proxy}
use grokbuild_pool.Lease.Manager.{
  Manager, Lease, LeaseError, requires_proxy, account_usable, assigned, egress, bind_proxy,
  lease_of, seat, admit, check_model, lease_account, acquire_once, acquire_loop, acquire,
  is_no_account, no_account,
}
use grokbuild_pool.Lease.Released.{IsSame, IsSame-refl, IsSame-trans}
use grokbuild_pool.Lease.Acquired.{IsKeyed, Attempted, lease_account-Attempted, live-added}

set_proxy-IsKeyed :
    (now : ℤ) (c : Catalog) (id url mode : String)
    → IsKeyed c
    → IsKeyed (set_proxy now c id url mode).0
unfolding set_proxy
set_proxy-IsKeyed now c given url mode keyed =
    let id = trim_space given in
    let P = λ (r : Catalog × Result CatalogError (Unit {0})). IsKeyed r.0 in
    if_split P c.is_closed (λ _. keyed)
      (λ _.
        if_split P (id == "") (λ _. keyed)
          (λ _.
            option_split P (lookup id c.accounts) (λ _. keyed)
              (λ a at j b there. ground (
                arith,
                eq_iff id j,
                keyed id a at,
                keyed j b,
                lookup-insert id j
                    (record a {
                      proxy_url = trim_space url;
                      proxy_mode = if trim_space mode == "" then a.proxy_mode else trim_space mode;
                      revision = a.revision +ℤ pos 1;
                      updated_at = now;
                    })
                    c.accounts,
                there,
              ))))

module _ (f : Float64) where
  -- An error leaves every live count; a lease takes one slot of its own account, which the hot set
  -- knows, and of no other.
  unfoldable pub Counted : Index → Manager f × Result LeaseError Lease → Type 0
  Counted idx r = elim r.1 [
    | err e ↦ IsSame idx r.0.idx
    | ok l ↦
        (n : ℤ) × ((live idx l.account_id ≡ some n)
          × ((j : String)
              → live r.0.idx j ≡ (if l.account_id == j then some (inc32 n) else live idx j)))
  ]

  egress-IsKeyed :
      (now : ℤ) (m : Manager f) (id : String) (a : Account)
      → IsKeyed m.cat
      → IsKeyed (egress f now m id a).0.cat
  unfolding egress bind_proxy
  egress-IsKeyed now m id a keyed =
      let P = λ (r : Manager f × (String × String)). IsKeyed r.0.cat in
      if_split P (trim_space a.proxy_url /= "") (λ _. keyed)
        (λ _.
          option_split P (assigned f m id) (λ _. keyed)
            (λ pair _.
              let kept = set_proxy-IsKeyed now m.cat id pair.0 pair.1 keyed in
              result_split (λ (r : Manager f). IsKeyed r.cat)
                (set_proxy now m.cat id pair.0 pair.1).1
                (λ _ _.
                  option_split (λ (r : Manager f). IsKeyed r.cat) (get m.idx id) (λ _. kept)
                    (λ _ _. kept))
                (λ _ _. kept)))

  admit-IsKeyed :
      (now : ℤ) (m : Manager f) (id : String) (a : Account) (key model : String) (attempt : ℕ)
      → IsKeyed m.cat
      → IsKeyed (admit f now m id a key model attempt).0.cat
  unfolding admit seat
  admit-IsKeyed now m id a key model attempt keyed =
      let (m', pair) = egress f now m id a in
      let kept = egress-IsKeyed now m id a keyed in
      let P = λ (r : Manager f × Result LeaseError Lease). IsKeyed r.0.cat in
      if_split P ((pair.0 == "") && m.require_proxy) {x = (m', err requires_proxy)}
        {y = seat f m' id (lease_of f a pair key model attempt)} (λ _. kept)
        (λ _. result_split P (add_inflight m'.idx id).1 (λ _ _. kept) (λ _ _. kept))

  lease_account-IsKeyed :
      (now : ℤ) (m : Manager f) (id key model : String) (attempt : ℕ)
      → IsKeyed m.cat
      → IsKeyed (lease_account f now m id key model attempt).0.cat
  unfolding lease_account check_model
  lease_account-IsKeyed now m id key model attempt keyed =
      let P = λ (r : Manager f × Result LeaseError Lease). IsKeyed r.0.cat in
      let (m', cooling) = check_model f now m id model in
      let kept : IsKeyed m'.cat =
        if_split (λ (r : Manager f × Bool). IsKeyed r.0.cat) (model == "") (λ _. keyed)
          (λ _. keyed) in
      result_split P (get_account m.cat id)
        (λ a _.
          if_split P (not (account_usable a now)) (λ _. keyed)
            (λ _.
              if_split P cooling (λ _. kept)
                (λ _. admit-IsKeyed now m' id a key model attempt kept)))
        (λ _ _. keyed)

  seated-Counted :
      (now : ℤ) (m : Manager f) (id : String) (r : Manager f × Result LeaseError Lease)
      → IsKeyed m.cat
      → Attempted f now m id r
      → Counted m.idx r
  unfolding Counted Attempted get_account
  seated-Counted now m id (m', err e) keyed h = h
  seated-Counted now m id (m', ok l) keyed h =
      let own : l.account_id ≡ id = h.is_lease.0 ∙ keyed id h.account (ground (arith, h.row)) in
      let (n, (known, grown)) = live-added m.idx id h.added in
      rw own (n, (known, λ j. h.slot j ∙ grown j))

  once-Counted :
      (now : ℤ) (m : Manager f) (key model : String) (tried : IdSet) (attempt : ℕ)
      (draw : ℕ → ℕ → ℕ) (uniform : ℕ → f.F)
      → IsNamed m.idx.hot
      → IsKeyed m.cat
      → (let r = acquire_once f now m key model tried attempt draw uniform in
          Counted m.idx (r.0, r.1.1) × IsKeyed r.0.cat)
  unfolding acquire_once Counted
  once-Counted now m key model tried attempt draw uniform n keyed =
      let (sel', picked) = pick_excluding f now m.idx m.sel now key tried draw uniform in
      let m' = record m { sel = sel' } in
      let P = λ (r : Manager f × (IdSet × Result LeaseError Lease)).
        Counted m.idx (r.0, r.1.1) × IsKeyed r.0.cat in
      option_split P picked (λ _. (IsSame-refl m.idx, keyed))
        (λ id at.
          if_split P (id == "") (λ _. (IsSame-refl m.idx, keyed))
            (λ _. (
              seated-Counted now m' id (lease_account f now m' id key model attempt) keyed
                  (lease_account-Attempted f now m' id key model attempt n),
              lease_account-IsKeyed now m' id key model attempt keyed,
            )))

  after_same :
      (a b : Index) (r : Manager f × Result LeaseError Lease)
      → IsSame a b
      → Counted b r
      → Counted a r
  unfolding Counted
  after_same a b (m', err e) s h = IsSame-trans a b m'.idx s h
  after_same a b (m', ok l) s (n, (known, grown)) =
      (n, (sym (s.counts l.account_id) ∙ known, λ j. ground (arith, grown j, s.counts j)))

  failed-IsSame :
      (idx : Index) (m' : Manager f) (r : Result LeaseError Lease) (e : LeaseError)
      → r ≡ err e
      → Counted idx (m', r)
      → IsSame idx m'.idx
  unfolding Counted
  failed-IsSame idx m' (ok l) e h c = ground arith
  failed-IsSame idx m' (err g) e h c = c

  loop-Counted :
      (clock : ℕ → ℤ) (draw : ℕ → ℕ → ℕ → ℕ) (uniform : ℕ → ℕ → f.F) (left attempt : ℕ)
      (m : Manager f) (key model : String) (tried : IdSet) (last : LeaseError)
      → IsNamed m.idx.hot
      → IsKeyed m.cat
      → Counted m.idx (acquire_loop f clock draw uniform left attempt m key model tried last)
  unfolding acquire_loop Counted
  loop-Counted clock draw uniform zero attempt m key model tried last n keyed = IsSame-refl m.idx
  loop-Counted clock draw uniform (suc left) attempt m key model tried last n keyed =
      let r =
        acquire_once f (clock attempt) m key model tried attempt (draw attempt) (uniform attempt) in
      let (c, kept) =
        once-Counted (clock attempt) m key model tried attempt (draw attempt) (uniform attempt) n
          keyed in
      result_split (Counted m.idx) r.1.1
        (λ l at. subst (λ (x : Result LeaseError Lease). Counted m.idx (r.0, x)) at c)
        (λ e at.
          let s = failed-IsSame m.idx r.0 r.1.1 e at c in
          if_split (Counted m.idx) (is_no_account e) (λ _. s)
            (λ _.
              after_same m.idx r.0.idx
                (acquire_loop f clock draw uniform left (attempt + 1) r.0 key model r.1.0 e) s
                (loop-Counted clock draw uniform left (attempt + 1) r.0 key model r.1.0 e
                  (s.names n) kept)))

  -- However many attempts a call of Acquire makes and however each of them fails, the call takes one
  -- slot of one account when it gives a lease: of the account that the lease names, which the hot set
  -- knows, and whose count, a 32-bit one, grows by one; every other count stays. When it gives none,
  -- every count stays. Every account must be stored under its own id, in the hot set and in the
  -- catalog.
  pub acquire-Counted :
      (clock : ℕ → ℤ) (draw : ℕ → ℕ → ℕ → ℕ) (uniform : ℕ → ℕ → f.F) (m : Manager f)
      (key model : String)
      → IsNamed m.idx.hot
      → IsKeyed m.cat
      → Counted m.idx (acquire f clock draw uniform m key model)
  unfolding acquire
  acquire-Counted clock draw uniform m key model n keyed =
      loop-Counted clock draw uniform (pos_part m.cfg.max_attempts) 1 m key model [] no_account n
        keyed
