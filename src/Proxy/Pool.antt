-- ===== src/Proxy/Pool.antt =====
-- internal/proxypool/pool.go: the nodes and their health. That the file is rewritten after each
-- change is not modelled; `short_id`, `validate` and `mode_of` stand for the hash of a URL
-- (crypto/sha256), for `ValidateURL` and for `ModeFromURL`, which ask net/url; `hash` gives the first
-- eight bytes of the SHA-256 of an account id.
use Prim.Native.Char.{code}
use grokbuild_pool.Base.{
  ℕ, zero, suc, ◌+◌, ◌*◌, ◌%◌, ◌^◌, ltb, ℤ, pos, pos_part, ◌+ℤ◌, ◌-ℤ◌, ltb_ℤ, leb_ℤ, eqb_ℤ, String,
  Bool, true, false, not, ◌&&◌, leb, eqb, List, [], ◌∷◌, ◌++◌, Option, none, some, length,
  get_elem?, if◌then◌else◌, ◌==◌, ◌/=◌, string_eq, has, insert, trim_space, Result, ok, err,
}

pub record Node : Type 0 where
  pub id : String
  pub url : String
  pub enabled : Bool
  pub weight : ℤ
  pub fail_count : ℤ
  pub cooldown_until : ℤ
  pub last_error : String
  pub assigned_accounts : ℤ

pub data PoolError : Type 0 where
  bad_url duplicate_id : PoolError

unfoldable pub normalize_node : (String → String) → Node → Node
normalize_node short_id n =
    let id' = trim_space n.id in
    let url' = trim_space n.url in
    record n {
      id = if (id' == "") && (url' /= "") then short_id url' else id';
      url = url';
      weight = if leb_ℤ n.weight (pos 0) then pos 1 else n.weight;
    }

-- The runtime health of an old node with the same id and url.
unfoldable pub keep_health : List Node → Node → Node
keep_health [] n = n
keep_health (old ∷ olds) n =
    let rest = keep_health olds n in
    if (old.id == n.id) && (old.url == n.url)
    then record n {
      fail_count = old.fail_count;
      cooldown_until = old.cooldown_until;
      last_error = old.last_error;
      assigned_accounts = old.assigned_accounts;
    }
    else rest

-- The loop of `ReplaceAll`; a node without a URL is left out, so a node that is kept has an id.
unfoldable pub clean_loop :
    (String → String)
    → (String → Bool)
    → List Node
    → List Node
    → List (String × Unit {0})
    → List Node
    → Result PoolError (List Node)
unfolding normalize_node keep_health
clean_loop short_id validate olds [] seen clean = ok clean
clean_loop short_id validate olds (given ∷ nodes) seen clean =
    let n = normalize_node short_id given in
    let skip = clean_loop short_id validate olds nodes seen clean in
    let rest =
      clean_loop short_id validate olds nodes (insert n.id tt seen)
        (clean ++ keep_health olds n ∷ []) in
    if n.url == ""
    then skip
    else if not (validate n.url)
    then err bad_url
    else if has n.id seen
    then err duplicate_id
    else rest

unfoldable pub replace_all :
    (String → String)
    → (String → Bool)
    → List Node
    → List Node
    → List Node × Result PoolError (Unit {0})
unfolding clean_loop
replace_all short_id validate pool nodes = elim (clean_loop short_id validate pool nodes [] []) [
  | err e ↦ (pool, err e)
  | ok clean ↦ (clean, ok tt)
]

abbrev pub is_healthy : ℤ → Node → Bool
is_healthy now n = n.enabled && ((n.url /= "") && not (ltb_ℤ now n.cooldown_until))

-- The indices of the healthy nodes, from index i on.
unfoldable pub healthy : ℤ → ℕ → List Node → List ℕ
healthy now i [] = []
healthy now i (n ∷ nodes) =
    let rest = healthy now (i + 1) nodes in if is_healthy now n then i ∷ rest else rest

abbrev pub assigned_at : List Node → ℕ → ℤ
assigned_at nodes i = elim (get_elem? nodes i) [ none ↦ pos 0 | some n ↦ n.assigned_accounts ]

-- The loop over `idxs[1:]` for the node with the fewest accounts.
unfoldable pub least : List Node → ℕ → List ℕ → ℕ
least nodes pick [] = pick
least nodes pick (i ∷ idxs) =
    let taken = least nodes i idxs in
    let kept = least nodes pick idxs in
    if ltb_ℤ (assigned_at nodes i) (assigned_at nodes pick) then taken else kept

abbrev pub assign_least_accounts : String
assign_least_accounts = "least_accounts"

abbrev lower_code : ℕ → ℕ
lower_code n = if leb 65 n && leb n 90 then n + 32 else n

-- Is the text in lower case that other one? No character outside ASCII has a letter of a mode's name
-- as its lower case.
unfoldable pub lowers_to : String → String → Bool
lowers_to String.[] String.[] = true
lowers_to String.[] (String.◌∷◌ d t) = false
lowers_to (String.◌∷◌ c s) String.[] = false
lowers_to (String.◌∷◌ c s) (String.◌∷◌ d t) = eqb (lower_code (code c)) (code d) && lowers_to s t

-- The index that a mode picks.
unfoldable pub choose : (String → ℕ) → List Node → String → String → ℕ → List ℕ → ℕ
unfolding least lowers_to
choose hash nodes account mode i idxs =
    if lowers_to (trim_space mode) assign_least_accounts
    then least nodes i idxs
    else elim (get_elem? (i ∷ idxs) (hash (trim_space account) % suc (length idxs))) [
      | none ↦ i
      | some j ↦ j
    ]

unfoldable pub update_at : ℕ → (Node → Node) → List Node → List Node
update_at i g [] = []
update_at zero g (n ∷ nodes) = g n ∷ nodes
update_at (suc i) g (n ∷ nodes) = n ∷ update_at i g nodes

abbrev pub count_account : Node → Node
count_account n = record n { assigned_accounts = n.assigned_accounts +ℤ pos 1 }

unfoldable pub pick :
    (String → ℕ)
    → (String → String)
    → ℤ
    → List Node
    → String
    → String
    → List Node × Option (String × String)
unfolding healthy choose update_at
pick hash mode_of now nodes account mode = elim (healthy now 0 nodes) [
  | [] ↦ (nodes, none)
  | i ∷ idxs ↦
      (let j = choose hash nodes account mode i idxs in
        (
          update_at j count_account nodes,
          elim (get_elem? nodes j) [ none ↦ none | some n ↦ some (n.url, mode_of n.url) ],
        ))
]

-- The first node with the URL changes.
unfoldable pub update_url : String → (Node → Node) → List Node → List Node
update_url url g [] = []
update_url url g (n ∷ nodes) =
    let rest = update_url url g nodes in if n.url == url then g n ∷ nodes else n ∷ rest

-- `fail - 1`, from 0 to 4.
unfoldable pub fail_exponent : ℤ → ℕ
fail_exponent fail_count =
    let e = fail_count -ℤ pos 1 in
    if ltb_ℤ e (pos 0) then 0 else if ltb_ℤ (pos 4) e then 4 else pos_part e

-- 30 seconds, doubled up to four times, and at most 15 minutes.
unfoldable pub fail_seconds : ℤ → ℤ
unfolding fail_exponent
fail_seconds fail_count =
    let sec = 30 * 2 ^ fail_exponent fail_count in if ltb 900 sec then pos 900 else pos sec

unfoldable pub failed : ℤ → String → Node → Node
unfolding fail_seconds
failed now msg n =
    let fc = n.fail_count +ℤ pos 1 in
    record n {
      fail_count = fc;
      last_error = trim_space msg;
      cooldown_until = now +ℤ fail_seconds fc;
    }

unfoldable pub mark_fail : ℤ → List Node → String → String → List Node
unfolding update_url failed
mark_fail now nodes given_url msg =
    let url = trim_space given_url in
    if url == "" then nodes else update_url url (failed now msg) nodes

unfoldable pub recovered : Node → Node
recovered n =
    let fc = if ltb_ℤ (pos 0) n.fail_count then n.fail_count -ℤ pos 1 else n.fail_count in
    record n {
      fail_count = fc;
      last_error = "";
      cooldown_until = if eqb_ℤ fc (pos 0) then pos 0 else n.cooldown_until;
    }

unfoldable pub mark_ok : List Node → String → List Node
unfolding update_url recovered
mark_ok nodes given_url =
    let url = trim_space given_url in if url == "" then nodes else update_url url recovered nodes

unfoldable pub healthy_count : ℤ → List Node → ℕ
unfolding healthy
healthy_count now nodes = length (healthy now 0 nodes)
