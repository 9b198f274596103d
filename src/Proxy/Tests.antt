-- ===== src/Proxy/Tests.antt =====
-- internal/proxypool: concrete inputs.
use grokbuild_pool.Base.{
  ℕ, pos, ◌≤ℤ◌, String, Bool, true, ◌≡◌, [], ◌∷◌, some, arith, get_elem?, string_eq, err,
}
use grokbuild_pool.Proxy.Pool.{
  Node, PoolError, healthy, healthy_count, pick, fail_seconds, replace_all,
}
use grokbuild_pool.Proxy.Health.{IsHealthyAt, pick-healthy, fail_seconds-bounds}
use grokbuild_pool.Proxy.Replaced.{IsDistinct, replace_all-IsDistinct}

abbrev node : Node
node = record {
  id = "p";
  url = "http://h";
  enabled = true;
  weight = pos 1;
  fail_count = pos 0;
  cooldown_until = pos 0;
  last_error = "";
  assigned_accounts = pos 0;
}

abbrev hash : String → ℕ
hash account = 5

abbrev mode_of : String → String
mode_of url = "http"

pick-healthy_example :
    (i : ℕ) × (IsHealthyAt (pos 9) (node ∷ []) i
      × ((n : Node)
          → get_elem? (node ∷ []) i ≡ some n
          → (pick hash mode_of (pos 9) (node ∷ []) "a" "hash").1 ≡ some (n.url, mode_of n.url)))
unfolding healthy_count healthy
pick-healthy_example = pick-healthy hash mode_of (pos 9) (node ∷ []) "a" "hash" (omega arith)

fail_seconds-bounds_example :
    (pos 30 ≤ℤ fail_seconds (pos 1))
    × ((fail_seconds (pos 1) ≤ℤ pos 480) × (pos 1 ≤ℤ pos 1 → fail_seconds (pos 1) ≡ pos 30))
fail_seconds-bounds_example = fail_seconds-bounds (pos 1)

abbrev valid : String → Bool
valid url = true

abbrev short : String → String
short url = url

replace_all-IsDistinct_example :
    (let (pool', answer) = replace_all short valid (node ∷ []) (node ∷ node ∷ []) in
      IsDistinct pool' × ((e : PoolError) → answer ≡ err e → pool' ≡ node ∷ []))
replace_all-IsDistinct_example =
    replace_all-IsDistinct short valid (node ∷ []) (node ∷ node ∷ []) (tt, tt)
