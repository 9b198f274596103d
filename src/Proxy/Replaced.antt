-- ===== src/Proxy/Replaced.antt =====
-- internal/proxypool/pool.go (ReplaceAll): the ids of a new list, and the recovery of a node.
use grokbuild_pool.Base.{
  String, Bool, true, false, not, ◌≡◌, ◌≢◌, refl, ap, subst, arith, List, [], ◌∷◌, ◌++◌, All,
  All-append, if_split, ◌==◌, string_eq, eq_iff, has, insert, lookup-insert, Result, ok, err,
  result_split,
}
use grokbuild_pool.Proxy.Pool.{
  Node, PoolError, clean_loop, replace_all, keep_health, normalize_node,
}

-- No two nodes share an id.
abbrev pub IsDistinct : List Node → Type 0
IsDistinct [] = Unit {0}
IsDistinct (n ∷ nodes) = All (λ m. m.id ≢ n.id) nodes × IsDistinct nodes

append-IsDistinct :
    (nodes : List Node) (n : Node)
    → IsDistinct nodes
    → All (λ m. n.id ≢ m.id) nodes
    → IsDistinct (nodes ++ n ∷ [])
append-IsDistinct [] n d h = (tt, tt)
append-IsDistinct (m ∷ nodes) n d h =
    (All-append (λ w. w.id ≢ m.id) nodes (n ∷ []) d.0 (h.0, tt), append-IsDistinct nodes n d.1 h.1)

id-keep_health : (olds : List Node) (n : Node) → (keep_health olds n).id ≡ n.id
unfolding keep_health
id-keep_health [] n = refl
id-keep_health (old ∷ olds) n = ground (arith, id-keep_health olds n)

abbrev Seen : Type 0
Seen = List (String × Unit {0})

fresh-of :
    (nodes : List Node) (seen : Seen) (id : String)
    → has id seen ≡ false
    → All (λ m. has m.id seen ≡ true) nodes
    → All (λ m. id ≢ m.id) nodes
fresh-of [] seen id h k = tt
fresh-of (m ∷ nodes) seen id h k =
    ((λ e. ground (arith, ap (λ i. has i seen) e)), fresh-of nodes seen id h k.1)

seen-insert :
    (nodes : List Node) (seen : Seen) (id : String)
    → All (λ m. has m.id seen ≡ true) nodes
    → All (λ m. has m.id (insert id tt seen) ≡ true) nodes
seen-insert [] seen id k = tt
seen-insert (m ∷ nodes) seen id k =
    (ground (arith, lookup-insert id m.id tt seen), seen-insert nodes seen id k.1)

Good : Result PoolError (List Node) → Type 0
Good (ok nodes) = IsDistinct nodes
Good (err e) = Unit {0}

clean_loop-Good :
    (short_id : String → String) (validate : String → Bool) (olds nodes : List Node) (seen : Seen)
    (clean : List Node)
    → IsDistinct clean
    → All (λ m. has m.id seen ≡ true) clean
    → Good (clean_loop short_id validate olds nodes seen clean)
unfolding clean_loop Good
clean_loop-Good short_id validate olds [] seen clean d k = d
clean_loop-Good short_id validate olds (given ∷ nodes) seen clean d k =
    let n = normalize_node short_id given in
    let n' = keep_health olds n in
    let seen' = insert n.id tt seen in
    let same = id-keep_health olds n in
    if_split Good (n.url == "") (λ _. clean_loop-Good short_id validate olds nodes seen clean d k)
      (λ _.
        if_split Good (not (validate n.url)) (λ _. tt)
          (λ _.
            if_split Good (has n.id seen) (λ _. tt)
              (λ fresh.
                clean_loop-Good short_id validate olds nodes seen' (clean ++ n' ∷ [])
                  (append-IsDistinct clean n' d
                    (fresh-of clean seen n'.id (ground (arith, ap (λ i. has i seen) same)) k))
                  (All-append (λ m. has m.id seen' ≡ true) clean (n' ∷ [])
                    (seen-insert clean seen n.id k)
                    (
                      ground (arith, same, lookup-insert n.id n'.id tt seen, eq_iff n.id n'.id),
                      tt,
                    )))))

-- A replacement keeps the ids of the pool distinct, whether it succeeds or is refused, and a refused
-- one changes nothing.
pub replace_all-IsDistinct :
    (short_id : String → String) (validate : String → Bool) (pool nodes : List Node)
    → IsDistinct pool
    → (let (pool', answer) = replace_all short_id validate pool nodes in
        IsDistinct pool' × ((e : PoolError) → answer ≡ err e → pool' ≡ pool))
unfolding replace_all Good
replace_all-IsDistinct short_id validate pool nodes d =
    let good = clean_loop-Good short_id validate pool nodes [] [] tt tt in
    result_split
      (λ (x : List Node × Result PoolError (Unit {0})).
        IsDistinct x.0 × ((e : PoolError) → x.1 ≡ err e → x.0 ≡ pool))
      (clean_loop short_id validate pool nodes [] [])
      (λ clean at. (subst Good at good, λ e h. ground arith)) (λ e at. (d, λ _ _. refl))
