-- ===== src/Hot/Dense.antt =====
-- internal/hot/index.go: the dense id list and the positions mirror each other (addLocked,
-- removeLocked, replaceAllLocked).
use grokbuild_pool.Base.{
  ℕ, ◌+◌, ◌-◌, String, false, ◌≡◌, List, [], ◌∷◌, ◌++◌, none, some, arith, length, get_elem?,
  get_or, set, take, string_eq, ◌==◌, eq_iff, lookup, insert, delete, has, lookup-insert,
  lookup-delete, get_elem?-append, get_elem?-set, get_elem?-take, get_elem?_lt, get_elem?_or,
  length-set, length-take, eqb, if◌then◌else◌, inl, inr, Bool-cases,
}

-- `pos` maps exactly the ids of the list, each to the one place where it stands.
pub record IsDense (ids : List String) (ps : List (String × ℕ)) : Type 0 where
  pub placed : (id : String) (i : ℕ) → lookup id ps ≡ some i → get_elem? ids i ≡ some id
  pub found : (i : ℕ) (id : String) → get_elem? ids i ≡ some id → lookup id ps ≡ some i

pub nil-IsDense : IsDense [] []
unfolding lookup get_elem?
nil-IsDense = record { placed = λ id i h. cc; found = λ i id h. cc }

module _ {ids : List String} {ps : List (String × ℕ)} (d : IsDense ids ps) where
  add_placed :
      (id : String)
      → lookup id ps ≡ none
      → (j : String) (i : ℕ) → lookup j (insert id (length ids) ps) ≡ some i
      → get_elem? (ids ++ id ∷ []) i ≡ some j
  unfolding get_elem?
  add_placed id h j i e = ground (
    arith,
    eq_iff id j,
    lookup-insert id j (length ids) ps,
    get_elem?-append ids (id ∷ []) i,
    d.placed j i,
    get_elem?_lt ids i {x = j},
  )

  add_found :
      (id : String)
      → lookup id ps ≡ none
      → (i : ℕ) (j : String) → get_elem? (ids ++ id ∷ []) i ≡ some j
      → lookup j (insert id (length ids) ps) ≡ some i
  unfolding get_elem?
  add_found id h i j e = ground (
    arith,
    eq_iff id j,
    lookup-insert id j (length ids) ps,
    get_elem?-append ids (id ∷ []) i,
    d.found i j,
    get_elem?_lt (id ∷ []) (i - length ids) {x = j},
  )

  pub add-IsDense :
      (id : String) → lookup id ps ≡ none → IsDense (ids ++ id ∷ []) (insert id (length ids) ps)
  add-IsDense id h = record { placed = add_placed id h; found = add_found id h }

  -- The swap of `removeLocked`: the last id moves to the place of the one removed.
  abbrev moved_id : String
  moved_id = get_or ids (length ids - 1) ""

  remove_last :
      (id : String)
      → lookup id ps ≡ some (length ids - 1)
      → IsDense (take (length ids - 1) ids) (delete id ps)
  remove_last id h = record {
    placed = λ j i e. ground (
      arith,
      eq_iff id j,
      lookup-delete id j ps,
      get_elem?-take (length ids - 1) ids i,
      d.placed j i,
      d.placed id (length ids - 1),
      get_elem?_lt ids i {x = j},
    );
    found = λ i j e. ground (
      arith,
      eq_iff id j,
      lookup-delete id j ps,
      get_elem?-take (length ids - 1) ids i,
      d.found i j,
    );
  }

  remove_placed :
      (id : String) (p : ℕ)
      → lookup id ps ≡ some p
      → eqb p (length ids - 1) ≡ false
      → (j : String) (i : ℕ) → lookup j (delete id (insert moved_id p ps)) ≡ some i
      → get_elem? (take (length ids - 1) (set ids p moved_id)) i ≡ some j
  remove_placed id p h ne j i e = ground (
    arith,
    eq_iff id j,
    eq_iff moved_id j,
    lookup-delete id j (insert moved_id p ps),
    lookup-insert moved_id j p ps,
    get_elem?-take (length ids - 1) (set ids p moved_id) i,
    get_elem?-set ids p i moved_id,
    d.placed id p,
    d.placed j i,
    get_elem?_lt ids p {x = id},
    get_elem?_lt ids i {x = j},
    get_elem?_or ids (length ids - 1) "",
    d.found (length ids - 1) moved_id,
  )

  remove_found :
      (id : String) (p : ℕ)
      → lookup id ps ≡ some p
      → eqb p (length ids - 1) ≡ false
      → (i : ℕ) (j : String) → get_elem? (take (length ids - 1) (set ids p moved_id)) i ≡ some j
      → lookup j (delete id (insert moved_id p ps)) ≡ some i
  remove_found id p h ne i j e = ground (
    arith,
    eq_iff id j,
    eq_iff moved_id j,
    lookup-delete id j (insert moved_id p ps),
    lookup-insert moved_id j p ps,
    get_elem?-take (length ids - 1) (set ids p moved_id) i,
    get_elem?-set ids p i moved_id,
    d.placed id p,
    d.found i j,
    get_elem?_lt ids p {x = id},
    get_elem?_or ids (length ids - 1) "",
    d.found (length ids - 1) moved_id,
  )

  pub remove-IsDense :
      (id : String) (p : ℕ)
      → lookup id ps ≡ some p
      → IsDense
          (take (length ids - 1) (if eqb p (length ids - 1) then ids else set ids p moved_id))
          (delete id (if eqb p (length ids - 1) then ps else insert moved_id p ps))
  remove-IsDense id p h = elim (Bool-cases (eqb p (length ids - 1))) [
    | inl e ↦ rw e (remove_last id (ground arith))
    | inr e ↦ rw e (record { placed = remove_placed id p h e; found = remove_found id p h e })
  ]

  pub length-remove :
      (id : String) (p : ℕ)
      → lookup id ps ≡ some p
      → length (take (length ids - 1) (if eqb p (length ids - 1) then ids else set ids p moved_id))
          + 1
        ≡ length ids
  length-remove id p h = ground (
    arith,
    d.placed id p,
    get_elem?_lt ids p {x = id},
    length-set ids p moved_id,
    length-take (length ids - 1) ids,
    length-take (length ids - 1) (set ids p moved_id),
  )

  -- A removal forgets the one id and keeps what else is there.
  pub has-remove :
      (id : String) (p : ℕ) (j : String)
      → lookup id ps ≡ some p
      → has j (delete id (if eqb p (length ids - 1) then ps else insert moved_id p ps))
        ≡ (if id == j then false else has j ps)
  has-remove id p j h = ground (
    arith,
    eq_iff id j,
    eq_iff moved_id j,
    lookup-delete id j (insert moved_id p ps),
    lookup-delete id j ps,
    lookup-insert moved_id j p ps,
    d.placed id p,
    get_elem?_lt ids p {x = id},
    get_elem?_or ids (length ids - 1) "",
    d.found (length ids - 1) moved_id,
  )
