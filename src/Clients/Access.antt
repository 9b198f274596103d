-- ===== src/Clients/Access.antt =====
-- internal/clients/store.go: what a successful authentication says of the table.
use grokbuild_pool.Base.{
  ℤ, pos, ◌≤ℤ◌, ◌<ℤ◌, String, true, false, [], ◌∷◌, Option, some, ◌==◌, string_eq, eq_iff, Result,
  ok, ◌≡◌, arith, ◌⊎◌, subst, ◌≢◌, trim_space, if_split, option_split,
}
use grokbuild_pool.Clients.Token.{Token, Table, ClientError, AuthInfo}
use grokbuild_pool.Clients.Store.{authenticate, by_hash, check_token}

-- A row of the table.
pub data IsRow (t : Token) : Table → Type 0 where
  here : {id : String} {db : Table} → IsRow t ((id, t) ∷ db)
  there : {id : String} {u : Token} {db : Table} → IsRow t db → IsRow t ((id, u) ∷ db)

-- A token that requests may use at a time: enabled, not past its time, and with some quota.
unfoldable pub MayUse : ℤ → Token → Type 0
MayUse clock t =
    (t.enabled ≡ true)
    × ((t.expires_at ≤ℤ pos 0) ⊎ (clock ≤ℤ t.expires_at))
    × ((t.unlimited_quota ≡ true) ⊎ (pos 0 <ℤ t.remain_quota))

same_value : (u t : Token) → some u ≡ some t → u ≡ t
same_value u t e = cc

by_hash-IsRow :
    (db : Table) (hash : String) (t : Token)
    → by_hash db hash ≡ some t
    → IsRow t db × (t.key_hash ≡ hash)
unfolding by_hash
by_hash-IsRow [] hash t = ground arith
by_hash-IsRow ((id, u) ∷ db) hash t =
    let P = λ (o : Option Token). o ≡ some t → IsRow t ((id, u) ∷ db) × (t.key_hash ≡ hash) in
    if_split P (u.key_hash == hash)
      (λ same e.
        subst (λ (v : Token). IsRow v ((id, u) ∷ db) × (v.key_hash ≡ hash)) (same_value u t e)
          (here, (eq_iff u.key_hash hash).0 same))
      (λ _ e. let (row, same) = by_hash-IsRow db hash t e in (there row, same))

-- What the gate and the handlers learn of a token.
unfoldable pub info_of : Token → AuthInfo
info_of t = record {
  token_id = t.id;
  name = t.name;
  max_concurrent = t.max_concurrent;
  rpm = t.rpm;
}

check_token-MayUse :
    (clock : ℤ) (t : Token) (info : AuthInfo)
    → check_token clock t ≡ ok info
    → MayUse clock t × (info ≡ info_of t)
unfolding check_token MayUse info_of
check_token-MayUse clock t info e = ground arith

-- Only a token that may be used gets in: a request that authenticates has given a text that is not
-- blank, a row of the table has the hash of its trimmed text, that row is enabled, not past its
-- time and not out of quota, and the answer carries its id, name and limits.
pub authenticate-MayUse :
    (hash_key : String → String) (clock : ℤ) (db : Table) (plaintext : String) (info : AuthInfo)
    → authenticate hash_key clock db plaintext ≡ ok info
    → (trim_space plaintext ≢ "")
      × (t : Token) × IsRow t db
      × (t.key_hash ≡ hash_key (trim_space plaintext))
      × MayUse clock t
      × (info ≡ info_of t)
unfolding authenticate
authenticate-MayUse hash_key clock db plaintext info =
    let P = λ (r : Result ClientError AuthInfo).
      r ≡ ok info
      → (trim_space plaintext ≢ "")
        × (t : Token) × IsRow t db
        × (t.key_hash ≡ hash_key (trim_space plaintext))
        × MayUse clock t
        × (info ≡ info_of t) in
    let given : ((trim_space plaintext == "") ≡ false) → trim_space plaintext ≢ "" =
      λ filled same. ground (arith, eq_iff (trim_space plaintext) "") in
    if_split P (trim_space plaintext == "") (λ _ e. ground arith)
      (λ filled.
        option_split P (by_hash db (hash_key (trim_space plaintext))) (λ _ e. ground arith)
          (λ t at e.
            let (row, same) = by_hash-IsRow db (hash_key (trim_space plaintext)) t at in
            let (fine, known) = check_token-MayUse clock t info e in
            (given filled, t, row, same, fine, known)))
