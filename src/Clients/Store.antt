-- ===== src/Clients/Store.antt =====
-- internal/clients/store.go: the statements on the table api_tokens. The database answers as SQL
-- says; that it may fail to answer is not modelled. `clock` is the reading of the clock.
use grokbuild_pool.Base.{
  ℤ, pos, ltb_ℤ, leb_ℤ, String, Bool, not, ◌&&◌, [], ◌∷◌, Option, none, some, if◌then◌else◌, ◌==◌,
  string_eq, lookup, insert, delete, has, Result, ok, err, trim_space,
}
use grokbuild_pool.Clients.Token.{
  Token, ClientError, not_found, disabled, expired, quota_exceeded, unauthorized, name_empty,
  negative_field, AuthInfo, PatchRequest, Table,
}

unfoldable pub get_by_id : Table → String → Result ClientError Token
get_by_id db id = elim (lookup id db) [ none ↦ err not_found | some t ↦ ok t ]

unfoldable pub delete_row : Table → String → Table × Result ClientError (Unit {0})
delete_row db id = if has id db then (delete id db, ok tt) else (db, err not_found)

unfoldable pub set_enabled : ℤ → Table → String → Bool → Table × Result ClientError (Unit {0})
set_enabled clock db id on = elim (lookup id db) [
  | none ↦ (db, err not_found)
  | some t ↦ (insert id (record t { enabled = on; updated_at = clock }) db, ok tt)
]

-- A field that is not given stays; a negative number is refused.
abbrev pub patch_number : Option ℤ → ℤ → Result ClientError ℤ
patch_number none old = ok old
patch_number (some n) old = if ltb_ℤ n (pos 0) then err negative_field else ok n

abbrev pub patch_flag : Option Bool → Bool → Bool
patch_flag none old = old
patch_flag (some b) old = b

abbrev pub patch_name : Option String → String → Result ClientError String
patch_name none old = ok old
patch_name (some s) old = if trim_space s == "" then err name_empty else ok (trim_space s)

-- The row that `Patch` writes, or the first field that is refused.
unfoldable pub patched : ℤ → Token → PatchRequest → Result ClientError Token
patched clock t req = elim (patch_name req.name t.name) [
  | err e ↦ err e
  | ok name' ↦ elim (patch_number req.remain_quota t.remain_quota) [
    | err e ↦ err e
    | ok remain ↦ elim (patch_number req.max_concurrent t.max_concurrent) [
      | err e ↦ err e
      | ok conc ↦ elim (patch_number req.rpm t.rpm) [
        | err e ↦ err e
        | ok rpm' ↦ elim (patch_number req.expires_at t.expires_at) [
          | err e ↦ err e
          | ok expires ↦ ok (record t {
            name = name';
            remain_quota = remain;
            unlimited_quota = patch_flag req.unlimited_quota t.unlimited_quota;
            max_concurrent = conc;
            rpm = rpm';
            enabled = patch_flag req.enabled t.enabled;
            expires_at = expires;
            updated_at = clock;
          })
        ]
      ]
    ]
  ]
]

unfoldable pub patch : ℤ → Table → String → PatchRequest → Table × Result ClientError Token
unfolding patched
patch clock db id req = elim (lookup id db) [
  | none ↦ (db, err not_found)
  | some t ↦ elim (patched clock t req) [ err e ↦ (db, err e) | ok t' ↦ (insert id t' db, ok t') ]
]

-- The row whose unique key_hash is the given one.
unfoldable pub by_hash : Table → String → Option Token
by_hash [] hash = none
by_hash ((id, t) ∷ db) hash = if t.key_hash == hash then some t else by_hash db hash

unfoldable pub check_token : ℤ → Token → Result ClientError AuthInfo
check_token clock t =
    if not t.enabled
    then err disabled
    else if ltb_ℤ (pos 0) t.expires_at && ltb_ℤ t.expires_at clock
    then err expired
    else if not t.unlimited_quota && leb_ℤ t.remain_quota (pos 0)
    then err quota_exceeded
    else ok
        (record { token_id = t.id; name = t.name; max_concurrent = t.max_concurrent; rpm = t.rpm })

-- `hash_key` is the hex SHA-256 of crypto/sha256.
unfoldable pub authenticate : (String → String) → ℤ → Table → String → Result ClientError AuthInfo
unfolding by_hash check_token
authenticate hash_key clock db plaintext =
    if trim_space plaintext == ""
    then err unauthorized
    else elim (by_hash db (hash_key (trim_space plaintext))) [
      | none ↦ err unauthorized
      | some t ↦ check_token clock t
    ]
