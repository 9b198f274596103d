-- ===== src/Clients/Token.antt =====
-- internal/clients/types.go: the rows of the table api_tokens and the requests on them.
use grokbuild_pool.Base.{ℤ, String, Bool, Option, List}

pub record Token : Type 0 where
  pub id : String
  pub name : String
  pub key_prefix : String
  pub key_hash : String
  pub api_key : String
  pub enabled : Bool
  pub remain_quota : ℤ
  pub unlimited_quota : Bool
  pub max_concurrent : ℤ
  pub rpm : ℤ
  pub used_quota : ℤ
  pub request_count : ℤ
  pub expires_at : ℤ
  pub created_at : ℤ
  pub updated_at : ℤ
  pub last_used_at : ℤ

pub data ClientError : Type 0 where
  not_found disabled expired quota_exceeded unauthorized concurrency_limit rpm_limit : ClientError
  empty_token_id name_empty negative_field : ClientError

pub record AuthInfo : Type 0 where
  pub token_id : String
  pub name : String
  pub max_concurrent : ℤ
  pub rpm : ℤ

pub record PatchRequest : Type 0 where
  pub name : Option String
  pub remain_quota : Option ℤ
  pub unlimited_quota : Option Bool
  pub max_concurrent : Option ℤ
  pub rpm : Option ℤ
  pub enabled : Option Bool
  pub expires_at : Option ℤ

-- The table by its primary key.
abbrev pub Table : Type 0
Table = List (String × Token)
