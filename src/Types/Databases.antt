-- ===== src/Types/Databases.antt =====
-- packages/shared/src/api-types.ts: found database servers and their databases.
use server_hub.Prelude.{ℕ, Bool, List, Option}
use server_hub.Text.{Text}

pub record DbServerInfo : Type 0 where
  pub key : Text
  pub engine : Text
  pub source : Text
  pub name : Text
  pub host : Text
  pub port : ℕ
  pub container : Text
  pub version : Text
  pub state : Text
  pub verified : Bool
  pub has_creds : Bool
  pub registered : List Text

-- `size_bytes` is none where the server sends -1, as it is unknown.
pub record DbItem : Type 0 where
  pub name : Text
  pub size_bytes : Option ℕ
  pub registered : Bool
  pub system : Bool

pub record DbTarget : Type 0 where
  pub engine : Text
  pub source : Text
  pub host : Text
  pub port : ℕ
  pub container : Text
  pub username : Option Text
  pub password : Option Text
