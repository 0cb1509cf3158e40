-- ===== src/Panel/Model.antt =====
-- panel/model.go and the type `Data` of panel/store.go: what the panel keeps. Instants are
-- nanoseconds from the zero time, byte strings are lists of numbers.
use clawdh.Base.{ℕ, String, List, Option, Bool, ltb, is_zero, length, ◌||◌}

abbrev pub Bytes : Type 0
Bytes = List ℕ

pub record Person : Type 0 where
  pub id : String
  pub name : String
  pub email : String
  pub created_at : ℕ

pub record Device : Type 0 where
  pub id : String
  pub person_id : String
  pub name : String
  pub token_hash : String
  pub enrolled_at : ℕ
  pub last_seen : ℕ
  pub remote : Bool
  pub version : String
  pub update_error : String

pub record Account : Type 0 where
  pub id : String
  pub name : String
  pub email : String
  pub plan : String
  pub created_at : ℕ
  pub credential : Bytes
  pub added_by : String

pub record Event : Type 0 where
  pub at : ℕ
  pub who : String
  pub what : String

pub record Share : Type 0 where
  pub id : String
  pub account_id : String
  pub person_id : String
  pub key_hash : String
  pub sealed_key : Bytes
  pub created_at : ℕ
  pub expires_at : ℕ
  pub granted_by : String

pub record JoinCode : Type 0 where
  pub code_hash : String
  pub person_id : String
  pub expires_at : ℕ
  pub used_at : ℕ
  pub invited_by : String

pub record Admin : Type 0 where
  pub salt : Bytes
  pub hash : Bytes

pub record Data : Type 0 where
  pub admin : Option Admin
  pub people : List Person
  pub devices : List Device
  pub accounts : List Account
  pub join_codes : List JoinCode
  pub shares : List Share
  pub activity : List Event

-- Account.HasLogin
unfoldable pub has_login : Account → Bool
has_login a = ltb 0 (length a.credential)

-- Share.Live: no deadline, or the deadline has not passed.
unfoldable pub live : ℕ → Share → Bool
live now sh = is_zero sh.expires_at || ltb now sh.expires_at
