-- ===== src/Users.antt =====
-- internal/users: the rows of the panel's two tables, the records that the mutation API sees, and
-- the errors of the store. A column that holds a JSON array of texts is modelled by the list: what
-- the store encodes it decodes again. Times are unix seconds.
pub mod Store
pub mod Collector
use xform.Base.{ℕ, String, Bool, List, Option}
use xform.XrayConfig.{Label}

pub data StoreError : Type 0 where
  email_taken client_id_taken roster_not_found : StoreError
  failure : String → StoreError

-- What a method of the store returns beside the new state.
pub data Result {ℓ} (A : Type ℓ) : Type ℓ where
  ok : A → Result A
  err : StoreError → Result A

infixl 5 ◌>>=◌ ◌>>◌
abbrev pub ◌>>=◌ {ℓ κ} : {A : Type ℓ} {B : Type κ} → Result A → (A → Result B) → Result B
err failed >>= next = err failed
ok value >>= next = next value

abbrev pub ◌>>◌ {ℓ} : {C : Type ℓ} → Result (Unit {0}) → Result C → Result C
first >> later = first >>= λ _. later

abbrev pub refuse_if : Bool → StoreError → Result (Unit {0})
refuse_if Bool.true e = err e
refuse_if Bool.false e = ok tt

pub record NewRosterUser : Type 0 where
  pub email : String
  pub client_id : String
  pub inbounds : List String
  pub labels : List Label

pub record RosterRecord : Type 0 where
  pub email : String
  pub client_id : String
  pub inbounds : List String
  pub created_at : ℕ
  pub updated_at : ℕ

-- A nil ClientID or a nil Inbounds is `none`.
pub record RosterEdit : Type 0 where
  pub client_id : Option String
  pub inbounds : Option (List String)
  pub labels : List Label

-- One row of the table `roster`.
pub record RosterRow : Type 0 where
  pub email : String
  pub client_id : String
  pub inbounds : List String
  pub disabled : Bool
  pub deleting : Bool
  pub created_at : ℕ
  pub updated_at : ℕ

-- One row of the table `users`; NULL is `none`.
pub record UserRow : Type 0 where
  pub email : String
  pub labels : Option (List Label)
  pub up_bytes_total : ℕ
  pub down_bytes_total : ℕ
  pub last_seen : Option ℕ
  pub last_ips : Option (List String)
  pub disabled : Bool
  pub first_seen : ℕ

-- The SQLite database; the one row of `xray_totals` is there or not.
pub record Db : Type 0 where
  pub roster : List RosterRow
  pub users : List UserRow
  pub xray_totals : Option (ℕ × ℕ)
