-- ===== src/Auth/Types.antt =====
-- The entities of the authentication service (apps/auth-service/src/user/entities), what it uses and
-- does not implement, and the state of one of its requests.
use distributed_nestjs_event.Base.{ℕ, ◌≡◌, ◌≢◌, Option, Bool, true, List}
use distributed_nestjs_event.External.Repository.{Repository}

pub data UserRole : Type 0 where
  user admin organizer : UserRole

-- Times are in milliseconds; hashes, and texts that are only copied or compared, are numbers. The
-- password's hash is missing in an entity from which it has been taken out.
pub record User : Type 0 where
  pub id : ℕ
  pub email : ℕ
  pub password_hash : Option ℕ
  pub full_name : ℕ
  pub phone : Option ℕ
  pub role : UserRole
  pub email_verified : Bool
  pub email_verification_token : Option ℕ
  pub email_verification_expires : Option ℕ
  pub password_reset_token : Option ℕ
  pub password_reset_expires : Option ℕ
  pub created_at : ℕ

pub record RefreshToken : Type 0 where
  pub id : ℕ
  pub user_id : ℕ
  pub token_hash : ℕ
  pub device_info : Option ℕ
  pub expires_at : ℕ
  pub revoked_at : Option ℕ
  pub created_at : ℕ

pub record CreateUserDto : Type 0 where
  pub email : ℕ
  pub password : ℕ
  pub full_name : ℕ
  pub phone : Option ℕ

pub record JwtPayload : Type 0 where
  pub sub : ℕ
  pub email : ℕ
  pub role : UserRole
  pub email_verified : Bool

abbrev pub user_key : User → ℕ
user_key u = u.id

abbrev pub token_key : RefreshToken → ℕ
token_key t = t.id

-- The mails that go out by Kafka: the user's id, address and name, the token of the link and the
-- time at which it expires.
pub data AuthMessage : Type 0 where
  email_verification : ℕ → ℕ → ℕ → ℕ → ℕ → AuthMessage
  password_reset : ℕ → ℕ → ℕ → ℕ → ℕ → AuthMessage

-- The hashes of `crypto` and `bcrypt`, by the salt that is drawn. A bcrypt hash is a text of 60
-- characters that begins with `$2b$`, and a SHA-256 digest one of 64 hexadecimal digits.
pub record Crypto : Type 0 where
  pub sha256 : ℕ → ℕ
  pub bcrypt_hash : ℕ → ℕ → ℕ
  pub bcrypt_compare : ℕ → ℕ → Bool
  pub compare-hash : (salt p : ℕ) → bcrypt_compare p (bcrypt_hash salt p) ≡ true
  pub hash-ne-sha256 : (salt p t : ℕ) → bcrypt_hash salt p ≢ sha256 t

-- The tables behind the service, its hashes, the UUIDs that it draws, the signer of the access
-- tokens, and what the methods of `Date` compute in the time zone and with the configuration of the
-- service: `set_hours n now` is `now` after `setHours(getHours() + n)`, and `set_expiry_date now`
-- after `setDate(getDate() + refreshTokenExpiryDays)`.
pub record Platform : Type 1 where
  pub users : Repository User user_key
  pub refresh_tokens : Repository RefreshToken token_key
  pub crypto : Crypto
  pub uuid : ℕ → ℕ
  pub sign : ℕ → JwtPayload → ℕ
  pub set_hours : ℕ → ℕ → ℕ
  pub set_expiry_date : ℕ → ℕ

module _ (P : Platform) where
  open P use {users, refresh_tokens}

  -- `drawn` counts the random values, and `sent` holds the messages, the last one first.
  pub record State : Type 0 where
    pub now : ℕ
    pub user_rows : users.Table
    pub token_rows : refresh_tokens.Table
    pub drawn : ℕ
    pub sent : List AuthMessage
