-- ===== src/Auth/Fixture.antt =====
-- A platform of the authentication service in memory with one user, for tests.
use distributed_nestjs_event.Base.{
  ℕ, ◌+◌, ◌*◌, ◌≡◌, ◌≢◌, true, false, none, some, [], arith, ◌==◌, if◌then◌else◌,
}
use distributed_nestjs_event.External.Memory.{memory_repository}
use distributed_nestjs_event.Auth.Types.{
  Platform, State, Crypto, User, UserRole, RefreshToken, user_key, token_key,
}

-- Digests are even and bcrypt hashes odd, and the salt is forgotten.
pub hash_ne_digest : (salt p t : ℕ) → p * 2 + 1 ≢ t * 2
hash_ne_digest salt p t = λ e. omega arith

pub compare_hash : (salt p : ℕ) → (p * 2 + 1 == p * 2 + 1) ≡ true
compare_hash salt p = ground arith

abbrev pub parity_crypto : Crypto
parity_crypto = record {
  sha256 = λ t. t * 2;
  bcrypt_hash = λ salt p. p * 2 + 1;
  bcrypt_compare = λ p h. p * 2 + 1 == h;
  compare-hash = compare_hash;
  hash-ne-sha256 = hash_ne_digest;
}

abbrev pub platform : Platform
platform = record {
  users = memory_repository user_key;
  refresh_tokens = memory_repository token_key;
  crypto = parity_crypto;
  uuid = λ k. k + 900;
  sign = λ now payload. now + payload.sub;
  set_hours = λ n now. now + n * 60 * 60 * 1000;
  set_expiry_date = λ now. now + 30 * 24 * 60 * 60 * 1000;
}

-- User 0 with the password 5, who has asked for a reset with the token 70.
abbrev pub member : User
member = record {
  id = 0;
  email = 20;
  password_hash = some 11;
  full_name = 1;
  phone = none;
  role = UserRole.user;
  email_verified = false;
  email_verification_token = none;
  email_verification_expires = none;
  password_reset_token = some 140;
  password_reset_expires = some 9000;
  created_at = 10;
}

-- An open session of the user, with the token 80.
abbrev pub session : RefreshToken
session = record {
  id = 0;
  user_id = 0;
  token_hash = 160;
  device_info = none;
  expires_at = 90000;
  revoked_at = none;
  created_at = 10;
}

abbrev pub start : State platform
start = record {
  now = 5000;
  user_rows = record { bound = 1; cell = λ i. if i == 0 then some member else none };
  token_rows = record { bound = 1; cell = λ i. if i == 0 then some session else none };
  drawn = 3;
  sent = [];
}
