-- ===== src/Auth/Tokens.antt =====
-- The sessions of `AuthService` (apps/auth-service/src/auth/auth.service.ts): `login`, `refresh` and
-- `logout`.
pub mod Refreshing
pub mod Sessions
use distributed_nestjs_event.Base.{
  ℕ, ◌+◌, ◌*◌, head?, Bool, not, Option, none, some, ◌==◌, ◌&&◌, ltb, is_none, invalid_credentials,
  invalid_refresh_token, refresh_token_expired, user_not_found, Action, pure, throw, throw_if,
  query, write, call, gets, ◌>>=◌, ◌>>◌,
}
use distributed_nestjs_event.Auth.Types.{Platform, State, User, UserRole, RefreshToken, JwtPayload}
use distributed_nestjs_event.Auth.Users.{find_by_email, find_by_id, validate_password, draw}

-- `where: { tokenHash, revokedAt: IsNull() }`
abbrev pub is_open_with : ℕ → RefreshToken → Bool
is_open_with hash t = t.token_hash == hash && is_none t.revoked_at

-- `where: { tokenHash, revokedAt: null }`, where TypeORM skips the condition that is `null`
abbrev pub has_token_hash : ℕ → RefreshToken → Bool
has_token_hash hash t = t.token_hash == hash

abbrev pub revoked : ℕ → RefreshToken → RefreshToken
revoked now t = record t { revoked_at = some now }

pub record TokenPair : Type 0 where
  pub access_token : ℕ
  pub refresh_token : ℕ

-- The user in the answer of `login`.
pub record LoginUser : Type 0 where
  pub id : ℕ
  pub email : ℕ
  pub role : UserRole
  pub full_name : ℕ
  pub email_verified : Bool

pub record LoginReply : Type 0 where
  pub user : LoginUser
  pub tokens : TokenPair

abbrev pub payload_of : User → JwtPayload
payload_of u = record {
  sub = u.id;
  email = u.email;
  role = u.role;
  email_verified = u.email_verified;
}

abbrev pub login_user : User → LoginUser
login_user u = record {
  id = u.id;
  email = u.email;
  role = u.role;
  full_name = u.full_name;
  email_verified = u.email_verified;
}

module _ (P : Platform) where
  open P use {refresh_tokens, crypto, uuid, sign, set_expiry_date}

  abbrev pub set_tokens : refresh_tokens.Table → State P → State P
  set_tokens t s = record s { token_rows = t }

  -- `refreshTokenRepo.create`, with the key of the insert
  abbrev pub new_refresh_token : ℕ → ℕ → ℕ → ℕ → RefreshToken
  new_refresh_token id user token now = record {
    id = id;
    user_id = user;
    token_hash = crypto.sha256 token;
    device_info = none;
    expires_at = set_expiry_date now;
    revoked_at = none;
    created_at = now;
  }

  unfoldable pub generate_tokens : User → Action (State P) TokenPair
  generate_tokens u = gets (λ s. sign s.now (payload_of u)) >>= λ access. draw P >>= λ k.
      write (λ s.
        set_tokens
          (refresh_tokens.save
            (new_refresh_token (refresh_tokens.fresh s.token_rows) u.id (uuid k) s.now)
            s.token_rows)
          s)
      >> pure (record { access_token = access; refresh_token = uuid k })

  -- what `login` does for the user that it has found
  unfoldable pub login_as : User → ℕ → Action (State P) LoginReply
  login_as u password = validate_password P u password >>= λ valid.
      throw_if (not valid) invalid_credentials
      >> (generate_tokens u >>= λ tokens. pure (record { user = login_user u; tokens = tokens }))

  unfoldable pub login : ℕ → ℕ → Action (State P) LoginReply
  login email password = find_by_email P email >>= λ found. elim found [
    | none ↦ throw invalid_credentials
    | some u ↦ login_as u password
  ]

  -- `refreshTokenRepo.save` of a token that is revoked now
  abbrev pub revoke : RefreshToken → Action (State P) (Unit {0})
  revoke t = write (λ s. set_tokens (refresh_tokens.save (revoked s.now t) s.token_rows) s)

  abbrev pub find_token : (RefreshToken → Bool) → Action (State P) (Option RefreshToken)
  find_token p = query (λ s. head? (refresh_tokens.find p s.token_rows))

  abbrev pub reissue : Option User → Action (State P) TokenPair
  reissue none = throw user_not_found
  reissue (some u) = generate_tokens u

  -- what `refresh` does with the token that it has found
  unfoldable pub refresh_with : RefreshToken → Action (State P) TokenPair
  refresh_with t = gets (λ s. ltb t.expires_at s.now) >>= λ expired.
      throw_if expired refresh_token_expired >> (revoke t >> (find_by_id P t.user_id >>= reissue))

  -- `refresh` hashes the token by `bcrypt.hash(refreshToken, 10)`
  unfoldable pub refresh : ℕ → Action (State P) TokenPair
  refresh token =
      call
      >> (draw P >>= λ salt.
          find_token (has_token_hash (crypto.bcrypt_hash salt token)) >>= λ found. elim found [
            | none ↦ throw invalid_refresh_token
            | some t ↦ refresh_with t
          ])

  unfoldable pub logout : ℕ → Action (State P) (Unit {0})
  logout token = find_token (is_open_with (crypto.sha256 token)) >>= λ found. elim found [
    | none ↦ pure tt
    | some t ↦ revoke t
  ]
