-- ===== src/Auth/Accounts.antt =====
-- The accounts of `AuthService` (apps/auth-service/src/auth/auth.service.ts): registration, the
-- verification of an address, and the reset of a password.
pub mod Verifying
pub mod Resetting
use distributed_nestjs_event.Base.{
  ℕ, ◌+◌, ◌*◌, Bool, true, false, Option, none, some, ◌∷◌, ◌==◌, ◌&&◌, ltb, is_none, user_not_found,
  invalid_token, Action, pure, throw, write, gets, modify, ◌>>=◌, ◌>>◌,
}
use distributed_nestjs_event.Auth.Types.{
  Platform, State, User, RefreshToken, AuthMessage, email_verification, password_reset,
}
use distributed_nestjs_event.Auth.Users.{
  create, draw, find_by_email, find_by_id, find_by_email_verification_token,
  find_by_password_reset_token, mark_email_verified, set_email_verification_token,
  set_password_reset_token, update_password,
}
use distributed_nestjs_event.Auth.Tokens.{revoked, set_tokens}

-- The messages that the methods answer with. The two texts about a reset differ in the source: the
-- one for an unknown address reads `If themail exists`.
pub data AuthReply : Type 0 where
  email_already_verified verification_resent verification_sent verified_successfully : AuthReply
  if_themail_exists if_the_email_exists reset_successfully : AuthReply

-- `expires && expires < new Date()`
abbrev pub is_past : ℕ → Option ℕ → Bool
is_past now none = false
is_past now (some expires) = ltb expires now

-- `where: { userId, revokedAt: IsNull() }`
abbrev pub is_open_of : ℕ → RefreshToken → Bool
is_open_of user t = t.user_id == user && is_none t.revoked_at

module _ (P : Platform) where
  open P use {refresh_tokens, crypto, uuid, set_hours}

  abbrev pub send : (State P → AuthMessage) → Action (State P) (Unit {0})
  send m = modify (λ s. record s { sent = m s ∷ s.sent })

  -- The lines that `register`, `resendVerification` and `requestEmailVerification` share: a token
  -- for 24 hours of the local clock is stored as its digest and sent to the address.
  unfoldable pub start_verification : User → Action (State P) (Unit {0})
  start_verification u = draw P >>= λ k. gets (λ s. set_hours 24 s.now) >>= λ expires.
      set_email_verification_token P u.id (crypto.sha256 (uuid k)) expires
      >> send (λ s. email_verification u.id u.email u.full_name (uuid k) expires)

  unfoldable pub register : ℕ → ℕ → ℕ → Action (State P) User
  register email password full_name =
      create P (record { email = email; password = password; full_name = full_name; phone = none })
      >>= λ u. start_verification u >> pure u

  -- what `resendVerification` does for the user that it has found
  abbrev pub resend : User → Action (State P) AuthReply
  resend u = elim u.email_verified [
    | true ↦ pure email_already_verified
    | false ↦ start_verification u >> pure verification_resent
  ]

  unfoldable pub resend_verification : ℕ → Action (State P) AuthReply
  resend_verification id =
      find_by_id P id >>= λ found. elim found [ none ↦ throw user_not_found | some u ↦ resend u ]

  unfoldable pub request_email_verification : ℕ → Action (State P) AuthReply
  request_email_verification id = find_by_id P id >>= λ found. elim found [
    | none ↦ throw user_not_found
    | some u ↦ start_verification u >> pure verification_sent
  ]

  -- what `verifyEmail` does for the user that it has found
  abbrev pub verify_found : User → Bool → Action (State P) AuthReply
  verify_found u true = throw invalid_token
  verify_found u false = mark_email_verified P u.id >> pure verified_successfully

  unfoldable pub verify_email : ℕ → Action (State P) AuthReply
  verify_email token = find_by_email_verification_token P (crypto.sha256 token) >>= λ found.
      gets (λ s. s.now) >>= λ now. elim found [
        | none ↦ throw invalid_token
        | some u ↦ verify_found u (is_past now u.email_verification_expires)
      ]

  -- what `requestPasswordReset` does for the user that it has found: a token for one hour
  unfoldable pub start_reset : User → Action (State P) AuthReply
  start_reset u = draw P >>= λ k. gets (λ s. set_hours 1 s.now) >>= λ expires.
      set_password_reset_token P u.id (crypto.sha256 (uuid k)) expires
      >> (send (λ s. password_reset u.id u.email u.full_name (uuid k) expires)
          >> pure if_the_email_exists)

  unfoldable pub request_password_reset : ℕ → Action (State P) AuthReply
  request_password_reset email = find_by_email P email >>= λ found. elim found [
    | none ↦ pure if_themail_exists
    | some u ↦ start_reset u
  ]

  -- `refreshTokenRepo.update({ userId, revokedAt: IsNull() }, { revokedAt: new Date() })`
  abbrev pub revoke_all : ℕ → Action (State P) (Unit {0})
  revoke_all id =
      write
        (λ s. set_tokens P (refresh_tokens.update (is_open_of id) (revoked s.now) s.token_rows) s)

  -- what `resetPassword` does for the user that it has found
  abbrev pub reset_found : User → ℕ → Bool → Action (State P) AuthReply
  reset_found u password true = throw invalid_token
  reset_found u password false =
      update_password P u.id password >> (revoke_all u.id >> pure reset_successfully)

  unfoldable pub reset_password : ℕ → ℕ → Action (State P) AuthReply
  reset_password token password = find_by_password_reset_token P (crypto.sha256 token) >>= λ found.
      gets (λ s. s.now) >>= λ now. elim found [
        | none ↦ throw invalid_token
        | some u ↦ reset_found u password (is_past now u.password_reset_expires)
      ]
