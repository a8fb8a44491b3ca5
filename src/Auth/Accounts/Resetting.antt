-- ===== src/Auth/Accounts/Resetting.antt =====
-- What the reset of a password does, and what its request tells.
use distributed_nestjs_event.Base.{
  [], ℕ, ◌+◌, ◌≡◌, refl, true, false, Option, none, some, ◌∷◌, arith, head?, if◌then◌else◌, ok,
  Script, is_err, next_reply, later_replies, Option-cases, inl, inr,
}
use mathlib.Core.Option
use distributed_nestjs_event.External.Repository.{get-find_head, find-update_out}
use distributed_nestjs_event.Auth.Types.{Platform, State, User}
use distributed_nestjs_event.Auth.Users.{
  has_email, has_id, has_reset_token, with_password, matches, update_password,
}
use distributed_nestjs_event.Auth.Tokens.{revoked}
use distributed_nestjs_event.Auth.Accounts.{
  AuthReply, reset_successfully, if_themail_exists, if_the_email_exists, is_past, is_open_of,
  start_reset, request_password_reset, reset_password,
}

module _ (P : Platform) where
  open P use {users, refresh_tokens, crypto}

  abbrev pub reset_request_reply : Option User → AuthReply
  reset_request_reply none = if_themail_exists
  reset_request_reply (some u) = if_the_email_exists

  -- A request for a reset tells whether the address is registered: the answer, if there is one, is
  -- one text where a user has the address and another text where none has.
  pub request_password_reset-tells :
      (email : ℕ) (s : State P) (r : Script) (a : AuthReply)
      → (request_password_reset P email s r).0 ≡ ok a
      → a ≡ reset_request_reply (head? (users.find (has_email email) s.user_rows))
  unfolding request_password_reset start_reset
  request_password_reset-tells email s r a h =
      elim (Option-cases (head? (users.find (has_email email) s.user_rows))) [
        | inl e ↦ ground (arith, h, e)
        | inr (u, e) ↦ ground (arith, h, e)
      ]

  module _ (token password : ℕ) (u : User) (s : State P) where
    -- The user with the new password.
    abbrev pub reset_user : User
    reset_user = with_password (crypto.bcrypt_hash s.drawn password) u

    abbrev pub after_reset : State P
    after_reset = record s {
      user_rows =
          users.update (has_id u.id) (with_password (crypto.bcrypt_hash s.drawn password))
            s.user_rows;
      token_rows = refresh_tokens.update (is_open_of u.id) (revoked s.now) s.token_rows;
      drawn = s.drawn + 1;
    }

    reset_answered :
        users.find (has_reset_token (crypto.sha256 token)) s.user_rows ≡ u ∷ []
        → is_past s.now u.password_reset_expires ≡ false
        → reset_password P token password s [] ≡ (ok reset_successfully, after_reset, [])
    unfolding reset_password update_password next_reply later_replies
    reset_answered found valid = ground (arith, found, valid)

    reset_twice :
        (other : ℕ) (r : Script)
        → users.find (has_reset_token (crypto.sha256 token)) s.user_rows ≡ u ∷ []
        → is_err (reset_password P token other after_reset r).0 ≡ true
    unfolding reset_password
    reset_twice other r found = ground (
      arith,
      find-update_out users (has_reset_token (crypto.sha256 token))
          (with_password (crypto.bcrypt_hash s.drawn password)) u s.user_rows found (λ x. refl)
          refl,
    )

    -- A reset with a token that one user has and that has not expired, with every call answering,
    -- stores the new password, which the user's hash then matches, closes every open session of the
    -- user and no other, and works once: a second reset with the token fails, however its calls end.
    pub reset_password-Revoked :
        (i other : ℕ) (r : Script)
        → users.find (has_reset_token (crypto.sha256 token)) s.user_rows ≡ u ∷ []
        → is_past s.now u.password_reset_expires ≡ false
        → let (a, s', r') = reset_password P token password s [] in
          (a ≡ ok reset_successfully)
          × (users.get u.id s'.user_rows ≡ some reset_user)
          × (matches P password reset_user.password_hash ≡ true)
          × (refresh_tokens.get i s'.token_rows
              ≡ Option.map
                  (λ t. if is_open_of u.id t then revoked s.now t else t)
                  (refresh_tokens.get i s.token_rows))
          × (is_err (reset_password P token other s' r).0 ≡ true)
    reset_password-Revoked i other r found valid = rw (reset_answered found valid) (
      refl,
      ground (
        arith,
        (get-find_head users (has_reset_token (crypto.sha256 token)) u [] s.user_rows found).0,
        users.get-update u.id (has_id u.id) (with_password (crypto.bcrypt_hash s.drawn password))
            s.user_rows (λ x. refl),
      ),
      crypto.compare-hash s.drawn password,
      refresh_tokens.get-update i (is_open_of u.id) (revoked s.now) s.token_rows (λ x. refl),
      reset_twice other r found,
    )
