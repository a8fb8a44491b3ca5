-- ===== src/Auth/Tokens/Sessions.antt =====
-- What a login opens and a logout closes.
use distributed_nestjs_event.Base.{
  [], ℕ, ◌≡◌, refl, Bool, true, false, Option, none, some, ◌∷◌, arith, head?, ok, Script, is_err,
  next_reply, later_replies, Option-cases, inl, inr,
}
use distributed_nestjs_event.External.Repository.{find-save_out}
use distributed_nestjs_event.Auth.Types.{Platform, State, User, RefreshToken}
use distributed_nestjs_event.Auth.Users.{has_email, matches}
use distributed_nestjs_event.Auth.Tokens.{
  is_open_with, revoked, LoginReply, payload_of, login_user, new_refresh_token, generate_tokens,
  login_as, login, logout,
}

module _ (P : Platform) where
  open P use {users, refresh_tokens, crypto, uuid, sign}

  -- Whether a user may log in with a password.
  abbrev pub accepts : ℕ → Option User → Bool
  accepts password none = false
  accepts password (some u) = matches P password u.password_hash

  -- The session of a user: what the login answers, and the row of its refresh token.
  abbrev pub session_of : User → State P → LoginReply
  session_of u s = record {
    user = login_user u;
    tokens = record { access_token = sign s.now (payload_of u); refresh_token = uuid s.drawn };
  }

  abbrev pub session_row : User → State P → RefreshToken
  session_row u s =
      new_refresh_token P (refresh_tokens.fresh s.token_rows) u.id (uuid s.drawn) s.now

  -- A login with an unknown address or a wrong password fails and changes nothing, however its calls
  -- end.
  pub login-refused :
      (email password : ℕ) (s : State P) (r : Script)
      → accepts password (head? (users.find (has_email email) s.user_rows)) ≡ false
      → (is_err (login P email password s r).0 ≡ true) × ((login P email password s r).1 ≡ s)
  unfolding login login_as
  login-refused email password s r h =
      elim (Option-cases (head? (users.find (has_email email) s.user_rows))) [
        | inl e ↦ ground (arith, e)
        | inr (u, e) ↦ ground (arith, e, h)
      ]

  -- A login with the password of the user of an address, with every call answering, returns the user
  -- and two tokens, and stores the digest of the refresh token as an open session of that user.
  pub login-Session :
      (email password : ℕ) (u : User) (s : State P)
      → head? (users.find (has_email email) s.user_rows) ≡ some u
      → matches P password u.password_hash ≡ true
      → let (a, s', r') = login P email password s [] in
        let row = session_row u s in
        (a ≡ ok (session_of u s))
        × (refresh_tokens.get row.id s'.token_rows ≡ some row)
        × (is_open_with (crypto.sha256 (session_of u s).tokens.refresh_token) row ≡ true)
  unfolding login login_as generate_tokens next_reply later_replies
  login-Session email password u s e h =
      ground
        (arith, e, h, refresh_tokens.get-save (session_row u s).id (session_row u s) s.token_rows)

  -- A logout with a token of which one session is open, with every call answering, closes that
  -- session at the time of the logout, and leaves no open session with the token.
  pub logout-Revoked :
      (token : ℕ) (t : RefreshToken) (s : State P)
      → refresh_tokens.find (is_open_with (crypto.sha256 token)) s.token_rows ≡ t ∷ []
      → let (a, s', r') = logout P token s [] in
        (a ≡ ok tt)
        × (refresh_tokens.get t.id s'.token_rows ≡ some (revoked s.now t))
        × (refresh_tokens.find (is_open_with (crypto.sha256 token)) s'.token_rows ≡ [])
  unfolding logout next_reply later_replies
  logout-Revoked token t s h = ground (
    arith,
    h,
    refresh_tokens.get-save t.id (revoked s.now t) s.token_rows,
    find-save_out refresh_tokens (is_open_with (crypto.sha256 token)) t (revoked s.now t)
        s.token_rows h refl (ground arith),
  )
