-- ===== src/Auth/Tokens/Refreshing.antt =====
-- Why no refresh token is ever accepted.
use distributed_nestjs_event.Base.{
  [], subst, ℕ, ◌≡◌, ◌⊎◌, inl, inr, refl, true, Option, none, some, arith, head?, ◌==◌, Script,
  is_err, later_replies, next_reply, rejects, Option-cases, Bool-cases,
}
use distributed_nestjs_event.External.Repository.{find-nil}
use distributed_nestjs_event.Auth.Types.{Platform, State, User, RefreshToken}
use distributed_nestjs_event.Auth.Users.{has_email}
use distributed_nestjs_event.Auth.Tokens.{
  has_token_hash, new_refresh_token, generate_tokens, login_as, login, refresh,
}

module _ (P : Platform) where
  open P use {users, refresh_tokens, crypto, uuid}

  -- The row, if it is there, holds the SHA-256 digest of a token.
  abbrev pub IsDigest : Option RefreshToken → Type 0
  IsDigest none = Unit
  IsDigest (some t) = (token : ℕ) × (t.token_hash ≡ crypto.sha256 token)

  -- Every row of the refresh tokens does.
  abbrev pub AllDigests : refresh_tokens.Table → Type 0
  AllDigests t = (i : ℕ) → IsDigest (refresh_tokens.get i t)

  save-IsDigest :
      (i j user token now : ℕ) (t : refresh_tokens.Table)
      → AllDigests t
      → IsDigest
          (refresh_tokens.get i (refresh_tokens.save (new_refresh_token P j user token now) t))
  save-IsDigest i j user token now t h =
      let row = new_refresh_token P j user token now in
      elim (Bool-cases (i == j)) [
        | inl e ↦ rw (refresh_tokens.get-save i row t, e) (token, refl)
        | inr e ↦ rw (refresh_tokens.get-save i row t, e) (h i)
      ]

  none_found :
      (salt token : ℕ) (t : refresh_tokens.Table)
      → AllDigests t
      → refresh_tokens.find (has_token_hash (crypto.bcrypt_hash salt token)) t ≡ []
  none_found salt token t h =
      let hash = crypto.bcrypt_hash salt token in
      find-nil refresh_tokens (has_token_hash hash) t (λ i x there.
        let (digest, e) = subst IsDigest there (h i) in
        ground (arith, e, crypto.hash-ne-sha256 salt token digest))

  -- A refresh over digests alone is refused, whatever the token.
  refresh-denied :
      (token : ℕ) (s : State P) (r : Script)
      → AllDigests s.token_rows
      → let (a, s', r') = refresh P token s r in (is_err a ≡ true) × (s'.token_rows ≡ s.token_rows)
  unfolding refresh
  refresh-denied token s r h = ground (arith, none_found s.drawn token s.token_rows h)

  -- The rows after `generate_tokens`: the new token is there, or its save was rejected.
  generate_tokens-rows :
      (u : User) (s : State P) (r : Script)
      → let t = s.token_rows in
        let row = new_refresh_token P (refresh_tokens.fresh t) u.id (uuid s.drawn) s.now in
        ((generate_tokens P u s r).1.token_rows ≡ t)
        ⊎ ((generate_tokens P u s r).1.token_rows ≡ refresh_tokens.save row t)
  unfolding generate_tokens
  generate_tokens-rows u s r = ground arith

  generate_tokens-AllDigests :
      (u : User) (s : State P) (r : Script)
      → AllDigests s.token_rows
      → AllDigests (generate_tokens P u s r).1.token_rows
  generate_tokens-AllDigests u s r h i = elim (generate_tokens-rows u s r) [
    | inl e ↦ rw e (h i)
    | inr e ↦ rw e (
        save-IsDigest i (refresh_tokens.fresh s.token_rows) u.id (uuid s.drawn) s.now s.token_rows
          h)
  ]

  login_as-rows :
      (u : User) (password : ℕ) (s : State P) (r : Script)
      → ((login_as P u password s r).1.token_rows ≡ s.token_rows)
        ⊎ ((login_as P u password s r).1.token_rows
            ≡ (generate_tokens P u s (later_replies r)).1.token_rows)
  unfolding login_as
  login_as-rows u password s r = ground arith

  login-AllDigests :
      (email password : ℕ) (s : State P) (r : Script)
      → AllDigests s.token_rows
      → AllDigests (login P email password s r).1.token_rows
  unfolding login
  login-AllDigests email password s r h i =
      let rows = (login P email password s r).1.token_rows in
      elim (Option-cases (head? (users.find (has_email email) s.user_rows))) [
        | inl e ↦ let same : rows ≡ s.token_rows = ground (arith, e) in rw same (h i)
        | inr (u, e) ↦
            let r' = later_replies r in
            elim (login_as-rows u password s r') [
              | inl f ↦ let same : rows ≡ s.token_rows = ground (arith, e, f) in rw same (h i)
              | inr f ↦
                  let new = (generate_tokens P u s (later_replies r')).1.token_rows in
                  elim (Bool-cases (rejects (next_reply r))) [
                    | inl bad ↦
                        let same : rows ≡ s.token_rows = ground (arith, bad) in rw same (h i)
                    | inr answered ↦
                        let same : rows ≡ new = ground (arith, e, f, answered) in
                        rw same (generate_tokens-AllDigests u s (later_replies r') h i)
                  ]
            ]
      ]

  -- A token that a login has just issued cannot be refreshed: where every stored refresh token is a
  -- SHA-256 digest, which a login keeps, `refresh` throws for each token after a login, at any time
  -- and however the calls of the two end, and leaves the stored tokens as they are.
  pub refresh-login :
      (email password token later : ℕ) (s : State P) (r r' : Script)
      → AllDigests s.token_rows
      → let after : State P = record ((login P email password s r).1) { now = later } in
        let (a, s', r'') = refresh P token after r' in
        AllDigests after.token_rows × (is_err a ≡ true) × (s'.token_rows ≡ after.token_rows)
  refresh-login email password token later s r r' h =
      let after : State P = record ((login P email password s r).1) { now = later } in
      let kept = login-AllDigests email password s r h in
      let denied = refresh-denied token after r' kept in (kept, denied.0, denied.1)
