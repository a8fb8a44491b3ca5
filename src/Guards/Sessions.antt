-- ===== src/Guards/Sessions.antt =====
-- The access token of a login at the guard (apps/auth-service/src/auth/auth.service.ts and
-- libs/auth-guard/src).
use distributed_nestjs_event.Base.{
  [], ℕ, ◌≡◌, refl, true, false, none, some, List, ◌∷◌, ◌++◌, head?, includes, ok, ◌∙◌,
}
use distributed_nestjs_event.Auth.Types.{Platform, State, User, UserRole}
use distributed_nestjs_event.Auth.Users.{has_email, matches}
use distributed_nestjs_event.Auth.Tokens.{payload_of, login}
use distributed_nestjs_event.Auth.Tokens.Sessions.{session_of, login-Session}
use distributed_nestjs_event.Guards.{
  Text, Verified, valid, space, bearer, same_text, can_activate, current_user, id, sub, has_role,
  includes_role,
}
use distributed_nestjs_event.Guards.Bearer.{can_activate-judged}

module _ (P : Platform) (verify : Text → Verified) (text : ℕ → Text) where
  open P use {users, sign}

  -- A session from the login to a controller: with every call answering, and where the text of the
  -- signed token has no space and verifies to the payload that was signed, the token of the login
  -- is let through as a bearer token, a route for some roles is open to the user's role and no
  -- other, and the user's id stands under `sub`; `CurrentUser('id')`, which the booking controller
  -- asks for, is undefined.
  pub can_activate-login :
      (email password : ℕ) (u : User) (roles : List UserRole) (s : State P)
      → head? (users.find (has_email email) s.user_rows) ≡ some u
      → matches P password u.password_hash ≡ true
      → includes (text (sign s.now (payload_of u))) space ≡ false
      → verify (text (sign s.now (payload_of u))) ≡ valid (payload_of u)
      → let (a, s', r') = login P email password s [] in
        let p = payload_of u in
        (a ≡ ok (session_of P u s))
        × (can_activate verify false
              (some (bearer ++ (space ∷ text (session_of P u s).tokens.access_token)))
            ≡ ok (some p))
        × (has_role (some roles) (some p) ≡ ok (includes_role roles u.role))
        × (current_user sub (some p) ≡ some u.id)
        × (current_user id (some p) ≡ none)
  unfolding has_role current_user same_text
  can_activate-login email password u roles s there right no_space signed =
      let token = text (sign s.now (payload_of u)) in
      (
        (login-Session P email password u s there right).0,
        (can_activate-judged verify bearer token [] refl no_space).0 ∙ rw signed refl,
        refl,
        refl,
        refl,
      )
