-- ===== src/Auth/Tests.antt =====
-- Runs of the authentication service and the theorems at them.
use distributed_nestjs_event.Base.{
  [], ◌⊎◌, inl, inr, ℕ, ◌+◌, ◌≡◌, refl, true, none, some, ◌∷◌, arith, ok, is_err, next_reply,
  later_replies,
}
use distributed_nestjs_event.Auth.Types.{State, email_verification}
use distributed_nestjs_event.Auth.Fixture.{platform, member, session, start}
use distributed_nestjs_event.Auth.Users.{user_without_password, verified, matches}
use distributed_nestjs_event.Auth.Tokens.{revoked, login, refresh}
use distributed_nestjs_event.Auth.Tokens.Refreshing.{AllDigests, refresh-login}
use distributed_nestjs_event.Auth.Accounts.{
  register, verify_email, verified_successfully, request_password_reset, reset_password,
  reset_successfully, if_themail_exists,
}
use distributed_nestjs_event.Auth.Accounts.Verifying.{
  hours, registered, pending_user, verify_email-register,
}
use distributed_nestjs_event.Auth.Accounts.Resetting.{reset_user, reset_password-Revoked}

start_rows :
    (i : ℕ)
    → (platform.refresh_tokens.get i start.token_rows ≡ none)
      ⊎ (platform.refresh_tokens.get i start.token_rows ≡ some session)
start_rows i = ground arith

start-AllDigests : AllDigests platform start.token_rows
start-AllDigests i = elim (start_rows i) [ inl e ↦ rw e tt | inr e ↦ rw e (80, refl) ]

refresh-login_example :
    let after : State platform = record ((login platform 20 5 start []).1) { now = 6000 } in
    let (a, s', r') = refresh platform 903 after [] in
    AllDigests platform after.token_rows × (is_err a ≡ true) × (s'.token_rows ≡ after.token_rows)
refresh-login_example = refresh-login platform 20 5 903 6000 start [] [] start-AllDigests

-- An hour after the registration.
verify_email-register_example :
    let (a, s1, r1) = register platform 21 5 2 start [] in
    let (b, s2, r2) = verify_email platform 904 (record s1 { now = 5000 + hours 1 }) [] in
    (a ≡ ok (user_without_password (registered platform 21 5 2 start)))
    × (s1.sent ≡ email_verification 1 21 2 904 (5000 + hours 24) ∷ [])
    × (b ≡ ok verified_successfully)
    × (platform.users.get 1 s2.user_rows ≡ some (verified (pending_user platform 21 5 2 start)))
verify_email-register_example = verify_email-register platform 21 5 2 start (hours 1) refl refl refl

request_run : (request_password_reset platform 22 start []).0 ≡ ok if_themail_exists
unfolding request_password_reset next_reply later_replies
request_run = refl

reset_password-Revoked_example :
    let (a, s', r') = reset_password platform 70 6 start [] in
    (a ≡ ok reset_successfully)
    × (platform.users.get 0 s'.user_rows ≡ some (reset_user platform 70 6 member start))
    × (matches platform 6 (some 13) ≡ true)
    × (platform.refresh_tokens.get 0 s'.token_rows ≡ some (revoked 5000 session))
    × (is_err (reset_password platform 70 7 s' []).0 ≡ true)
reset_password-Revoked_example = reset_password-Revoked platform 70 6 member start 0 7 [] refl refl
