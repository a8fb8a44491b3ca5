-- ===== src/Guards/Tests.antt =====
-- Headers at the guard, and the theorems at them.
use distributed_nestjs_event.Base.{
  [], ℕ, ◌≡◌, refl, true, false, Option, none, some, ◌∷◌, ◌++◌, ok, map, if◌then◌else◌, ◌==◌,
}
use distributed_nestjs_event.Auth.Types.{JwtPayload, organizer}
use distributed_nestjs_event.Auth.Tokens.{payload_of, login}
use distributed_nestjs_event.Auth.Tokens.Sessions.{session_of}
use distributed_nestjs_event.Auth.Fixture.{platform, member, start}
use distributed_nestjs_event.Guards.{
  Text, Verified, valid, json_web_token_error, space, bearer, same_text, can_activate, current_user,
  id, sub, has_role, includes_role, lower,
}
use distributed_nestjs_event.Guards.Bearer.{judged, one_word, can_activate-judged}
use distributed_nestjs_event.Guards.Sessions.{can_activate-login}

-- A token is the one character of its code, and only the member's verifies.
abbrev verify : Text → Verified
verify [] = json_web_token_error
verify (c ∷ cs) = if c == 5000 then valid (payload_of member) else json_web_token_error

abbrev text : ℕ → Text
text n = n ∷ []

-- A public route needs no header.
bearer_run : can_activate verify true none ≡ ok none
unfolding can_activate
bearer_run = refl

abbrev shouted : Text
shouted = 66 ∷ 69 ∷ 65 ∷ 82 ∷ 69 ∷ 82 ∷ []

can_activate-judged_example :
    (can_activate verify false (some (shouted ++ (space ∷ 7 ∷ [])))
      ≡ judged verify shouted (7 ∷ []))
    × (can_activate verify false (some (shouted ++ (space ∷ ((7 ∷ []) ++ (space ∷ 8 ∷ [])))))
        ≡ judged verify shouted (7 ∷ []))
    × (can_activate verify false (some shouted) ≡ one_word shouted)
    × ((u : Option JwtPayload)
        → can_activate verify false (some (shouted ++ (space ∷ 7 ∷ []))) ≡ ok u
        → (same_text (map lower shouted) bearer ≡ true)
          × ((p : JwtPayload) × (verify (7 ∷ []) ≡ valid p) × (u ≡ some p)))
can_activate-judged_example = can_activate-judged verify shouted (7 ∷ []) (8 ∷ []) refl refl

can_activate-login_example :
    let (a, s', r') = login platform 20 5 start [] in
    let p = payload_of member in
    (a ≡ ok (session_of platform member start))
    × (can_activate verify false (some (bearer ++ (space ∷ text 5000))) ≡ ok (some p))
    × (has_role (some (organizer ∷ [])) (some p) ≡ ok (includes_role (organizer ∷ []) member.role))
    × (current_user sub (some p) ≡ some 0)
    × (current_user id (some p) ≡ none)
can_activate-login_example =
    can_activate-login platform verify text 20 5 member (organizer ∷ []) start refl refl refl refl
