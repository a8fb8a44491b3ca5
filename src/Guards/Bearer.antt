-- ===== src/Guards/Bearer.antt =====
-- Which headers the guard lets through.
use distributed_nestjs_event.Base.{
  [], ◌≡◌, refl, true, false, Option, some, List, token_has_expired, Result, Bool-cases, inl, inr,
  ◌∙◌, ◌∷◌, ◌++◌, map, arith, if◌then◌else◌, includes, ok, err, invalid_authorization_type,
  invalid_header_format, no_authorization_header,
}
use distributed_nestjs_event.Auth.Types.{JwtPayload}
use distributed_nestjs_event.Guards.{
  Text, Verified, valid, token_expired_error, json_web_token_error, other_error, space, bearer,
  lower, same_text, split, can_activate, check_header, check_fields, verified_user,
}
use distributed_nestjs_event.Guards.Splitting.{split-word, split-last}

-- A token that verifies gives its payload, and any other is said to have expired.
abbrev pub let_through : Verified → Result (Option JwtPayload)
let_through (valid p) = ok (some p)
let_through token_expired_error = err token_has_expired
let_through json_web_token_error = err token_has_expired
let_through other_error = err token_has_expired

verified_user_lem : (v : Verified) → verified_user v ≡ let_through v
verified_user_lem (valid p) = refl
verified_user_lem token_expired_error = refl
verified_user_lem json_web_token_error = refl
verified_user_lem other_error = refl

let_through-ok :
    (v : Verified) (u : Option JwtPayload)
    → let_through v ≡ ok u
    → (p : JwtPayload) × (v ≡ valid p) × (u ≡ some p)
let_through-ok (valid p) u e = (p, refl, cc)
let_through-ok token_expired_error u e = absurd (cc)
let_through-ok json_web_token_error u e = absurd (cc)
let_through-ok other_error u e = absurd (cc)

abbrev pub one_word : Text → Result (Option JwtPayload)
one_word [] = err no_authorization_header
one_word (c ∷ cs) = err invalid_header_format

module _ (verify : Text → Verified) where
  -- A header of words is judged by its first two words.
  check_header-fields :
      (kind rest : Text)
      → includes kind space ≡ false
      → check_header verify (some (kind ++ (space ∷ rest)))
        ≡ check_fields verify (kind ∷ split space rest)
  check_header-fields [] rest h = rw (split-word space [] rest h) refl
  check_header-fields (c ∷ kind) rest h = rw (split-word space (c ∷ kind) rest h) refl

  check_header-one :
      (kind : Text) → includes kind space ≡ false → check_header verify (some kind) ≡ one_word kind
  check_header-one [] h = refl
  check_header-one (c ∷ kind) h = rw (split-last space (c ∷ kind) h) refl

  abbrev pub judged : Text → Text → Result (Option JwtPayload)
  judged kind token =
      if same_text (map lower kind) bearer
      then let_through (verify token)
      else err invalid_authorization_type

  check_fields-judged :
      (kind token : Text) (rest : List Text)
      → check_fields verify (kind ∷ token ∷ rest) ≡ judged kind token
  check_fields-judged kind token rest = rw (verified_user_lem (verify token)) refl

  -- Which headers let a request for a route that is not public through: of a header of at least two
  -- words the first must be `bearer`, in any case of its letters, and the second a token that
  -- verifies, whose payload becomes the user; the words after them do not matter. A header of
  -- one word has the wrong format, and any failure of the verification says that the token has
  -- expired, of a token that is not valid at all as well.
  pub can_activate-judged :
      (kind token rest : Text)
      → includes kind space ≡ false
      → includes token space ≡ false
      → (can_activate verify false (some (kind ++ (space ∷ token))) ≡ judged kind token)
        × (can_activate verify false (some (kind ++ (space ∷ (token ++ (space ∷ rest)))))
            ≡ judged kind token)
        × (can_activate verify false (some kind) ≡ one_word kind)
        × ((u : Option JwtPayload)
            → can_activate verify false (some (kind ++ (space ∷ token))) ≡ ok u
            → (same_text (map lower kind) bearer ≡ true)
              × ((p : JwtPayload) × (verify token ≡ valid p) × (u ≡ some p)))
  unfolding can_activate
  can_activate-judged kind token rest h k =
      let two : can_activate verify false (some (kind ++ (space ∷ token))) ≡ judged kind token =
        check_header-fields kind token h
        ∙ rw (split-last space token k) (check_fields-judged kind token []) in
      let more : can_activate verify false (some (kind ++ (space ∷ (token ++ (space ∷ rest)))))
          ≡ judged kind token =
        check_header-fields kind (token ++ (space ∷ rest)) h
        ∙ rw (split-word space token rest k) (check_fields-judged kind token (split space rest)) in
      (
        two,
        more,
        check_header-one kind h,
        λ u e. elim (Bool-cases (same_text (map lower kind) bearer)) [
          | inl same ↦ (same, let_through-ok (verify token) u (ground (arith, same, two, e)))
          | inr other ↦ absurd (ground (arith, other, two, e))
        ],
      )
