-- ===== src/Guards.antt =====
-- The guards of the HTTP services (libs/auth-guard/src): jwt-auth.guard.ts, roles.guard.ts and
-- current-user.decorator.ts. A text is the list of its characters' codes.
pub mod Splitting
pub mod Bearer
pub mod Sessions
mod Tests
use distributed_nestjs_event.Base.{
  ℕ, ◌+◌, Bool, true, false, Option, none, some, List, [], ◌∷◌, map, ◌==◌, ◌&&◌, leb, if◌then◌else◌,
  Result, ok, err, Error, type_error, no_authorization_header, invalid_header_format,
  invalid_authorization_type, token_has_expired, token_is_invalid, token_verification_failed,
}
use mathlib.Core.Option
use distributed_nestjs_event.Auth.Types.{JwtPayload, UserRole, user, admin, organizer}

abbrev pub Text : Type 0
Text = List ℕ

abbrev pub space : ℕ
space = 32

-- 'bearer'
abbrev pub bearer : Text
bearer = 98 ∷ 101 ∷ 97 ∷ 114 ∷ 101 ∷ 114 ∷ []

unfoldable pub same_text : Text → Text → Bool
same_text [] [] = true
same_text [] (y ∷ ys) = false
same_text (x ∷ xs) [] = false
same_text (x ∷ xs) (y ∷ ys) = x == y && same_text xs ys

-- `toLowerCase()` on the letters of ASCII
abbrev pub lower : ℕ → ℕ
lower c = if leb 65 c && leb c 90 then c + 32 else c

abbrev pub put_first : ℕ → List Text → List Text
put_first c [] = (c ∷ []) ∷ []
put_first c (w ∷ ws) = (c ∷ w) ∷ ws

-- `text.split(separator)`
unfoldable pub split : ℕ → Text → List Text
split separator [] = [] ∷ []
split separator (c ∷ cs) =
    let rest = split separator cs in if c == separator then [] ∷ rest else put_first c rest

-- What `jwt.verify` does with a token: it returns the payload, or it throws an error of a name.
pub data Verified : Type 0 where
  valid : JwtPayload → Verified
  token_expired_error json_web_token_error other_error : Verified

-- The two tests of the `catch` block, which assign the name that they mean to compare: what they
-- assign is a text that is not empty, so the first one passes.
abbrev pub assigned : Bool
assigned = true

abbrev pub verification_error : Error
verification_error =
    if assigned
    then token_has_expired
    else (if assigned then token_is_invalid else token_verification_failed)

abbrev pub verified_user : Verified → Result (Option JwtPayload)
verified_user (valid p) = ok (some p)
verified_user token_expired_error = err verification_error
verified_user json_web_token_error = err verification_error
verified_user other_error = err verification_error

module _ (verify : Text → Verified) where
  abbrev pub check_fields : List Text → Result (Option JwtPayload)
  check_fields [] = err invalid_header_format
  check_fields (kind ∷ []) = err invalid_header_format
  check_fields (kind ∷ token ∷ rest) =
      if same_text (map lower kind) bearer
      then verified_user (verify token)
      else err invalid_authorization_type

  abbrev pub check_header : Option Text → Result (Option JwtPayload)
  check_header none = err no_authorization_header
  check_header (some []) = err no_authorization_header
  check_header (some (c ∷ cs)) = check_fields (split space (c ∷ cs))

  -- `JwtAuthGuard.canActivate`: the `user` that a request that is let through has afterwards
  unfoldable pub can_activate : Bool → Option Text → Result (Option JwtPayload)
  can_activate true header = ok none
  can_activate false header = check_header header

-- The keys that the controllers ask `CurrentUser` for, and those that a payload has.
pub data UserKey : Type 0 where
  id sub email : UserKey

-- `user?.[data]`
abbrev pub value_at : UserKey → JwtPayload → Option ℕ
value_at id p = none
value_at sub p = some p.sub
value_at email p = some p.email

unfoldable pub current_user : UserKey → Option JwtPayload → Option ℕ
current_user key none = none
current_user key (some p) = value_at key p

abbrev pub same_role : UserRole → UserRole → Bool
same_role user user = true
same_role admin admin = true
same_role organizer organizer = true
same_role _ _ = false

unfoldable pub includes_role : List UserRole → UserRole → Bool
includes_role [] r = false
includes_role (x ∷ xs) r = if same_role x r then true else includes_role xs r

-- `RolesGuard.canActivate`
unfoldable pub has_role : Option (List UserRole) → Option JwtPayload → Result Bool
has_role none u = ok true
has_role (some roles) none = err type_error
has_role (some roles) (some p) = ok (includes_role roles p.role)
