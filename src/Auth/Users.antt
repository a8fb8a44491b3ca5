-- ===== src/Auth/Users.antt =====
-- `UserService` (apps/auth-service/src/user/user.service.ts).
use distributed_nestjs_event.Base.{
  ℕ, ◌+◌, head?, Bool, true, false, Option, none, some, ◌==◌, user_exists, Action, pure, throw,
  query, write, call, gets, modify, ◌>>=◌, ◌>>◌,
}
use distributed_nestjs_event.Auth.Types.{Platform, State, User, UserRole, CreateUserDto}

-- A nullable column that equals a value.
abbrev pub is_value : ℕ → Option ℕ → Bool
is_value v none = false
is_value v (some w) = w == v

-- `where: { email }`, `where: { emailVerificationToken }`, `where: { passwordResetToken }`
abbrev pub has_email : ℕ → User → Bool
has_email email u = u.email == email

abbrev pub has_verification_token : ℕ → User → Bool
has_verification_token token u = is_value token u.email_verification_token

abbrev pub has_reset_token : ℕ → User → Bool
has_reset_token token u = is_value token u.password_reset_token

abbrev pub has_id : ℕ → User → Bool
has_id id u = u.id == id

-- `userRepo.create`, with the key of the insert and the defaults of the columns
abbrev pub new_user : ℕ → ℕ → CreateUserDto → ℕ → User
new_user id now dto hash = record {
  id = id;
  email = dto.email;
  password_hash = some hash;
  full_name = dto.full_name;
  phone = dto.phone;
  role = UserRole.user;
  email_verified = false;
  email_verification_token = none;
  email_verification_expires = none;
  password_reset_token = none;
  password_reset_expires = none;
  created_at = now;
}

-- `userWithoutPassword`
abbrev pub user_without_password : User → User
user_without_password u = record u { password_hash = none }

-- The patches of `update`.
abbrev pub with_verification : ℕ → ℕ → User → User
with_verification hash expires u = record u {
  email_verification_token = some hash;
  email_verification_expires = some expires;
}

abbrev pub verified : User → User
verified u = record u {
  email_verified = true;
  email_verification_token = none;
  email_verification_expires = none;
}

abbrev pub with_reset : ℕ → ℕ → User → User
with_reset hash expires u = record u {
  password_reset_token = some hash;
  password_reset_expires = some expires;
}

abbrev pub with_password : ℕ → User → User
with_password hash u = record u {
  password_hash = some hash;
  password_reset_token = none;
  password_reset_expires = none;
}

module _ (P : Platform) where
  open P use {users, crypto}

  abbrev pub find_user : (User → Bool) → Action (State P) (Option User)
  find_user p = query (λ s. head? (users.find p s.user_rows))

  abbrev pub find_by_email : ℕ → Action (State P) (Option User)
  find_by_email email = find_user (has_email email)

  abbrev pub find_by_id : ℕ → Action (State P) (Option User)
  find_by_id id = query (λ s. users.get id s.user_rows)

  abbrev pub find_by_email_verification_token : ℕ → Action (State P) (Option User)
  find_by_email_verification_token hash = find_user (has_verification_token hash)

  abbrev pub find_by_password_reset_token : ℕ → Action (State P) (Option User)
  find_by_password_reset_token hash = find_user (has_reset_token hash)

  -- A random value is drawn: a UUID, or the salt of a hash.
  abbrev pub draw : Action (State P) ℕ
  draw = gets (λ s. s.drawn) >>= λ k. modify (λ s. record s { drawn = s.drawn + 1 }) >> pure k

  -- `bcrypt.hash(password, 12)`
  abbrev pub hash_password : ℕ → Action (State P) ℕ
  hash_password password = call >> (draw >>= λ salt. pure (crypto.bcrypt_hash salt password))

  abbrev pub set_users : users.Table → State P → State P
  set_users t s = record s { user_rows = t }

  -- `userRepo.update(id, patch)`
  abbrev pub update_user : ℕ → (User → User) → Action (State P) (Unit {0})
  update_user id f = write (λ s. set_users (users.update (has_id id) f s.user_rows) s)

  -- what `create` does for an address that is free
  abbrev pub insert_user : CreateUserDto → Action (State P) User
  insert_user dto = hash_password dto.password >>= λ hash.
      gets (λ s. new_user (users.fresh s.user_rows) s.now dto hash) >>= λ u.
      write (λ s. set_users (users.save u s.user_rows) s) >> pure (user_without_password u)

  unfoldable pub create : CreateUserDto → Action (State P) User
  create dto = find_by_email dto.email >>= λ existing. elim existing [
    | some u ↦ throw user_exists
    | none ↦ insert_user dto
  ]

  abbrev pub mark_email_verified : ℕ → Action (State P) (Unit {0})
  mark_email_verified id = update_user id verified

  abbrev pub set_email_verification_token : ℕ → ℕ → ℕ → Action (State P) (Unit {0})
  set_email_verification_token id hash expires = update_user id (with_verification hash expires)

  abbrev pub set_password_reset_token : ℕ → ℕ → ℕ → Action (State P) (Unit {0})
  set_password_reset_token id hash expires = update_user id (with_reset hash expires)

  unfoldable pub update_password : ℕ → ℕ → Action (State P) (Unit {0})
  update_password id password =
      hash_password password >>= λ hash. update_user id (with_password hash)

  -- `bcrypt.compare(password, user.passwordHash)`
  abbrev pub matches : ℕ → Option ℕ → Bool
  matches password none = false
  matches password (some hash) = crypto.bcrypt_compare password hash

  abbrev pub validate_password : User → ℕ → Action (State P) Bool
  validate_password u password = call >> pure (matches password u.password_hash)
