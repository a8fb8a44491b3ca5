-- ===== src/Auth/Accounts/Verifying.antt =====
-- The way of a verification token: registered, mailed, and presented.
use distributed_nestjs_event.Base.{
  [], ℕ, ◌+◌, ◌*◌, ◌≡◌, refl, none, some, ◌∷◌, arith, head?, ltb, if◌then◌else◌, ok, err,
  invalid_token, next_reply, later_replies, Bool-cases, inl, inr,
}
use distributed_nestjs_event.External.Repository.{head-find, update-save_only}
use distributed_nestjs_event.Auth.Types.{Platform, State, User, email_verification}
use distributed_nestjs_event.Auth.Users.{
  has_email, has_id, has_verification_token, new_user, user_without_password, with_verification,
  verified, create,
}
use distributed_nestjs_event.Auth.Accounts.{
  verified_successfully, start_verification, register, verify_email,
}

abbrev pub hours : ℕ → ℕ
hours n = n * 60 * 60 * 1000

module _ (P : Platform) where
  open P use {users, crypto, uuid, set_hours}

  module _ (email password full_name : ℕ) (s : State P) where
    -- The user of a registration, and the token: the salt of the password is drawn before it.
    abbrev pub registered : User
    registered =
        new_user (users.fresh s.user_rows) s.now
          (record { email = email; password = password; full_name = full_name; phone = none })
          (crypto.bcrypt_hash s.drawn password)

    abbrev pub mailed_token : ℕ
    mailed_token = uuid (s.drawn + 1)

    -- The same user with the token's digest, as the row is stored.
    abbrev pub pending_user : User
    pending_user = with_verification (crypto.sha256 mailed_token) (set_hours 24 s.now) registered

    abbrev pub after_register : State P
    after_register = record s {
      user_rows =
          users.update (has_id registered.id)
            (with_verification (crypto.sha256 mailed_token) (set_hours 24 s.now))
            (users.save registered s.user_rows);
      drawn = s.drawn + 1 + 1;
      sent =
          email_verification registered.id email full_name mailed_token (set_hours 24 s.now)
          ∷ s.sent;
    }

    register_answered :
        users.find (has_email email) s.user_rows ≡ []
        → register P email password full_name s []
          ≡ (ok (user_without_password registered), after_register, [])
    unfolding register create start_verification next_reply later_replies
    register_answered free = ground (arith, free)

    stored_pending : users.get registered.id after_register.user_rows ≡ some pending_user
    stored_pending = ground (
      arith,
      users.get-save registered.id registered s.user_rows,
      users.get-update registered.id (has_id registered.id)
          (with_verification (crypto.sha256 mailed_token) (set_hours 24 s.now))
          (users.save registered s.user_rows) (λ u. refl),
    )

    found_pending :
        users.find (has_verification_token (crypto.sha256 mailed_token)) s.user_rows ≡ []
        → head? (
            users.find
              (has_verification_token (crypto.sha256 mailed_token))
              after_register.user_rows)
          ≡ some pending_user
    found_pending unused =
        let digest = crypto.sha256 mailed_token in
        head-find users (has_verification_token digest) registered.id pending_user
          after_register.user_rows stored_pending (ground arith)
          (update-save_only users (has_verification_token digest)
            (with_verification digest (set_hours 24 s.now)) registered s.user_rows unused
            (λ u. refl))

    -- The state a time d later.
    abbrev pub later : ℕ → State P
    later d = record after_register { now = s.now + d }

    -- A registration and the link of its mail: where the address is free, no user has the digest of
    -- the token, the local clock is not changed in the 24 hours, and every call answers, the new user is returned without the password's hash and
    -- the mail carries the token. Presented within 24 hours, the token makes the stored user
    -- verified and is gone from the row; presented later it is refused and the row is as it was.
    pub verify_email-register :
        (d : ℕ)
        → set_hours 24 s.now ≡ s.now + hours 24
        → users.find (has_email email) s.user_rows ≡ []
        → users.find (has_verification_token (crypto.sha256 mailed_token)) s.user_rows ≡ []
        → let (a, s1, r1) = register P email password full_name s [] in
          let (b, s2, r2) = verify_email P mailed_token (record s1 { now = s.now + d }) [] in
          let late = ltb (hours 24) d in
          (a ≡ ok (user_without_password registered))
          × (s1.sent
              ≡ email_verification registered.id email full_name mailed_token (s.now + hours 24)
                ∷ s.sent)
          × (b ≡ (if late then err invalid_token else ok verified_successfully))
          × (users.get registered.id s2.user_rows
              ≡ some (if late then pending_user else verified pending_user))
    unfolding verify_email next_reply later_replies
    verify_email-register d steady free unused =
        rw (register_answered free) (elim (Bool-cases (ltb (hours 24) d)) [
          | inl e ↦ ground (arith, e, steady, found_pending unused, stored_pending)
          | inr e ↦ ground (
            arith,
            e,
            steady,
            found_pending unused,
            stored_pending,
            users.get-update registered.id (has_id registered.id) verified after_register.user_rows
                (λ u. refl),
          )
        ])
