-- ===== src/Seats/Grpc/Verifying.antt =====
-- What `verifyHold` tells of the locks.
use distributed_nestjs_event.Base.{
  ℕ, ◌+◌, ◌*◌, ◌≡◌, ◌≢◌, refl, Bool, true, none, some, List, [], ◌∷◌, arith, if◌then◌else◌, ◌&&◌,
  Script, ok, ltb, All, subst, ap, ◌∙◌, Bool-cases, inl, inr, next_reply, later_replies,
}
use distributed_nestjs_event.Seats.Types.{Platform, State}
use distributed_nestjs_event.Seats.Locks.{
  lock_key, lock_at, lock_ttl, second, LockResult, lock_seats, get_lock_info,
}
use distributed_nestjs_event.Seats.Locks.Keys.{lock_later, value_of}
use distributed_nestjs_event.Seats.Locks.Exclusion.{OutcomeBy, lock_seats-Outcome}
use distributed_nestjs_event.Seats.Grpc.{is_owner, verify_hold}

module _ (P : Platform) where
  -- Whether every seat has a lock of the user.
  abbrev pub all_owned : ℕ → List ℕ → ℕ → State P → Bool
  all_owned event [] user s = true
  all_owned event (seat ∷ seats) user s =
      is_owner user (lock_at P (lock_key event seat) s) && all_owned event seats user s

  -- An answer of `verifyHold` is whether every seat has a lock of the user at that time, and the
  -- call changes nothing, however its calls end.
  pub verify_hold-all_owned :
      (event : ℕ) (seats : List ℕ) (user : ℕ) (s : State P) (r : Script) (b : Bool)
      → (verify_hold P event seats user s r).0 ≡ ok b
      → (b ≡ all_owned event seats user s) × ((verify_hold P event seats user s r).1 ≡ s)
  unfolding verify_hold get_lock_info
  verify_hold-all_owned event [] user s r b h = ground (arith, h)
  verify_hold-all_owned event (seat ∷ seats) user s r b h =
      elim (Bool-cases (is_owner user (lock_at P (lock_key event seat) s))) [
        | inl e ↦ ground (arith, h, e, verify_hold-all_owned event seats user s (later_replies r) b)
        | inr e ↦ ground (arith, h, e, verify_hold-all_owned event seats user s (later_replies r) b)
      ]

  verify_hold_answered :
      (event : ℕ) (seats : List ℕ) (user : ℕ) (s : State P)
      → verify_hold P event seats user s [] ≡ (ok (all_owned event seats user s), s, [])
  unfolding verify_hold get_lock_info next_reply later_replies
  verify_hold_answered event [] user s = refl
  verify_hold_answered event (seat ∷ seats) user s =
      elim (Bool-cases (is_owner user (lock_at P (lock_key event seat) s))) [
        | inl e ↦ ground (arith, e, verify_hold_answered event seats user s)
        | inr e ↦ ground (arith, e, verify_hold_answered event seats user s)
      ]

  -- The state at a later time, when no request has run in between.
  abbrev pub later : ℕ → State P → State P
  later d s = record s { now = s.now + d }

  -- Whether the locks of a value are there a time d after they were set.
  abbrev pub lives : ℕ → Bool
  lives d = ltb d (lock_ttl * second)

  abbrev LockedFor : ℕ → ℕ → ℕ → ℕ → State P → State P → ℕ → Type 0
  LockedFor event d user session s s' seat =
      (lock_later P d (lock_key event seat) s'
        ≡ (if lives d then some (value_of P user session s) else none))
      × (lock_later P d (lock_key event seat) s ≡ none)

  all_owned-lives :
      (event d user session : ℕ) (seats : List ℕ) (s s' : State P)
      → All (LockedFor event d user session s s') seats
      → lives d ≡ true
      → all_owned event seats user (later d s') ≡ true
  all_owned-lives event d user session [] s s' h e = refl
  all_owned-lives event d user session (seat ∷ seats) s s' h e =
      ground (arith, h.0, e, all_owned-lives event d user session seats s s' h.1 e)

  owned-lives :
      (event d user session seat : ℕ) (seats : List ℕ) (s s' : State P)
      → All (LockedFor event d user session s s') (seat ∷ seats)
      → all_owned event (seat ∷ seats) user (later d s') ≡ lives d
  owned-lives event d user session seat seats s s' h = elim (Bool-cases (lives d)) [
    | inl e ↦ ground (arith, h.0, e, all_owned-lives event d user session (seat ∷ seats) s s' h)
    | inr e ↦ ground (arith, h.0, e, all_owned-lives event d user session (seat ∷ seats) s s' h)
  ]

  -- A user whose locks were taken is verified until the time to live has passed and not after: when
  -- `lockSeats` reports success for at least one seat, and a time later, with no other request in
  -- between, `verifyHold` answers for the same seats and user, the answer is whether the locks live.
  pub verify_hold-lock_seats :
      (event seat : ℕ) (seats : List ℕ) (user session d : ℕ) (s : State P) (r : Script)
      (res : LockResult)
      → (lock_seats P event (seat ∷ seats) user session s r).0 ≡ ok res
      → res.success ≡ true
      → (verify_hold P event
          (seat ∷ seats)
          user
          (later d (lock_seats P event (seat ∷ seats) user session s r).1)
          []).0
        ≡ ok (lives d)
  verify_hold-lock_seats event seat seats user session d s r res e won =
      let s' = (lock_seats P event (seat ∷ seats) user session s r).1 in
      let v = value_of P user session s in
      let outcome = lock_seats-Outcome P event (seat ∷ seats) user session s r res e in
      let taken : OutcomeBy P true event v (seat ∷ seats) s s' =
        subst (λ b. OutcomeBy P b event v (seat ∷ seats) s s') won outcome.1 in
      ap (λ y. y.0) (verify_hold_answered event (seat ∷ seats) user (later d s'))
      ∙ ap ok (owned-lives event d user session seat seats s s' (taken d))

  -- While a seat is verified for one user, it is not verified for another, whatever else the two
  -- requests ask for and however their calls end.
  pub verify_hold-exclusive :
      (event seat : ℕ) (seats others : List ℕ) (user other : ℕ) (s : State P) (r r' : Script)
      → user ≢ other
      → (verify_hold P event (seat ∷ seats) user s r).0 ≡ ok true
      → (verify_hold P event (seat ∷ others) other s r').0 ≢ ok true
  verify_hold-exclusive event seat seats others user other s r r' differ h k = ground (
    arith,
    differ,
    verify_hold-all_owned event (seat ∷ seats) user s r true h,
    verify_hold-all_owned event (seat ∷ others) other s r' true k,
  )
