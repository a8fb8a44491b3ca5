-- ===== src/Seats/Locks/Exclusion.antt =====
-- `lockSeats` takes all the locks that it asks for or none, and only free ones.
use distributed_nestjs_event.Base.{
  ap, sym, ◌∙◌, subst, >>=-ok, ℕ, ◌*◌, ◌≡◌, refl, Bool, true, false, none, some, List, [], ◌∷◌,
  arith, if◌then◌else◌, Script, ok, ltb, All, pure,
}
use distributed_nestjs_event.External.LockStore.{LockKey, LockData}
use distributed_nestjs_event.Seats.Types.{Platform, State}
use distributed_nestjs_event.Seats.Locks.{
  lock_key, lock_loop, lock_ttl, second, LockResult, del_loop, conclude, lock_seats,
}
use distributed_nestjs_event.Seats.Locks.Keys.{
  has_key, lock_later, SameButLocks, SameButLocks-trans, del_loop-SameButLocks, del_loop_lem,
  Locked, value_of,
}
use distributed_nestjs_event.Seats.Locks.Locking.{Looped, lock_loop-Looped}

module _ (P : Platform) where
  open P use {locks}

  -- What a `lockSeats` that returned has done, by whether it reported success.
  abbrev pub OutcomeBy : Bool → ℕ → LockData → List ℕ → State P → State P → Type 0
  OutcomeBy true event v seats s s' =
      (d : ℕ)
      → All
          (λ seat.
            (lock_later P d (lock_key event seat) s'
              ≡ (if ltb d (lock_ttl * second) then some v else none))
            × (lock_later P d (lock_key event seat) s ≡ none))
          seats
  OutcomeBy false event v seats s s' =
      (k : LockKey) (d : ℕ) → lock_later P d k s' ≡ lock_later P d k s

  abbrev pub Outcome : ℕ → LockData → List ℕ → State P → State P → LockResult → Type 0
  Outcome event v seats s s' res = SameButLocks P s s' × OutcomeBy res.success event v seats s s'

  Locked-seats :
      (event : ℕ) (v : LockData) (seats : List ℕ) (keys : List LockKey) (s s' : State P) (d : ℕ)
      → Locked P v keys s s'
      → All (λ seat. has_key (lock_key event seat) keys ≡ true) seats
      → All
          (λ seat.
            (lock_later P d (lock_key event seat) s'
              ≡ (if ltb d (lock_ttl * second) then some v else none))
            × (lock_later P d (lock_key event seat) s ≡ none))
          seats
  Locked-seats event v [] keys s s' d h m = tt
  Locked-seats event v (seat ∷ seats) keys s s' d h m = (
    ground (arith, h.locked_now (lock_key event seat) d, h.was_free (lock_key event seat) d),
    Locked-seats event v seats keys s s' d h m.1,
  )

  conclude-Outcome :
      (event : ℕ) (v : LockData) (seats : List ℕ) (keys : List LockKey) (failed : List ℕ)
      (s s' : State P) (r : Script) (res : LockResult)
      → Looped P event v seats [] [] s s' (keys, failed)
      → (conclude P keys failed s' r).0 ≡ ok res
      → Outcome event v seats s (conclude P keys failed s' r).1 res
  unfolding conclude
  conclude-Outcome event v seats keys [] s s' r res h e =
      let succeeded : res ≡ record { success = true; failed_seat_ids = [] } = cc in
      subst (Outcome event v seats s s') (sym succeeded)
        (h.after.only, λ d. Locked-seats event v seats keys s s' d h.after (h.none_failed refl).1)
  conclude-Outcome event v seats keys (x ∷ failed) s s' r res h e =
      let (u, deleted, step) =
        >>=-ok (del_loop P keys)
          (λ done. pure (record { success = false; failed_seat_ids = x ∷ failed })) s' r res e in
      let same = ap (λ y. y.0) (sym step) ∙ e in
      let report : LockResult = record { success = false; failed_seat_ids = x ∷ failed } in
      let failed_so : res ≡ report = ground (arith, same) in
      subst (λ y. Outcome event v seats s y.1 res) (sym step)
        (subst (Outcome event v seats s (del_loop P keys s' r).1) (sym failed_so) (
          SameButLocks-trans P h.after.only (del_loop-SameButLocks P keys s' r),
          λ k d. ground (
            arith,
            deleted,
            del_loop_lem P keys s' r u k d,
            h.after.locked_now k d,
            h.after.was_free k d,
            del_loop-SameButLocks P keys s' r,
          ),
        ))

  Locked-refl : (v : LockData) (s : State P) → Locked P v [] s s
  Locked-refl v s = record { only = ground arith; locked_now = λ k d. refl; was_free = λ k d m. cc }

  -- What a call of `lockSeats` that returns has done, on both of its results; a call that throws may
  -- leave locks behind. Nothing but the locks has
  -- changed. If it reports success, then every seat that was asked for was free, and is locked with
  -- the caller's value until the time to live has passed and not after. If it reports failure, then at every later
  -- time every lock is as it would have been without the call.
  pub lock_seats-Outcome :
      (event : ℕ) (seats : List ℕ) (user session : ℕ) (s : State P) (r : Script) (res : LockResult)
      → (lock_seats P event seats user session s r).0 ≡ ok res
      → Outcome event
          (value_of P user session s)
          seats
          s
          (lock_seats P event seats user session s r).1
          res
  unfolding lock_seats
  lock_seats-Outcome event seats user session s r res e =
      let ((keys, failed), looped, step) =
        >>=-ok (lock_loop P event user session seats [] []) (λ (l, f). conclude P l f) s r res e in
      let s' = (lock_loop P event user session seats [] [] s r).1 in
      let r' = (lock_loop P event user session seats [] [] s r).2 in
      subst (λ y. Outcome event (value_of P user session s) seats s y.1 res) (sym step)
        (conclude-Outcome event (value_of P user session s) seats keys failed s s' r' res
          (lock_loop-Looped P event user session seats [] [] s s r (keys, failed) (Locked-refl _ s)
            looped)
          (ap (λ y. y.0) (sym step) ∙ e))
