-- ===== src/Booking/Recovery.antt =====
-- `RefundRecoveryWorker` (apps/booking-service/src/booking/refund-recovery.worker.ts): once a
-- minute it resumes the refunds that are stuck.
use distributed_nestjs_event.Base.{
  by_key-All, All, or_else, Option-cases, ℕ, ◌≡◌, refl, Bool, true, false, none, some, List, [],
  ◌∷◌, map, arith, ok, Action, pure, query, gets, modify, try_catch, finally, ◌>>=◌, ◌>>◌, leb, ltb,
  ◌&&◌, ◌==◌, if◌then◌else◌, next_reply, later_replies, by_key, Distinct, includes, by_key-none,
  Bool-cases, inl, inr,
}
use mathlib.Core.Option
use distributed_nestjs_event.Booking.Types.{
  Platform, State, Booking, BookingStatus, RefundState, booking_key,
}
use distributed_nestjs_event.Booking.Refund.{assign, process_refund}
use distributed_nestjs_event.Booking.Refund.Completion.{
  is_stuck, get-final_state, process_refund-final,
}

-- `MAX_RETRIES`
abbrev pub max_retries : ℕ
max_retries = 5

-- `where: { refundState: In([…]) }`
abbrev pub stuck : Booking → Bool
stuck b = elim b.refund_state [ none ↦ false | some state ↦ is_stuck state ]

module _ (P : Platform) where
  open P use {bookings}

  -- The body of the loop: the state machine, with its error logged.
  unfoldable pub recover_one : Booking → Action (State P) (Unit {0})
  recover_one b = elim (leb max_retries b.refund_retry_count) [
    | true ↦ pure tt
    | false ↦ try_catch (assign P (λ x. b) >> process_refund P) (λ error. pure tt)
  ]

  unfoldable pub recover_all : List Booking → Action (State P) (Unit {0})
  recover_all [] = pure tt
  recover_all (b ∷ bs) = recover_one b >> recover_all bs

  -- `recoveryStuckRefunds`
  unfoldable pub recover_stuck_refunds : Action (State P) (Unit {0})
  recover_stuck_refunds = gets (λ s. s.is_processing) >>= λ busy. elim busy [
    | true ↦ pure tt
    | false ↦
        modify (λ s. record s { is_processing = true })
        >> finally (query (λ s. bookings.find stuck s.db.booking_rows) >>= recover_all)
            (λ s. record s { is_processing = false })
  ]

  -- Whether the worker resumes the refund of a booking, and what becomes of the booking.
  abbrev pub resumes : Booking → Bool
  resumes b = stuck b && ltb b.refund_retry_count max_retries

  abbrev pub refunded_at : ℕ → Booking → Booking
  refunded_at now b = record b {
    status = BookingStatus.refunded;
    cancelled_at = some now;
    refund_state = some RefundState.completed;
  }

  abbrev resumed : ℕ → Booking → Booking
  resumed now b = if ltb b.refund_retry_count max_retries then refunded_at now b else b

  recover_one_answered :
      (b : Booking) (s : State P) (i : ℕ)
      → stuck b ≡ true
      → bookings.get b.id s.db.booking_rows ≡ some b
      → let (a, s', r') = recover_one b s [] in
        (a ≡ ok tt)
        × (r' ≡ [])
        × (s'.now ≡ s.now)
        × (bookings.get i s'.db.booking_rows
            ≡ (if i == b.id then some (resumed s.now b) else bookings.get i s.db.booking_rows))
  unfolding recover_one
  recover_one_answered b s i h there =
      let s' : State P = record s { booking = b } in
      elim (Bool-cases (leb max_retries b.refund_retry_count)) [
        | inl spent ↦ ground (arith, spent, there)
        | inr left ↦ elim (Option-cases b.refund_state) [
          | inl e ↦ ground (arith, e, h)
          | inr (state, e) ↦ ground (
            arith,
            left,
            process_refund-final P state s' e (ground (arith, e, h)),
            get-final_state P state s' i,
          )
        ]
      ]

  -- What the recovery may take for granted of the bookings that it has read.
  abbrev AreStuck : List Booking → State P → Type 0
  AreStuck bs s = All (λ b. (stuck b ≡ true) × (bookings.get b.id s.db.booking_rows ≡ some b)) bs

  recover_one-AreStuck :
      (b : Booking) (bs : List Booking) (s : State P)
      → stuck b ≡ true
      → bookings.get b.id s.db.booking_rows ≡ some b
      → includes (map booking_key bs) b.id ≡ false
      → AreStuck bs s
      → AreStuck bs (recover_one b s []).1
  recover_one-AreStuck b [] s h there new all = tt
  recover_one-AreStuck b (x ∷ bs) s h there new all = (
    (all.0.0, ground (arith, all.0, new, recover_one_answered b s x.id h there)),
    recover_one-AreStuck b bs s h there (ground (arith, new)) all.1,
  )

  recover_all_answered :
      (bs : List Booking) (s : State P) (i : ℕ)
      → Distinct (map booking_key bs)
      → AreStuck bs s
      → let (a, s', r') = recover_all bs s [] in
        (a ≡ ok tt)
        × (bookings.get i s'.db.booking_rows
            ≡ or_else
                (Option.map (resumed s.now) (by_key booking_key i bs))
                (bookings.get i s.db.booking_rows))
  unfolding recover_all
  recover_all_answered [] s i h all = (refl, refl)
  recover_all_answered (b ∷ bs) s i h all =
      let one = recover_one b s [] in
      ground (
        arith,
        recover_one_answered b s i all.0.0 all.0.1,
        recover_all_answered bs one.1 i h.1 (recover_one-AreStuck b bs s all.0.0 all.0.1 h.0 all.1),
        by_key-none booking_key i bs,
        h.0,
      )

  found-AreStuck : (s : State P) → AreStuck (bookings.find stuck s.db.booking_rows) s
  found-AreStuck s =
      by_key-All booking_key
        (λ b. (stuck b ≡ true) × (bookings.get b.id s.db.booking_rows ≡ some b))
        (bookings.find stuck s.db.booking_rows) (bookings.find-Distinct stuck s.db.booking_rows)
        (λ i b e. found_one s i b e)
    where
      found_one :
          (s : State P) (i : ℕ) (b : Booking)
          → by_key booking_key i (bookings.find stuck s.db.booking_rows) ≡ some b
          → (stuck b ≡ true) × (bookings.get b.id s.db.booking_rows ≡ some b)
      found_one s i b e = ground (
        arith,
        e,
        bookings.get-find i stuck s.db.booking_rows,
        bookings.get-key i s.db.booking_rows b,
      )

  -- A pass of the recovery that finds its flag down, with every call answering with success, completes exactly the refunds that are stuck
  -- and have retries left: row by row, such a booking is stored as refunded and completed, and any
  -- other is as it was. The pass returns and lowers its flag.
  pub recover_stuck_refunds-completes :
      (s : State P) (i : ℕ)
      → s.is_processing ≡ false
      → let (a, s', r') = recover_stuck_refunds s [] in
        (a ≡ ok tt)
        × (s'.is_processing ≡ false)
        × (bookings.get i s'.db.booking_rows
            ≡ Option.map
                (λ b. if resumes b then refunded_at s.now b else b)
                (bookings.get i s.db.booking_rows))
  unfolding recover_stuck_refunds next_reply later_replies
  recover_stuck_refunds-completes s i h =
      let s' : State P = record s { is_processing = true } in
      let rows = bookings.find stuck s.db.booking_rows in
      ground (
        arith,
        h,
        recover_all_answered rows s' i (bookings.find-Distinct stuck s.db.booking_rows)
            (found-AreStuck s'),
        bookings.get-find i stuck s.db.booking_rows,
      )
