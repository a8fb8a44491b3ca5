-- ===== src/Booking/Refund/Steps.antt =====
-- The refund machine follows its diagram, and asks for the money back at most once in a run.
use distributed_nestjs_event.Base.{
  ◌≢◌, ℕ, zero, suc, ◌+◌, ◌≤◌, ◌≡◌, refl, Bool, true, false, Option, none, some, arith, Result, ok,
  err, Script, Result-cases, inl, inr, ◌⊎◌, later_replies,
}
use distributed_nestjs_event.Booking.Types.{Platform, State, RefundState}
use distributed_nestjs_event.Booking.Refund.{
  step_initiated, step_payment_refunded, step_seats_released, complete_refund, dispatch,
  record_failure, refund_step, refund_loop, process_refund,
}
use distributed_nestjs_event.Booking.Refund.Diagram.{
  refunds, refunds_left, releases, releases_left, reaches, reaches_refl, reaches_trans,
}

module _ (P : Platform) where
  -- A state is left for one with less to ask for only by asking for it.
  abbrev pub AllAsked : State P → State P → Type 0
  AllAsked s s' =
      (refunds s.sent + refunds_left s.booking.refund_state
        ≤ refunds s'.sent + refunds_left s'.booking.refund_state)
      × (releases s.sent + releases_left s.booking.refund_state
          ≤ releases s'.sent + releases_left s'.booking.refund_state)

  -- What one step does to the state of the machine and to the messages sent.
  abbrev Stepped : State P → Result Bool × State P × Script → Type 0
  Stepped s (ok false, s', r') =
      (reaches s.booking.refund_state s'.booking.refund_state ≡ true)
      × AllAsked s s'
      × (refunds s'.sent + refunds_left s'.booking.refund_state
          ≤ refunds s.sent + refunds_left s.booking.refund_state)
  Stepped s (ok true, s', r') =
      (reaches s.booking.refund_state s'.booking.refund_state ≡ true)
      × AllAsked s s'
      × (refunds s'.sent ≤ refunds s.sent + refunds_left s.booking.refund_state)
  Stepped s (err e, s', r') =
      (reaches s.booking.refund_state s'.booking.refund_state ≡ true)
      × AllAsked s s'
      × (refunds s'.sent ≤ refunds s.sent + refunds_left s.booking.refund_state)

  -- The writes of the last step send nothing, and the entity is as before or completed.
  complete_refund_lem :
      (s : State P) (r : Script)
      → ((complete_refund P s r).1.sent ≡ s.sent)
        × (((complete_refund P s r).1.booking.refund_state ≡ s.booking.refund_state)
            ⊎ ((complete_refund P s r).1.booking.refund_state ≡ some RefundState.completed))
  unfolding complete_refund
  complete_refund_lem s r = ground arith

  step_seats_released_lem :
      (s : State P) (r : Script)
      → ((step_seats_released P s r).1.sent ≡ s.sent)
        × (((step_seats_released P s r).1.booking.refund_state ≡ s.booking.refund_state)
            ⊎ ((step_seats_released P s r).1.booking.refund_state ≡ some RefundState.completed))
  unfolding step_seats_released
  step_seats_released_lem s r =
      let begun : State P = record s { tx = some s.db } in
      ground (arith, complete_refund_lem begun (later_replies (later_replies r)))

  step_seats_released-continues :
      (s : State P) (r : Script) → (step_seats_released P s r).0 ≢ ok false
  unfolding step_seats_released
  step_seats_released-continues s r h =
      let begun : State P = record s { tx = some s.db } in
      elim (Result-cases (complete_refund P begun (later_replies (later_replies r))).0) [
        | inl (u, e) ↦ ground (arith, e)
        | inr (x, e) ↦ ground (arith, e)
      ]

  dispatch_lem :
      (state : Option RefundState) (s : State P) (r : Script)
      → s.booking.refund_state ≡ state
      → Stepped s (dispatch P state s r)
  unfolding step_initiated step_payment_refunded
  dispatch_lem none s r h = ground arith
  dispatch_lem (some RefundState.refund_initiated) s r h = ground arith
  dispatch_lem (some RefundState.payment_refunded) s r h = ground arith
  dispatch_lem (some RefundState.seats_released) s r h =
      ground (arith, step_seats_released_lem s r, step_seats_released-continues s r)
  dispatch_lem (some RefundState.completed) s r h = ground arith
  dispatch_lem (some RefundState.failed) s r h = ground arith

  refund_step_lem : (s : State P) (r : Script) → Stepped s (refund_step P s r)
  unfolding refund_step record_failure
  refund_step_lem s r =
      let d = dispatch P s.booking.refund_state s r in
      let known = dispatch_lem s.booking.refund_state s r refl in
      elim (Result-cases d.0) [
        | inl (done, e) ↦ ground (arith, e, known)
        | inr (x, e) ↦ ground (arith, e, known)
      ]

  refund_loop_lem :
      (n : ℕ) (s : State P) (r : Script)
      → (reaches s.booking.refund_state (refund_loop P n s r).1.booking.refund_state ≡ true)
        × AllAsked s (refund_loop P n s r).1
        × (refunds (refund_loop P n s r).1.sent
            ≤ refunds s.sent + refunds_left s.booking.refund_state)
  unfolding refund_loop
  refund_loop_lem zero s r =
      (reaches_refl s.booking.refund_state, (omega arith, omega arith), omega arith)
  refund_loop_lem (suc n) s r =
      let step = refund_step P s r in
      let known = refund_step_lem s r in
      let rest = refund_loop_lem n step.1 step.2 in
      let through =
        reaches_trans s.booking.refund_state step.1.booking.refund_state
          (refund_loop P n step.1 step.2).1.booking.refund_state in
      elim (Result-cases step.0) [
        | inl (true, e) ↦ ground (arith, e, known)
        | inl (false, e) ↦ ground (arith, e, known, rest, through)
        | inr (x, e) ↦ ground (arith, e, known)
      ]

  -- A run asks the payment service for a refund at most once, and only if it began in the state in
  -- which the refund is initiated, however its calls end.
  pub refunds-process_refund :
      (s : State P) (r : Script)
      → refunds (process_refund P s r).1.sent ≤ refunds s.sent + refunds_left s.booking.refund_state
  unfolding process_refund
  refunds-process_refund s r = (refund_loop_lem 5 s r).2
