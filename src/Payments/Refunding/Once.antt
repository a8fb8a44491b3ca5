-- ===== src/Payments/Refunding/Once.antt =====
-- A key is refunded once.
use distributed_nestjs_event.Base.{
  sym, List-cases, ℕ, ◌+◌, ◌≤◌, ◌≡◌, ◌⊎◌, inl, inr, refl, Bool, head?, true, false, Option, none,
  some, List, [], ◌∷◌, arith, ◌==◌, Option-cases, Script, Result-cases, Error, try_catch,
  later_replies,
}
use distributed_nestjs_event.Payments.Types.{
  Platform, State, PaymentMessage, refund, Refund, PaymentGatewayResponse,
}
use distributed_nestjs_event.Payments.Gateways.{StripeAnswer, gateway_refund, get_by_provider}
use distributed_nestjs_event.Payments.Refunding.{
  has_refund_key, succeeded_of, new_refund, refund_replied, refund_try, refund_threw, refund_new,
  refund_payment_of, refund_by_booking,
}

-- The requests to give money back.
abbrev pub paybacks : List PaymentMessage → ℕ
paybacks [] = 0
paybacks (refund p t a ∷ ms) = paybacks ms + 1
paybacks (_ ∷ ms) = paybacks ms

-- A request for a refund that is sent again: the key stays, all else may differ.
pub record RefundRetry : Type 0 where
  pub at : ℕ
  pub booking : ℕ
  pub reason : Option ℕ
  pub answers : ℕ → StripeAnswer
  pub script : Script

module _ (P : Platform) where
  open P use {payments, refunds}

  -- Whether the row of a refund has a key.
  abbrev keyed : ℕ → Option Refund → Bool
  keyed key none = false
  keyed key (some x) = x.idempotency_key == key

  -- The entity in memory and the row of it have the key.
  abbrev Keyed : ℕ → ℕ → State P → Type 0
  Keyed key i s =
      (s.pending_refund.id ≡ i)
      × (s.pending_refund.idempotency_key ≡ key)
      × (keyed key (refunds.get i s.refund_rows) ≡ true)

  refund_replied-paybacks :
      (key i : ℕ) (response : PaymentGatewayResponse) (s : State P) (r : Script)
      → Keyed key i s
      → let s' = (refund_replied P response s r).1 in
        (paybacks s'.sent ≡ paybacks s.sent) × Keyed key i s'
  unfolding refund_replied
  refund_replied-paybacks key i response s r h =
      let s' = (refund_replied P response s r).1 in
      ground (arith, h, refunds.get-save i s'.pending_refund s.refund_rows)

  refund_threw-paybacks :
      (key i : ℕ) (e : Error) (s : State P) (r : Script)
      → Keyed key i s
      → let s' = (refund_threw P e s r).1 in (paybacks s'.sent ≡ paybacks s.sent) × Keyed key i s'
  unfolding refund_threw
  refund_threw-paybacks key i e s r h =
      let s' = (refund_threw P e s r).1 in
      ground (arith, h, refunds.get-save i s'.pending_refund s.refund_rows)

  refund_try-paybacks :
      (key i : ℕ) (answers : ℕ → StripeAnswer) (s : State P) (r : Script)
      → Keyed key i s
      → let s' = (refund_try P answers s r).1 in
        (paybacks s'.sent ≤ paybacks s.sent + 1) × Keyed key i s'
  unfolding refund_try
  refund_try-paybacks key i answers s r h =
      elim (Result-cases (get_by_provider s.payment.provider)) [
        | inl (provider, e) ↦
            let t : State P = record s {
              sent = refund provider s.payment.provider_tx_id s.payment.amount ∷ s.sent;
            } in
            ground
              (arith, h, e, refund_replied-paybacks key i (gateway_refund provider answers) t r h)
        | inr (x, e) ↦ ground (arith, h, e)
      ]

  tried-Keyed :
      (key i : ℕ) (answers : ℕ → StripeAnswer) (s : State P) (r : Script)
      → Keyed key i s
      → let s' = (try_catch (refund_try P answers) (refund_threw P) s r).1 in
        (paybacks s'.sent ≤ paybacks s.sent + 1) × Keyed key i s'
  tried-Keyed key i answers s r h =
      let after = refund_try P answers s r in
      let tried = refund_try-paybacks key i answers s r h in
      elim (Result-cases after.0) [
        | inl (x, e) ↦ ground (arith, e, tried)
        | inr (x, e) ↦
            ground (arith, e, tried, refund_threw-paybacks key i x after.1 after.2 tried.1)
      ]

  refund_new-paybacks :
      (key : ℕ) (reason : Option ℕ) (answers : ℕ → StripeAnswer) (s : State P) (r : Script)
      → let s' = (refund_new P key reason answers s r).1 in
        (paybacks s'.sent ≡ paybacks s.sent)
        ⊎ ((paybacks s'.sent ≤ paybacks s.sent + 1)
            × (keyed key (refunds.get (refunds.fresh s.refund_rows) s'.refund_rows) ≡ true))
  unfolding refund_new
  refund_new-paybacks key reason answers s r =
      let i = refunds.fresh s.refund_rows in
      let x = new_refund i s.now key reason s.payment in
      let t : State P = record s {
        pending_refund = x;
        refund_rows = refunds.save x s.refund_rows;
      } in
      let t-Keyed : Keyed key i t = ground (arith, refunds.get-save i x s.refund_rows) in
      ground (arith, tried-Keyed key i answers t (later_replies r) t-Keyed)

  refund_by_booking-paybacks :
      (booking key : ℕ) (reason : Option ℕ) (answers : ℕ → StripeAnswer) (s : State P) (r : Script)
      → let s' = (refund_by_booking P booking key reason answers s r).1 in
        (paybacks s'.sent ≡ paybacks s.sent)
        ⊎ ((paybacks s'.sent ≤ paybacks s.sent + 1)
            × (keyed key (refunds.get (refunds.fresh s.refund_rows) s'.refund_rows) ≡ true))
  unfolding refund_by_booking refund_payment_of
  refund_by_booking-paybacks booking key reason answers s r =
      elim (Option-cases (head? (payments.find (succeeded_of booking) s.payment_rows))) [
        | inl e ↦ ground (arith, e)
        | inr (p, e) ↦ ground (
          arith,
          e,
          refund_new-paybacks key reason answers (record s { payment = p })
              (later_replies (later_replies r)),
        )
      ]

  -- A stored refund with the key is found, so that nothing is sent and no row is written.
  refund_by_booking_again :
      (i booking key : ℕ) (reason : Option ℕ) (answers : ℕ → StripeAnswer) (s : State P)
      (r : Script)
      → keyed key (refunds.get i s.refund_rows) ≡ true
      → let s' = (refund_by_booking P booking key reason answers s r).1 in
        (s'.sent ≡ s.sent) × (s'.refund_rows ≡ s.refund_rows)
  unfolding refund_by_booking refund_payment_of
  refund_by_booking_again i booking key reason answers s r h =
      elim (List-cases (refunds.find (has_refund_key key) s.refund_rows)) [
        | inl none_there ↦
            absurd
              (ground (arith, h, none_there, refunds.get-find i (has_refund_key key) s.refund_rows))
        | inr (x, xs, e) ↦ ground (arith, e)
      ]

  abbrev pub refund_again : ℕ → RefundRetry → State P → State P
  refund_again key x s =
      (refund_by_booking P x.booking key x.reason x.answers (record s { now = x.at }) x.script).1

  -- Runs of `refundByBooking`, one after the other, each at its time.
  abbrev pub refund_all : ℕ → List RefundRetry → State P → State P
  refund_all key [] s = s
  refund_all key (x ∷ xs) s = refund_all key xs (refund_again key x s)

  refund_all-keyed :
      (i key : ℕ) (xs : List RefundRetry) (s : State P)
      → keyed key (refunds.get i s.refund_rows) ≡ true
      → (refund_all key xs s).sent ≡ s.sent
  refund_all-keyed i key [] s h = refl
  refund_all-keyed i key (x ∷ xs) s h =
      let same =
        refund_by_booking_again i x.booking key x.reason x.answers (record s { now = x.at })
          x.script h in
      ground
        (arith, refund_all-keyed i key xs (refund_again key x s) (ground (arith, h, same)), same)

  -- However often a refund is asked for with one idempotency key, whatever else the requests say,
  -- and however the calls of each run end, a gateway is asked to give money back at most once.
  pub paybacks-refund_all :
      (key : ℕ) (xs : List RefundRetry) (s : State P)
      → paybacks (refund_all key xs s).sent ≤ paybacks s.sent + 1
  paybacks-refund_all key [] s = omega arith
  paybacks-refund_all key (x ∷ xs) s =
      let after = refund_again key x s in
      elim (refund_by_booking-paybacks x.booking key x.reason x.answers (record s { now = x.at })
        x.script) [
          | inl same ↦ rw (sym same) (paybacks-refund_all key xs after)
          | inr (le, there) ↦
              rw (refund_all-keyed (refunds.fresh s.refund_rows) key xs after there) le
        ]
