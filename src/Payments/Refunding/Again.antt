-- ===== src/Payments/Refunding/Again.antt =====
-- What a retry of a refund that has succeeded is told.
use distributed_nestjs_event.Base.{
  [], refl, ℕ, ◌≡◌, head?, true, false, Option, none, ◌∷◌, arith, Script, ok, later_replies,
  next_reply,
}
use distributed_nestjs_event.External.Repository.{find-save_out}
use distributed_nestjs_event.Payments.Types.{
  Platform, State, Payment, PaymentStatus, PaymentProvider,
}
use distributed_nestjs_event.Payments.Gateways.{StripeAnswer, gateway_refund, get_by_provider}
use distributed_nestjs_event.Payments.Refunding.{
  has_refund_key, succeeded_of, refund_replied, refund_try, refund_new, refund_payment_of,
  refund_by_booking, refund_succeeds,
}

abbrev pub refunded_payment : Payment → Payment
refunded_payment p = record p { status = PaymentStatus.refunded }

module _ (P : Platform) where
  open P use {payments, refunds}

  -- The only succeeded payment of a booking is found no more once it is stored as refunded.
  none_left :
      (booking : ℕ) (p : Payment) (t : payments.Table)
      → payments.find (succeeded_of booking) t ≡ p ∷ []
      → payments.find (succeeded_of booking) (payments.save (refunded_payment p) t) ≡ []
  none_left booking p t h =
      find-save_out payments (succeeded_of booking) p (refunded_payment p) t h refl (ground arith)

  refund_answered :
      (booking key : ℕ) (reason : Option ℕ) (answers : ℕ → StripeAnswer) (p : Payment)
      (provider : PaymentProvider) (s : State P)
      → payments.find (succeeded_of booking) s.payment_rows ≡ p ∷ []
      → head? (refunds.find (has_refund_key key) s.refund_rows) ≡ none
      → get_by_provider p.provider ≡ ok provider
      → (gateway_refund provider answers).success ≡ true
      → let (a, s', r') = refund_succeeds P booking key reason answers s [] in
        (a ≡ ok true) × (s'.payment_rows ≡ payments.save (refunded_payment p) s.payment_rows)
  unfolding refund_succeeds refund_by_booking refund_payment_of refund_new refund_try refund_replied
      next_reply later_replies
  refund_answered booking key reason answers p provider s h n e b = ground (arith, h, n, e, b)

  refused_again :
      (booking key : ℕ) (reason : Option ℕ) (answers : ℕ → StripeAnswer) (s : State P) (r : Script)
      → payments.find (succeeded_of booking) s.payment_rows ≡ []
      → let (a, s', r') = refund_succeeds P booking key reason answers s r in
        (a ≡ ok false) × (s' ≡ s)
  unfolding refund_succeeds refund_by_booking
  refused_again booking key reason answers s r h = ground (arith, h)

  -- A refund that has succeeded is denied to a retry: where a booking has one succeeded payment and
  -- the first request, with every call answering, is told of success, a second request with the same
  -- key is told of failure, however its calls end, and changes nothing.
  pub refund_succeeds-again :
      (booking key : ℕ) (reason : Option ℕ) (answers : ℕ → StripeAnswer) (p : Payment)
      (provider : PaymentProvider) (s : State P) (r : Script)
      → payments.find (succeeded_of booking) s.payment_rows ≡ p ∷ []
      → head? (refunds.find (has_refund_key key) s.refund_rows) ≡ none
      → get_by_provider p.provider ≡ ok provider
      → (gateway_refund provider answers).success ≡ true
      → let (a, s1, r1) = refund_succeeds P booking key reason answers s [] in
        let (a', s2, r2) = refund_succeeds P booking key reason answers s1 r in
        (a ≡ ok true) × (a' ≡ ok false) × (s2 ≡ s1)
  refund_succeeds-again booking key reason answers p provider s r h n e b =
      let first = refund_answered booking key reason answers p provider s h n e b in
      let after = (refund_succeeds P booking key reason answers s []).1 in
      let gone : payments.find (succeeded_of booking) after.payment_rows ≡ [] =
        rw first.1 (none_left booking p s.payment_rows h) in
      let denied = refused_again booking key reason answers after r gone in
      (first.0, denied.0, denied.1)
