-- ===== src/Payments/Charging/Once.antt =====
-- A key is charged once.
use distributed_nestjs_event.Base.{
  sym, subst, List-cases, ℕ, ◌+◌, ◌≤◌, ◌≡◌, ◌⊎◌, inl, inr, refl, Bool, true, false, Option, none,
  some, List, [], ◌∷◌, arith, ◌==◌, Script, Result-cases, Error, try_catch, later_replies,
}
use distributed_nestjs_event.Payments.Types.{
  Platform, State, Payment, PaymentMessage, charge, InitiatePaymentDto, PaymentGatewayResponse,
  PaymentStatus,
}
use distributed_nestjs_event.Payments.Gateways.{StripeAnswer, gateway_charge}
use distributed_nestjs_event.Payments.Charging.{
  has_key, charge_replied, charge_try, charge_threw, charge_new, initiate_payment, choose_gateway,
  new_payment,
}

-- The requests to charge a card.
abbrev pub charges : List PaymentMessage → ℕ
charges [] = 0
charges (charge p a c t k ∷ ms) = charges ms + 1
charges (_ ∷ ms) = charges ms

-- A request that is sent again: the key stays, all else may differ.
pub record Retry : Type 0 where
  pub at : ℕ
  pub dto : InitiatePaymentDto
  pub answers : ℕ → StripeAnswer
  pub script : Script

module _ (P : Platform) where
  open P use {payments}

  -- Whether the row of a payment has a key.
  abbrev keyed : ℕ → Option Payment → Bool
  keyed key none = false
  keyed key (some p) = p.idempotency_key == key

  -- The entity in memory and the row of it have the key.
  abbrev Keyed : ℕ → ℕ → State P → Type 0
  Keyed key i s =
      (s.payment.id ≡ i)
      × (s.payment.idempotency_key ≡ key)
      × (keyed key (payments.get i s.payment_rows) ≡ true)

  charge_replied-charges :
      (key i : ℕ) (response : PaymentGatewayResponse) (s : State P) (r : Script)
      → Keyed key i s
      → let s' = (charge_replied P response s r).1 in
        (charges s'.sent ≡ charges s.sent) × Keyed key i s'
  unfolding charge_replied
  charge_replied-charges key i response s r h =
      let s' = (charge_replied P response s r).1 in
      ground (arith, h, payments.get-save i s'.payment s.payment_rows)

  charge_threw-charges :
      (key i : ℕ) (e : Error) (s : State P) (r : Script)
      → Keyed key i s
      → let s' = (charge_threw P e s r).1 in (charges s'.sent ≡ charges s.sent) × Keyed key i s'
  unfolding charge_threw
  charge_threw-charges key i e s r h =
      let s' = (charge_threw P e s r).1 in
      ground (arith, h, payments.get-save i s'.payment s.payment_rows)

  -- The state in which the gateway is asked.
  abbrev asked : InitiatePaymentDto → State P → State P
  asked dto s =
      let p : Payment = record (s.payment) { status = PaymentStatus.processing } in
      record s {
        payment = p;
        payment_rows = payments.save p s.payment_rows;
        sent =
            charge p.provider dto.amount dto.currency dto.card_token dto.idempotency_key ∷ s.sent;
      }

  charge_try-charges :
      (key i : ℕ) (dto : InitiatePaymentDto) (answers : ℕ → StripeAnswer) (s : State P) (r : Script)
      → Keyed key i s
      → let s' = (charge_try P dto answers s r).1 in
        (charges s'.sent ≤ charges s.sent + 1) × Keyed key i s'
  unfolding charge_try
  charge_try-charges key i dto answers s r h =
      let t = asked dto s in
      let t-Keyed : Keyed key i t =
        ground (arith, h, payments.get-save i t.payment s.payment_rows) in
      ground (
        arith,
        h,
        charge_replied-charges key i (gateway_charge s.payment.provider answers) t (later_replies r)
            t-Keyed,
      )

  charged-Keyed :
      (key i : ℕ) (dto : InitiatePaymentDto) (answers : ℕ → StripeAnswer) (s : State P) (r : Script)
      → Keyed key i s
      → let s' = (try_catch (charge_try P dto answers) (charge_threw P) s r).1 in
        (charges s'.sent ≤ charges s.sent + 1) × Keyed key i s'
  charged-Keyed key i dto answers s r h =
      let after = charge_try P dto answers s r in
      let tried = charge_try-charges key i dto answers s r h in
      elim (Result-cases after.0) [
        | inl (x, e) ↦ ground (arith, e, tried)
        | inr (x, e) ↦
            ground (arith, e, tried, charge_threw-charges key i x after.1 after.2 tried.1)
      ]

  -- A run of `charge_new` charges nothing, or once with a row of the key left behind.
  charge_new-charges :
      (dto : InitiatePaymentDto) (answers : ℕ → StripeAnswer) (s : State P) (r : Script)
      → let s' = (charge_new P dto answers s r).1 in
        (charges s'.sent ≡ charges s.sent)
        ⊎ ((charges s'.sent ≤ charges s.sent + 1)
            × (keyed dto.idempotency_key
                  (payments.get (payments.fresh s.payment_rows) s'.payment_rows)
                ≡ true))
  unfolding charge_new
  charge_new-charges dto answers s r = elim (Result-cases (choose_gateway P dto.provider)) [
    | inl (provider, e) ↦
        let i = payments.fresh s.payment_rows in
        let p = new_payment i s.now dto provider in
        let t : State P = record s { payment = p; payment_rows = payments.save p s.payment_rows } in
        let t-Keyed : Keyed dto.idempotency_key i t =
          ground (arith, payments.get-save i p s.payment_rows) in
        ground
          (arith, e, charged-Keyed dto.idempotency_key i dto answers t (later_replies r) t-Keyed)
    | inr (x, e) ↦ ground (arith, e)
  ]

  -- A stored row with the key is found, so that nothing is charged and nothing is written.
  pub initiate_payment_again :
      (i : ℕ) (dto : InitiatePaymentDto) (answers : ℕ → StripeAnswer) (s : State P) (r : Script)
      → keyed dto.idempotency_key (payments.get i s.payment_rows) ≡ true
      → (initiate_payment P dto answers s r).1 ≡ s
  unfolding initiate_payment
  initiate_payment_again i dto answers s r h =
      let found = payments.find (has_key dto.idempotency_key) s.payment_rows in
      elim (List-cases found) [
        | inl none_there ↦ absurd (
            ground (
              arith,
              h,
              none_there,
              payments.get-find i (has_key dto.idempotency_key) s.payment_rows,
            ))
        | inr (p, ps, e) ↦ ground (arith, e)
      ]

  abbrev pub with_key : ℕ → InitiatePaymentDto → InitiatePaymentDto
  with_key key dto = record dto { idempotency_key = key }

  -- Runs of `initiatePayment`, one after the other, each at its time.
  abbrev pub run_all : ℕ → List Retry → State P → State P
  run_all key [] s = s
  run_all key (x ∷ xs) s =
      run_all key xs
        (initiate_payment P (with_key key x.dto) x.answers (record s { now = x.at }) x.script).1

  run_all-keyed :
      (i key : ℕ) (xs : List Retry) (s : State P)
      → keyed key (payments.get i s.payment_rows) ≡ true
      → (run_all key xs s).sent ≡ s.sent
  run_all-keyed i key [] s h = refl
  run_all-keyed i key (x ∷ xs) s h =
      let now : State P = record s { now = x.at } in
      subst (λ t. (run_all key xs t).sent ≡ s.sent)
        (sym (initiate_payment_again i (with_key key x.dto) x.answers now x.script h))
        (run_all-keyed i key xs now h)

  initiate_payment-charges :
      (dto : InitiatePaymentDto) (answers : ℕ → StripeAnswer) (s : State P) (r : Script)
      → let s' = (initiate_payment P dto answers s r).1 in
        (charges s'.sent ≡ charges s.sent)
        ⊎ ((charges s'.sent ≤ charges s.sent + 1)
            × (keyed dto.idempotency_key
                  (payments.get (payments.fresh s.payment_rows) s'.payment_rows)
                ≡ true))
  unfolding initiate_payment
  initiate_payment-charges dto answers s r =
      ground (arith, charge_new-charges dto answers s (later_replies r))

  -- However often a request is sent with one idempotency key, whatever else it says, and however
  -- the calls of each run end, a card is charged at most once for it.
  pub charges-run_all :
      (key : ℕ) (xs : List Retry) (s : State P)
      → charges (run_all key xs s).sent ≤ charges s.sent + 1
  charges-run_all key [] s = omega arith
  charges-run_all key (x ∷ xs) s =
      let now : State P = record s { now = x.at } in
      let after = (initiate_payment P (with_key key x.dto) x.answers now x.script).1 in
      elim (initiate_payment-charges (with_key key x.dto) x.answers now x.script) [
        | inl same ↦ rw (sym same) (charges-run_all key xs after)
        | inr (le, there) ↦ rw (run_all-keyed (payments.fresh s.payment_rows) key xs after there) le
      ]
