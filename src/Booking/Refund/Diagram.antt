-- ===== src/Booking/Refund/Diagram.antt =====
-- The diagram of the refund machine, as a relation and as a test, and what is still to be asked for in
-- its states.
use distributed_nestjs_event.Base.{
  ◌||◌, ℕ, suc, ◌≡◌, Bool, true, false, Option, none, some, List, [], ◌∷◌, arith,
}
use distributed_nestjs_event.Booking.Types.{
  RefundState, Message, refund_payment, release_sold_seats, initiate_payment, release_seats,
  emit_cancelled, mark_seats_as_sold, emit_confirmed, emit_refunded,
}

-- How many of the messages ask for a refund.
abbrev pub refunds : List Message → ℕ
refunds [] = 0
refunds (refund_payment b k r ∷ ms) = suc (refunds ms)
refunds (release_sold_seats e xs ∷ ms) = refunds ms
refunds (initiate_payment b k a ∷ ms) = refunds ms
refunds (release_seats e xs u ∷ ms) = refunds ms
refunds (emit_cancelled k b ∷ ms) = refunds ms
refunds (mark_seats_as_sold e xs u ∷ ms) = refunds ms
refunds (emit_confirmed k e ∷ ms) = refunds ms
refunds (emit_refunded k e ∷ ms) = refunds ms

-- How many refunds a machine in a state may still ask for.
abbrev pub refunds_left : Option RefundState → ℕ
refunds_left none = 0
refunds_left (some RefundState.refund_initiated) = 1
refunds_left (some RefundState.payment_refunded) = 0
refunds_left (some RefundState.seats_released) = 0
refunds_left (some RefundState.completed) = 0
refunds_left (some RefundState.failed) = 0

-- How many of the messages ask for the release of sold seats.
abbrev pub releases : List Message → ℕ
releases [] = 0
releases (release_sold_seats e xs ∷ ms) = suc (releases ms)
releases (refund_payment b k r ∷ ms) = releases ms
releases (initiate_payment b k a ∷ ms) = releases ms
releases (release_seats e xs u ∷ ms) = releases ms
releases (emit_cancelled k b ∷ ms) = releases ms
releases (mark_seats_as_sold e xs u ∷ ms) = releases ms
releases (emit_confirmed k e ∷ ms) = releases ms
releases (emit_refunded k e ∷ ms) = releases ms

-- How many releases a machine in a state must still ask for before it is complete.
abbrev pub releases_left : Option RefundState → ℕ
releases_left none = 0
releases_left (some RefundState.refund_initiated) = 1
releases_left (some RefundState.payment_refunded) = 1
releases_left (some RefundState.seats_released) = 0
releases_left (some RefundState.completed) = 0
releases_left (some RefundState.failed) = 1

-- The diagram of the `switch` of the machine.
infix 40 ◌⟶◌ ◌⟶*◌
pub data ◌⟶◌ : Option RefundState → Option RefundState → Type 0 where
  pay : some RefundState.refund_initiated ⟶ some RefundState.payment_refunded
  decline : some RefundState.refund_initiated ⟶ some RefundState.failed
  free : some RefundState.payment_refunded ⟶ some RefundState.seats_released
  finish : some RefundState.seats_released ⟶ some RefundState.completed

pub data ◌⟶*◌ : Option RefundState → Option RefundState → Type 0 where
  here : {a : Option RefundState} → a ⟶* a
  then : {a b c : Option RefundState} → a ⟶ b → b ⟶* c → a ⟶* c

pub ⟶*-trans : {a b c : Option RefundState} → a ⟶* b → b ⟶* c → a ⟶* c
⟶*-trans here q = q
⟶*-trans (then m p) q = then m (⟶*-trans p q)

-- The diagram and its closure as tests: a state is passed to the states that it leads to.
abbrev reached_from : RefundState → List RefundState
reached_from RefundState.refund_initiated =
    RefundState.refund_initiated ∷ RefundState.payment_refunded ∷ RefundState.seats_released
    ∷ RefundState.completed ∷ RefundState.failed ∷ []
reached_from RefundState.payment_refunded =
    RefundState.payment_refunded ∷ RefundState.seats_released ∷ RefundState.completed ∷ []
reached_from RefundState.seats_released = RefundState.seats_released ∷ RefundState.completed ∷ []
reached_from RefundState.completed = RefundState.completed ∷ []
reached_from RefundState.failed = RefundState.failed ∷ []

abbrev same_state : RefundState → RefundState → Bool
same_state RefundState.refund_initiated RefundState.refund_initiated = true
same_state RefundState.payment_refunded RefundState.payment_refunded = true
same_state RefundState.seats_released RefundState.seats_released = true
same_state RefundState.completed RefundState.completed = true
same_state RefundState.failed RefundState.failed = true
same_state _ _ = false

abbrev one_of : RefundState → List RefundState → Bool
one_of a [] = false
one_of a (b ∷ bs) = same_state a b || one_of a bs

abbrev pub reaches : Option RefundState → Option RefundState → Bool
reaches none none = true
reaches none (some b) = false
reaches (some a) none = false
reaches (some a) (some b) = one_of b (reached_from a)

ruleset diagram = (pay, decline, free, finish, here, then)

pub reaches→⟶* : (a b : Option RefundState) → reaches a b ≡ true → a ⟶* b
reaches→⟶* none none h = here
reaches→⟶* none (some b) h = absurd (cc)
reaches→⟶* (some a) none h = absurd (cc)
reaches→⟶* (some RefundState.refund_initiated) (some RefundState.refund_initiated) h = here
reaches→⟶* (some RefundState.refund_initiated) (some _) h = search diagram
reaches→⟶* (some RefundState.payment_refunded) (some RefundState.payment_refunded) h = here
reaches→⟶* (some RefundState.payment_refunded) (some RefundState.seats_released) h = search diagram
reaches→⟶* (some RefundState.payment_refunded) (some RefundState.completed) h = search diagram
reaches→⟶* (some RefundState.payment_refunded) (some _) h = absurd (cc)
reaches→⟶* (some RefundState.seats_released) (some RefundState.seats_released) h = here
reaches→⟶* (some RefundState.seats_released) (some RefundState.completed) h = search diagram
reaches→⟶* (some RefundState.seats_released) (some _) h = absurd (cc)
reaches→⟶* (some RefundState.completed) (some RefundState.completed) h = here
reaches→⟶* (some RefundState.completed) (some _) h = absurd (cc)
reaches→⟶* (some RefundState.failed) (some RefundState.failed) h = here
reaches→⟶* (some RefundState.failed) (some _) h = absurd (cc)

pub reaches_refl : (a : Option RefundState) → reaches a a ≡ true
reaches_refl a = ground arith

pub reaches_trans :
    (a b c : Option RefundState) → reaches a b ≡ true → reaches b c ≡ true → reaches a c ≡ true
reaches_trans a b c h k = ground arith
