-- ===== src/Seats/ReadModel/Totals.antt =====
-- The summary of an event adds up.
use distributed_nestjs_event.Base.{
  ℕ, ◌+◌, ◌≡◌, refl, Bool, true, false, List, [], ◌∷◌, arith, length,
}
use distributed_nestjs_event.Seats.Types.{SeatStatus, available, held, reserved, sold, is_available}
use distributed_nestjs_event.Seats.ReadModel.{
  SeatView, Section, is_held, is_sold, count_seat, new_section, add_seat, sections_from,
  count_status, summary_of,
}

abbrev pub is_reserved : SeatStatus → Bool
is_reserved available = false
is_reserved held = false
is_reserved reserved = true
is_reserved sold = false

-- A counter summed over the sections.
abbrev pub sum_over : (Section → ℕ) → List Section → ℕ
sum_over f [] = 0
sum_over f (x ∷ xs) = f x + sum_over f xs

abbrev tally : Bool → ℕ
tally true = 1
tally false = 0

-- A counter that grows by one where a seat passes a test, and starts at 0.
abbrev Counts : (Section → ℕ) → (SeatStatus → Bool) → Type 0
Counts f p =
    ((st : SeatStatus) (x : Section) → f (count_seat st x) ≡ f x + tally (p st))
    × ((v : SeatView) → f (new_section v) ≡ 0)

sum_over-add_seat :
    (f : Section → ℕ) (p : SeatStatus → Bool) (v : SeatView) (xs : List Section)
    → Counts f p
    → sum_over f (add_seat v xs) ≡ sum_over f xs + tally (p v.status)
unfolding add_seat
sum_over-add_seat f p v [] c = omega (arith, c.0 v.status (new_section v), c.1 v)
sum_over-add_seat f p v (x ∷ xs) c = ground (arith, c.0 v.status x, sum_over-add_seat f p v xs c)

count_status-cons :
    (p : SeatStatus → Bool) (v : SeatView) (vs : List SeatView)
    → count_status p (v ∷ vs) ≡ tally (p v.status) + count_status p vs
count_status-cons p v vs = ground arith

sum_over-sections_from :
    (f : Section → ℕ) (p : SeatStatus → Bool) (vs : List SeatView) (xs : List Section)
    → Counts f p
    → sum_over f (sections_from vs xs) ≡ sum_over f xs + count_status p vs
unfolding sections_from
sum_over-sections_from f p [] xs c = omega arith
sum_over-sections_from f p (v ∷ vs) xs c = omega (
  arith,
  sum_over-sections_from f p vs (add_seat v xs) c,
  sum_over-add_seat f p v xs c,
  count_status-cons p v vs,
)

count_all : (vs : List SeatView) → count_status (λ st. true) vs ≡ length vs
count_all [] = refl
count_all (v ∷ vs) = omega (arith, count_all vs)

by_status :
    (vs : List SeatView)
    → length vs
      ≡ count_status is_available vs
        + count_status is_held vs
        + count_status is_sold vs
        + count_status is_reserved vs
by_status [] = omega arith
by_status (v ∷ vs) = ground (arith, by_status vs)

total-Counts : Counts (λ x. x.total) (λ st. true)
total-Counts = (λ st x. ground arith, λ v. refl)

available-Counts : Counts (λ x. x.available_seats) is_available
available-Counts = (λ st x. ground arith, λ v. refl)

held-Counts : Counts (λ x. x.held_seats) is_held
held-Counts = (λ st x. ground arith, λ v. refl)

sold-Counts : Counts (λ x. x.sold_seats) is_sold
sold-Counts = (λ st x. ground arith, λ v. refl)

-- The summary of any list of seats adds up: the four counters of the event are the sums of those of
-- its sections, and the seats that are in none of the three counters of a status are the reserved
-- ones.
pub summary_of-sum_over :
    (vs : List SeatView)
    → let x = summary_of vs in
      (sum_over (λ y. y.total) x.sections ≡ x.total_seats)
      × (sum_over (λ y. y.available_seats) x.sections ≡ x.available_seats)
      × (sum_over (λ y. y.held_seats) x.sections ≡ x.held_seats)
      × (sum_over (λ y. y.sold_seats) x.sections ≡ x.sold_seats)
      × (x.total_seats
          ≡ x.available_seats + x.held_seats + x.sold_seats + count_status is_reserved vs)
unfolding summary_of
summary_of-sum_over vs = (
  omega
      (arith, sum_over-sections_from (λ y. y.total) (λ st. true) vs [] total-Counts, count_all vs),
  omega
      (arith, sum_over-sections_from (λ y. y.available_seats) is_available vs [] available-Counts),
  omega (arith, sum_over-sections_from (λ y. y.held_seats) is_held vs [] held-Counts),
  omega (arith, sum_over-sections_from (λ y. y.sold_seats) is_sold vs [] sold-Counts),
  by_status vs,
)
