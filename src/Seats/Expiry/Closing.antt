-- ===== src/Seats/Expiry/Closing.antt =====
-- What a pass of the expiry worker leaves alone.
use distributed_nestjs_event.Base.{
  ℕ, ◌≡◌, ◌≤◌, Bool, true, false, none, some, List, [], ◌∷◌, ◌++◌, arith, map, Script, Result-cases,
  inl, inr, later_replies, All, by_key-All, ◌==◌, ◌&&◌, includes,
}
use distributed_nestjs_event.Seats.Types.{
  Platform, State, SeatHold, SeatInventory, hold_key, timeout, available,
}
use distributed_nestjs_event.Seats.Inventory.{of_seats}
use distributed_nestjs_event.Seats.Holds.{release_seats}
use distributed_nestjs_event.Seats.Holds.Releasing.{release_seats-Closed, SettledDb-rows}
use distributed_nestjs_event.Seats.Expiry.{
  HoldGroup, group_holds, add_hold, group_all, has_expired, release_group, release_groups,
  process_expired_holds,
}

-- Whether a hold is for the seat of a row.
abbrev is_for : SeatInventory → SeatHold → Bool
is_for row h = h.event_id == row.event_id && h.seat_id == row.seat_id

abbrev group_seats : HoldGroup → List ℕ
group_seats g = map (λ x. x.seat_id) (group_holds g)

-- A group that does not ask for the seat of a row.
abbrev Spares : SeatInventory → HoldGroup → Type 0
Spares row g = of_seats g.first.event_id (group_seats g) row ≡ false

includes-append :
    (xs : List SeatHold) (h : SeatHold) (seat : ℕ)
    → includes (map (λ x. x.seat_id) xs) seat ≡ false
    → (h.seat_id == seat) ≡ false
    → includes (map (λ x. x.seat_id) (xs ++ h ∷ [])) seat ≡ false
includes-append [] h seat out other = ground (arith, out, other)
includes-append (x ∷ xs) h seat out other = ground (arith, out, other, includes-append xs h seat)

add_hold-Spares :
    (row : SeatInventory) (h : SeatHold) (gs : List HoldGroup)
    → is_for row h ≡ false
    → All (Spares row) gs
    → All (Spares row) (add_hold h gs)
unfolding add_hold
add_hold-Spares row h [] other all = ground (arith, other)
add_hold-Spares row h (g ∷ gs) other all = ground (
  arith,
  other,
  all,
  add_hold-Spares row h gs other all.1,
  includes-append (group_holds g) h row.seat_id,
)

group_all-Spares :
    (row : SeatInventory) (hs : List SeatHold) (gs : List HoldGroup)
    → All (λ h. is_for row h ≡ false) hs
    → All (Spares row) gs
    → All (Spares row) (group_all hs gs)
unfolding group_all
group_all-Spares row [] gs others all = all
group_all-Spares row (h ∷ hs) gs others all =
    group_all-Spares row hs (add_hold h gs) others.1 (add_hold-Spares row h gs others.0 all)

module _ (P : Platform) where
  open P use {seats, holds}

  module _ (i : ℕ) (row : SeatInventory) where
    -- The row with the key is there, and no transaction is open.
    abbrev Kept : State P → Type 0
    Kept s = (s.tx ≡ none) × (seats.get i s.db.inventory ≡ some row)

    release_group-Kept :
        (g : HoldGroup) (s : State P) (r : Script)
        → Spares row g
        → Kept s
        → Kept (release_group P g s r).1
    unfolding release_group
    release_group-Kept g s r spared kept =
        let seat_ids = group_seats g in
        let event = g.first.event_id in
        let user = g.first.user_id in
        let after = release_seats P event seat_ids user timeout s r in
        let done = release_seats-Closed P event seat_ids user timeout s r kept.0 in
        let rows = SettledDb-rows P event seat_ids user available timeout s.now i s.db after.1.db in
        elim (Result-cases after.0) [
          | inl (x, e) ↦ ground (arith, e, spared, kept, done, rows)
          | inr (x, e) ↦ ground (arith, e, spared, kept, done, rows)
        ]

    release_groups-Kept :
        (gs : List HoldGroup) (s : State P) (r : Script)
        → All (Spares row) gs
        → Kept s
        → Kept (release_groups P gs s r).1
    unfolding release_groups
    release_groups-Kept [] s r spared kept = kept
    release_groups-Kept (g ∷ gs) s r spared kept =
        let after = release_group P g s r in
        let first = release_group-Kept g s r spared.0 kept in
        elim (Result-cases after.0) [
          | inl (x, e) ↦
              ground (arith, e, first, release_groups-Kept gs after.1 after.2 spared.1 first)
          | inr (x, e) ↦ ground (arith, e, first)
        ]

  -- No open hold on the seat of a row has passed its time.
  abbrev pub NoneExpired : SeatInventory → State P → Type 0
  NoneExpired row s =
      (j : ℕ) (h : SeatHold)
      → holds.get j s.db.seat_holds ≡ some h
      → h.event_id ≡ row.event_id
      → h.seat_id ≡ row.seat_id
      → h.released_at ≡ none
      → s.now ≤ h.expires_at

  found-others :
      (row : SeatInventory) (s : State P)
      → NoneExpired row s
      → All (λ h. is_for row h ≡ false) (holds.find (has_expired s.now) s.db.seat_holds)
  found-others row s all =
      by_key-All hold_key (λ h. is_for row h ≡ false)
        (holds.find (has_expired s.now) s.db.seat_holds)
        (holds.find-Distinct (has_expired s.now) s.db.seat_holds)
        λ j h e. ground (arith, e, all j h, holds.get-find j (has_expired s.now) s.db.seat_holds)

  -- A pass of the worker leaves the row of a seat as it is unless an open hold on the seat has passed
  -- its time: a seat whose holds are all closed, as those of a sold seat are, or still run keeps its
  -- status. The pass ends with no transaction open and, where it was not busy, with its flag down.
  -- All this however its calls end.
  pub process_expired_holds-Kept :
      (i : ℕ) (row : SeatInventory) (s : State P) (r : Script)
      → s.is_processing ≡ false
      → s.tx ≡ none
      → seats.get i s.db.inventory ≡ some row
      → NoneExpired row s
      → let s' = (process_expired_holds P s r).1 in
        (s'.is_processing ≡ false) × (s'.tx ≡ none) × (seats.get i s'.db.inventory ≡ some row)
  unfolding process_expired_holds
  process_expired_holds-Kept i row s r idle clear there all =
      let expired = holds.find (has_expired s.now) s.db.seat_holds in
      let busy : State P = record s { is_processing = true } in
      ground (
        arith,
        idle,
        clear,
        there,
        release_groups-Kept i row (group_all expired []) busy (later_replies r)
            (group_all-Spares row expired [] (found-others row s all) tt) (clear, there),
      )
