-- ===== src/Seats/ReadModel/Rebuilding.antt =====
-- What `rebuildCache` puts into the hashes of an event.
use distributed_nestjs_event.Base.{
  subst, sym, ℕ, ◌∷◌, none, false, includes, by_key-none, ◌≡◌, ◌≢◌, refl, some, List, [], map,
  arith, ok, by_key, by_key-other, by_key-map_to, map-key_to, Distinct, List-cases, inl, inr,
  next_reply, later_replies,
}
use distributed_nestjs_event.External.Hashes.{
  Entry, field_of, Hashes, hset_all, hget-hset_all, hget-hset_all_ne,
}
use distributed_nestjs_event.Seats.Types.{
  Platform, State, SeatInventory, seat_key, Command, del_statuses, del_details, hset_status,
  hset_detail,
}
use distributed_nestjs_event.Seats.Inventory.{of_event}
use distributed_nestjs_event.Seats.Availability.{run_statuses}
use distributed_nestjs_event.Seats.ReadModel.{
  detail_of, status_entry, detail_entry, rebuild_with, rebuild_cache, run_details, delete_statuses,
  delete_details,
}

-- After a rebuilding of a hash from rows with different seats, a row's seat has the row's value.
hget-rebuilt :
    {V : Type 0} (H : Hashes V) (f : SeatInventory → Entry V) (event i : ℕ) (row : SeatInventory)
    (rows : List SeatInventory) (t : H.Store)
    → ((x : SeatInventory) → (f x).field ≡ x.seat_id)
    → Distinct (map (λ x. x.seat_id) rows)
    → by_key seat_key i rows ≡ some row
    → H.hget event row.seat_id (hset_all H event (map f rows) (H.del event t)) ≡ some (f row).value
hget-rebuilt H f event i row rows t same d e =
    let seat = λ (x : SeatInventory). x.seat_id in
    ground (
      arith,
      hget-hset_all H event row.seat_id (map f rows) (H.del event t)
          (subst Distinct (sym (map-key_to seat field_of f rows same)) d),
      by_key-map_to seat field_of f row.seat_id rows same,
      by_key-other seat_key seat i row rows d e,
    )

-- What was in the hash under a seat that has no row is gone.
hget-gone :
    {V : Type 0} (H : Hashes V) (f : SeatInventory → Entry V) (event gone : ℕ)
    (rows : List SeatInventory) (t : H.Store)
    → ((x : SeatInventory) → (f x).field ≡ x.seat_id)
    → Distinct (map (λ x. x.seat_id) rows)
    → includes (map (λ x. x.seat_id) rows) gone ≡ false
    → H.hget event gone (hset_all H event (map f rows) (H.del event t)) ≡ none
hget-gone H f event gone rows t same d out =
    let seat = λ (x : SeatInventory). x.seat_id in
    ground (
      arith,
      out,
      hget-hset_all H event gone (map f rows) (H.del event t)
          (subst Distinct (sym (map-key_to seat field_of f rows same)) d),
      by_key-map_to seat field_of f gone rows same,
      by_key-none seat gone rows,
      H.hget-del event event gone t,
    )

module _ (P : Platform) where
  open P use {seats, availability, details, command_fails}

  -- No command of a pipeline fails at a time.
  abbrev pub Runs : ℕ → Type 0
  Runs now = (c : Command) → command_fails now c ≡ false

  run_statuses-Runs :
      (now event : ℕ) (rows : List SeatInventory)
      → Runs now
      → run_statuses P now event (map status_entry rows) ≡ map status_entry rows
  unfolding run_statuses
  run_statuses-Runs now event [] all = refl
  run_statuses-Runs now event (x ∷ xs) all =
      ground (arith, all (hset_status event x.seat_id), run_statuses-Runs now event xs all)

  run_details-Runs :
      (now event : ℕ) (rows : List SeatInventory)
      → Runs now
      → run_details P now event (map detail_entry rows) ≡ map detail_entry rows
  unfolding run_details
  run_details-Runs now event [] all = refl
  run_details-Runs now event (x ∷ xs) all =
      ground (arith, all (hset_detail event x.seat_id), run_details-Runs now event xs all)

  rebuild_with-statuses :
      (event : ℕ) (rows : List SeatInventory) (s : State P)
      → Runs s.now
      → (rebuild_with P event rows s).redis_availability
        ≡ hset_all availability event
            (map status_entry rows)
            (availability.del event s.redis_availability)
  unfolding rebuild_with delete_statuses
  rebuild_with-statuses event rows s all =
      ground (arith, all (del_statuses event), run_statuses-Runs s.now event rows all)

  rebuild_with-details :
      (event : ℕ) (rows : List SeatInventory) (s : State P)
      → Runs s.now
      → (rebuild_with P event rows s).redis_details
        ≡ hset_all details event (map detail_entry rows) (details.del event s.redis_details)
  unfolding rebuild_with delete_details
  rebuild_with-details event rows s all =
      ground (arith, all (del_details event), run_details-Runs s.now event rows all)

  abbrev pub rows_of : ℕ → State P → List SeatInventory
  rows_of event s = seats.find (of_event event) s.db.inventory

  rebuild_cache_answered :
      (event i : ℕ) (row : SeatInventory) (s : State P)
      → by_key seat_key i (rows_of event s) ≡ some row
      → rebuild_cache P event s [] ≡ (ok tt, rebuild_with P event (rows_of event s) s, [])
  unfolding rebuild_cache next_reply later_replies
  rebuild_cache_answered event i row s e = elim (List-cases (rows_of event s)) [
    | inl n ↦ absurd (ground (arith, n, e))
    | inr (x, xs, n) ↦ ground (arith, n)
  ]

  -- A rebuilding makes the read model say what the rows say: where no two rows of the event share a
  -- seat, the event has a row, the calls answer and no command of the pipeline fails, each row's seat
  -- has the row's status and details in the hashes of the event, a seat that no row of the event is
  -- for has nothing in them, and the hashes of every other event are as before.
  pub rebuild_cache_refines :
      (event i other seat gone : ℕ) (row : SeatInventory) (s : State P)
      → Runs s.now
      → Distinct (map (λ x. x.seat_id) (rows_of event s))
      → seats.get i s.db.inventory ≡ some row
      → row.event_id ≡ event
      → event ≢ other
      → includes (map (λ x. x.seat_id) (rows_of event s)) gone ≡ false
      → let (a, s', r') = rebuild_cache P event s [] in
        (availability.hget event row.seat_id s'.redis_availability ≡ some row.status)
        × (details.hget event row.seat_id s'.redis_details ≡ some (detail_of row))
        × (availability.hget event gone s'.redis_availability ≡ none)
        × (details.hget event gone s'.redis_details ≡ none)
        × (availability.hget other seat s'.redis_availability
            ≡ availability.hget other seat s.redis_availability)
        × (details.hget other seat s'.redis_details ≡ details.hget other seat s.redis_details)
  rebuild_cache_refines event i other seat gone row s all d there mine ne out =
      let rows = rows_of event s in
      let found : by_key seat_key i rows ≡ some row =
        ground (arith, there, mine, seats.get-find i (of_event event) s.db.inventory) in
      let new_statuses = rebuild_with-statuses event rows s all in
      let new_details = rebuild_with-details event rows s all in
      rw (rebuild_cache_answered event i row s found, new_statuses, new_details)
        (
          hget-rebuilt availability status_entry event i row rows s.redis_availability (λ x. refl) d
              found,
          hget-rebuilt details detail_entry event i row rows s.redis_details (λ x. refl) d found,
          hget-gone availability status_entry event gone rows s.redis_availability (λ x. refl) d
              out,
          hget-gone details detail_entry event gone rows s.redis_details (λ x. refl) d out,
          ground (
            arith,
            ne,
            hget-hset_all_ne availability event other seat (map status_entry rows)
                (availability.del event s.redis_availability) ne,
            availability.hget-del event other seat s.redis_availability,
          ),
          ground (
            arith,
            ne,
            hget-hset_all_ne details event other seat (map detail_entry rows)
                (details.del event s.redis_details) ne,
            details.hget-del event other seat s.redis_details,
          ),
        )
