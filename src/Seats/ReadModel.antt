-- ===== src/Seats/ReadModel.antt =====
-- The queries of `AvailabilityReadService` and the rebuilding of its hashes
-- (apps/seat-inventory-service/src/cqrs/availability-read.service.ts). Its two writes stand in
-- Seats/Availability.
pub mod Rebuilding
pub mod Agreement
pub mod Calls
pub mod Totals
use distributed_nestjs_event.Base.{
  ℕ, suc, Bool, true, false, Option, none, some, List, [], ◌∷◌, map, filter, length, includes,
  by_key, ◌==◌, if◌then◌else◌, Action, pure, query, write, ◌>>=◌, ◌>>◌,
}
use mathlib.Core.Option
use distributed_nestjs_event.External.Hashes.{Entry, field_of, hset_all}
use distributed_nestjs_event.Seats.Types.{
  Platform, State, SeatInventory, SeatDetail, SeatStatus, available, held, reserved, sold,
  is_available, del_statuses, del_details, hset_detail,
}
use distributed_nestjs_event.Seats.Inventory.{of_event}
use distributed_nestjs_event.Seats.Availability.{run_statuses}

-- `JSON.stringify({ … })` of a row
abbrev pub detail_of : SeatInventory → SeatDetail
detail_of s = record {
  seat_id = s.seat_id;
  section_id = s.section_id;
  section_name = s.section_name;
  ticket_type_id = s.ticket_type_id;
  ticket_type_name = s.ticket_type_name;
  price = s.price;
  currency = s.currency;
  row = s.row;
  seat_number = s.seat_number;
  seat_type = s.seat_type;
}

abbrev pub status_entry : SeatInventory → Entry SeatStatus
status_entry s = record { field = s.seat_id; value = s.status }

abbrev pub detail_entry : SeatInventory → Entry SeatDetail
detail_entry s = record { field = s.seat_id; value = detail_of s }

-- `{ ...detail, status }`, where the detail may be missing
pub record SeatView : Type 0 where
  pub detail : Option SeatDetail
  pub status : SeatStatus

abbrev pub is_held : SeatStatus → Bool
is_held available = false
is_held held = true
is_held reserved = false
is_held sold = false

abbrev pub is_sold : SeatStatus → Bool
is_sold available = false
is_sold held = false
is_sold reserved = false
is_sold sold = true

abbrev pub is_nil : {A : Type 0} → List A → Bool
is_nil [] = true
is_nil (x ∷ xs) = false

-- `seat.sectionName || 'Unknown'`, with `none` for the second
abbrev pub section_of : SeatView → Option ℕ
section_of v = Option.map (λ d. d.section_name) v.detail

abbrev pub same_section : Option ℕ → Option ℕ → Bool
same_section none none = true
same_section none (some b) = false
same_section (some a) none = false
same_section (some a) (some b) = a == b

-- An entry of the map `sections`, with its key.
pub record Section : Type 0 where
  pub name : Option ℕ
  pub total : ℕ
  pub available_seats : ℕ
  pub held_seats : ℕ
  pub sold_seats : ℕ
  pub price : Option ℕ

-- `section.total++`, and the counter of the status; a reserved seat has none
abbrev pub count_seat : SeatStatus → Section → Section
count_seat available x = record x { total = suc x.total; available_seats = suc x.available_seats }
count_seat held x = record x { total = suc x.total; held_seats = suc x.held_seats }
count_seat reserved x = record x { total = suc x.total }
count_seat sold x = record x { total = suc x.total; sold_seats = suc x.sold_seats }

abbrev pub new_section : SeatView → Section
new_section v = record {
  name = section_of v;
  total = 0;
  available_seats = 0;
  held_seats = 0;
  sold_seats = 0;
  price = Option.map (λ d. d.price) v.detail;
}

-- The body of the loop over the seats; a new section comes last.
unfoldable pub add_seat : SeatView → List Section → List Section
add_seat v [] = count_seat v.status (new_section v) ∷ []
add_seat v (x ∷ xs) =
    let rest = add_seat v xs in
    if same_section (section_of v) x.name then count_seat v.status x ∷ xs else x ∷ rest

unfoldable pub sections_from : List SeatView → List Section → List Section
sections_from [] xs = xs
sections_from (v ∷ vs) xs = sections_from vs (add_seat v xs)

pub record Summary : Type 0 where
  pub total_seats : ℕ
  pub available_seats : ℕ
  pub held_seats : ℕ
  pub sold_seats : ℕ
  pub sections : List Section

abbrev pub count_status : (SeatStatus → Bool) → List SeatView → ℕ
count_status p vs = length (filter (λ v. p v.status) vs)

unfoldable pub summary_of : List SeatView → Summary
summary_of vs = record {
  total_seats = length vs;
  available_seats = count_status is_available vs;
  held_seats = count_status is_held vs;
  sold_seats = count_status is_sold vs;
  sections = sections_from vs [];
}

-- `SELECT DISTINCT`
unfoldable pub distinct : List ℕ → List ℕ
distinct [] = []
distinct (x ∷ xs) = let rest = distinct xs in if includes rest x then rest else x ∷ rest

module _ (P : Platform) where
  open P use {seats, availability, details, command_fails}

  unfoldable pub run_details : ℕ → ℕ → List (Entry SeatDetail) → List (Entry SeatDetail)
  run_details now event [] = []
  run_details now event (x ∷ xs) =
      let rest = run_details now event xs in
      if command_fails now (hset_detail event x.field) then rest else x ∷ rest

  -- the two commands `pipeline.del(…)`, which a pipeline begins with
  unfoldable pub delete_statuses : ℕ → ℕ → availability.Store → availability.Store
  delete_statuses now event t =
      if command_fails now (del_statuses event) then t else availability.del event t

  unfoldable pub delete_details : ℕ → ℕ → details.Store → details.Store
  delete_details now event t =
      if command_fails now (del_details event) then t else details.del event t

  -- What the pipeline of `rebuildCache` does for at least one row: the results of its commands are
  -- not read.
  unfoldable pub rebuild_with : ℕ → List SeatInventory → State P → State P
  rebuild_with event rows s = record s {
    redis_availability =
        hset_all availability event (run_statuses P s.now event (map status_entry rows))
          (delete_statuses s.now event s.redis_availability);
    redis_details =
        hset_all details event (run_details s.now event (map detail_entry rows))
          (delete_details s.now event s.redis_details);
  }

  unfoldable pub rebuild_cache : ℕ → Action (State P) (Unit {0})
  rebuild_cache event = query (λ s. seats.find (of_event event) s.db.inventory) >>= λ rows.
      elim (is_nil rows) [ true ↦ pure tt | false ↦ write (rebuild_with event rows) ]

  unfoldable pub rebuild_all : List ℕ → Action (State P) (Unit {0})
  rebuild_all [] = pure tt
  rebuild_all (event ∷ events) = rebuild_cache event >> rebuild_all events

  unfoldable pub warm_up_cache : Action (State P) (Unit {0})
  warm_up_cache =
      query (λ s. distinct (map (λ x. x.event_id) (seats.find (λ x. true) s.db.inventory)))
      >>= rebuild_all

  abbrev pub statuses : ℕ → Action (State P) (List (Entry SeatStatus))
  statuses event = query (λ s. availability.hgetall event s.redis_availability)

  abbrev pub all_details : ℕ → Action (State P) (List (Entry SeatDetail))
  all_details event = query (λ s. details.hgetall event s.redis_details)

  -- `Object.entries(statuses).map(…)`
  abbrev pub views_of : List (Entry SeatStatus) → List (Entry SeatDetail) → List SeatView
  views_of es ds =
      map
        (λ e. record {
          detail = Option.map (λ (d : Entry SeatDetail). d.value) (by_key field_of e.field ds);
          status = e.value;
        })
        es

  abbrev pub read_again : ℕ → Action (State P) (List SeatView)
  read_again event =
      rebuild_cache event
      >> (statuses event >>= λ es. all_details event >>= λ ds. pure (views_of es ds))

  unfoldable pub get_event_seats_with_status : ℕ → Action (State P) (List SeatView)
  get_event_seats_with_status event = statuses event >>= λ es. all_details event >>= λ ds.
      elim (is_nil es) [ true ↦ read_again event | false ↦ pure (views_of es ds) ]

  unfoldable pub get_available_seats_detailed : ℕ → Action (State P) (List SeatView)
  get_available_seats_detailed event =
      get_event_seats_with_status event >>= λ vs. pure (filter (λ v. is_available v.status) vs)

  unfoldable pub get_event_availability_summary : ℕ → Action (State P) Summary
  get_event_availability_summary event =
      get_event_seats_with_status event >>= λ vs. pure (summary_of vs)

  unfoldable pub get_available_count : ℕ → Action (State P) ℕ
  get_available_count event =
      statuses event >>= λ es. pure (length (filter (λ e. is_available e.value) es))

  unfoldable pub get_seat_status : ℕ → ℕ → Action (State P) (Option SeatStatus)
  get_seat_status event seat = query (λ s. availability.hget event seat s.redis_availability)
