-- ===== src/Seats/Transactions.antt =====
-- The query runner that the services open around their writes: `connect`, `startTransaction`,
-- `manager.save`, `commitTransaction`, `rollbackTransaction` and `release`. Writes are staged in
-- `tx` and reach the database at the commit; reads outside the runner see committed rows only. A
-- rollback with no open transaction throws, as after a commit.
use distributed_nestjs_event.Base.{
  ℕ, Bool, true, false, none, some, List, Action, pure, throw, call, write, modify, gets, ◌>>=◌,
  ◌>>◌, is_none, transaction_not_started,
}
use distributed_nestjs_event.External.Repository.{save_all, insert_all}
use distributed_nestjs_event.Seats.Types.{Platform, Tables, State, SeatInventory, SeatHold}
use mathlib.Core.Option

-- the row that an insert makes of an entity without an id
abbrev pub hold_with_id : ℕ → SeatHold → SeatHold
hold_with_id i h = record h { id = i }

module _ (P : Platform) where
  open P use {seats, holds}

  abbrev pub begin : Action (State P) (Unit {0})
  begin = call >> (call >> modify (λ s. record s { tx = some s.db }))

  abbrev pub set_inventory : seats.Table → Tables P → Tables P
  set_inventory t d = record d { inventory = t }

  abbrev pub set_holds : holds.Table → Tables P → Tables P
  set_holds t d = record d { seat_holds = t }

  -- `queryRunner.manager.save(inventories)`
  abbrev pub save_inventories : List SeatInventory → Action (State P) (Unit {0})
  save_inventories rows = write (λ s. record s {
    tx = Option.map (λ d. set_inventory (save_all seats rows d.inventory) d) s.tx;
  })

  -- `queryRunner.manager.save(SeatHold, holds)` of holds that have been read
  abbrev pub save_holds : List SeatHold → Action (State P) (Unit {0})
  save_holds rows =
      write (λ s. record s {
        tx = Option.map (λ d. set_holds (save_all holds rows d.seat_holds) d) s.tx;
      })

  -- the rows that a query runner would write to next
  abbrev pub staged : State P → Tables P
  staged s = elim s.tx [ none ↦ s.db | some d ↦ d ]

  -- `queryRunner.manager.save(SeatHold, holds)` of new holds, with the generated ids
  abbrev pub insert_holds : List SeatHold → Action (State P) (List ℕ)
  insert_holds rows =
      call
      >> (gets (λ s. (insert_all holds hold_with_id rows (staged s).seat_holds).0) >>= λ ids.
          modify (λ s. record s {
            tx =
                Option.map (λ d. set_holds (insert_all holds hold_with_id rows d.seat_holds).1 d)
                  s.tx;
          })
          >> pure ids)

  abbrev pub commit : Action (State P) (Unit {0})
  commit = write (λ s. record s { db = staged s; tx = none })

  abbrev pub end_rollback : Bool → Action (State P) (Unit {0})
  end_rollback true = throw transaction_not_started
  end_rollback false = write (λ s. record s { tx = none })

  abbrev pub rollback : Action (State P) (Unit {0})
  rollback = gets (λ s. is_none s.tx) >>= end_rollback

  -- `queryRunner.release()`
  abbrev pub release : State P → State P
  release s = record s { tx = none }
