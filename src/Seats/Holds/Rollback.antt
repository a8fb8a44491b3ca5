-- ===== src/Seats/Holds/Rollback.antt =====
-- The frame of a transaction whose `try` block rolls back where it throws.
use distributed_nestjs_event.Base.{
  ℕ, ◌≡◌, ◌⊎◌, inl, inr, refl, none, some, arith, Result, ok, err, Script, Action, Result-cases,
  later_replies,
}
use distributed_nestjs_event.Seats.Types.{Platform, State, Tables}
use distributed_nestjs_event.Seats.Holds.{with_rollback}

module _ (P : Platform) (Done : ℕ → Tables P → Tables P → Type 0) where
  -- What a `try` block has done by its result, from a time and a database.
  abbrev pub Ended : ℕ → Tables P → Result (Unit {0}) → Tables P → Type 0
  Ended now db (ok _) db' = Done now db db'
  Ended now db (err e) db' = (db' ≡ db) ⊎ Done now db db'

  -- All or nothing, with the transaction closed, and all where the result is a success.
  abbrev pub Closed : ℕ → Tables P → Result (Unit {0}) × State P × Script → Type 0
  Closed now db (ok _, s', r') = (s'.tx ≡ none) × Done now db s'.db
  Closed now db (err e, s', r') = (s'.tx ≡ none) × ((s'.db ≡ db) ⊎ Done now db s'.db)

  pub with_rollback-Closed :
      (body : Action (State P) (Unit {0})) (s : State P) (r : Script)
      → s.tx ≡ none
      → ((t : State P) (q : Script)
          → t.tx ≡ some t.db
          → Ended t.now t.db (body t q).0 (body t q).1.db)
      → Closed s.now s.db (with_rollback P body s r)
  unfolding with_rollback
  with_rollback-Closed body s r h all =
      let begun : State P = record s { tx = some s.db } in
      let rest = later_replies (later_replies r) in
      elim (Result-cases (body begun rest).0) [
        | inl (u, e) ↦ ground (arith, e, all begun rest refl)
        | inr (x, e) ↦ ground (arith, e, all begun rest refl)
      ]
