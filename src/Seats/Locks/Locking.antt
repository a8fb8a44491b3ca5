-- ===== src/Seats/Locks/Locking.antt =====
-- What the loops of `lockSeats` do to the locks.
use distributed_nestjs_event.Base.{
  Result-cases, inl, inr, ap, sym, ◌∙◌, subst, >>=-ok, ℕ, ◌*◌, ◌≡◌, Bool, true, false, List, [],
  ◌∷◌, ◌++◌, arith, if◌then◌else◌, Script, ok, All, later_replies,
}
use distributed_nestjs_event.External.LockStore.{LockKey, LockData}
use distributed_nestjs_event.Seats.Types.{Platform, State}
use distributed_nestjs_event.Seats.Locks.{
  conclude, lock_seats, lock_key, lock_loop, lock_ttl, second, set_lock,
}
use distributed_nestjs_event.Seats.Locks.Keys.{
  append-cons-ne, has_key, has_key-append, SameButLocks, del_loop-SameButLocks, Locked, value_of,
  set_lock-Locked,
}

module _ (P : Platform) where
  open P use {locks}

  -- The loop: what it adds to its two lists, and what it leaves in the store.
  pub record Looped (event : ℕ) (v : LockData) (seats : List ℕ) (locked : List LockKey)
      (failed : List ℕ) (s₀ s : State P) (res : List LockKey × List ℕ) : Type 0 where
    pub after : Locked P v res.0 s₀ s
    pub kept : (k : LockKey) → has_key k locked ≡ true → has_key k res.0 ≡ true
    pub none_failed :
        res.1 ≡ [] → (failed ≡ []) × All (λ seat. has_key (lock_key event seat) res.0 ≡ true) seats

  -- A round of the loop, put before the rounds that follow it.
  Looped-cons :
      (event seat : ℕ) (v : LockData) (seats : List ℕ) (locked : List LockKey) (failed : List ℕ)
      (s₀ s : State P) (res : List LockKey × List ℕ) (got : Bool)
      → Looped event v seats
          (if got then locked ++ lock_key event seat ∷ [] else locked)
          (if got then failed else failed ++ seat ∷ [])
          s₀
          s
          res
      → Looped event v (seat ∷ seats) locked failed s₀ s res
  Looped-cons event seat v seats locked failed s₀ s res true h = record {
    after = h.after;
    kept = λ k m. h.kept k (rw (has_key-append k locked _, m));
    none_failed = λ n. (
      (h.none_failed n).0,
      (
        h.kept (lock_key event seat) (
            ground (arith, has_key-append (lock_key event seat) locked (lock_key event seat ∷ []))),
        (h.none_failed n).1,
      ),
    );
  }
  Looped-cons event seat v seats locked failed s₀ s res false h = record {
    after = h.after;
    kept = h.kept;
    none_failed = λ n. absurd (append-cons-ne failed seat (h.none_failed n).0);
  }

  pub lock_loop-Looped :
      (event user session : ℕ) (seats : List ℕ) (locked : List LockKey) (failed : List ℕ)
      (s₀ s : State P) (r : Script) (res : List LockKey × List ℕ)
      → Locked P (value_of P user session s₀) locked s₀ s
      → (lock_loop P event user session seats locked failed s r).0 ≡ ok res
      → Looped event
          (value_of P user session s₀)
          seats
          locked
          failed
          s₀
          (lock_loop P event user session seats locked failed s r).1
          res
  unfolding lock_loop
  lock_loop-Looped event user session [] locked failed s₀ s r (l, f) h e = record {
    after = subst (λ x. Locked P (value_of P user session s₀) x s₀ s) (cc) h;
    kept = λ k m. ground arith;
    none_failed = λ n. (cc, tt);
  }
  lock_loop-Looped event user session (seat ∷ seats) locked failed s₀ s r res h e =
      let next = λ (got : Bool).
        lock_loop P event user session seats
          (if got then locked ++ lock_key event seat ∷ [] else locked)
          (if got then failed else failed ++ seat ∷ []) in
      let (got, passed, step) =
        >>=-ok (set_lock P (lock_key event seat) user session) next s r res e in
      let locked' = if got then locked ++ lock_key event seat ∷ [] else locked in
      let failed' = if got then failed else failed ++ seat ∷ [] in
      let s' = (set_lock P (lock_key event seat) user session s r).1 in
      let r' = (set_lock P (lock_key event seat) user session s r).2 in
      let rest =
        lock_loop-Looped event user session seats locked' failed' s₀ s' r' res
          (set_lock-Locked P event seat user session locked s₀ s r got h passed)
          (ap (λ x. x.0) (sym step) ∙ e) in
      subst (λ x. Looped event (value_of P user session s₀) (seat ∷ seats) locked failed s₀ x.1 res)
        (sym step)
        (Looped-cons event seat (value_of P user session s₀) seats locked failed s₀
          (next got s' r').1 res got rest)

  lock_loop-SameButLocks :
      (event user session : ℕ) (seats : List ℕ) (locked : List LockKey) (failed : List ℕ)
      (s : State P) (r : Script)
      → SameButLocks P s (lock_loop P event user session seats locked failed s r).1
  unfolding lock_loop set_lock
  lock_loop-SameButLocks event user session [] locked failed s r = ground arith
  lock_loop-SameButLocks event user session (seat ∷ seats) locked failed s r =
      let got = locks.set_nx_ok s.now (lock_key event seat) s.redis_locks in
      ground (
        arith,
        lock_loop-SameButLocks event user session seats
            (if got then locked ++ lock_key event seat ∷ [] else locked)
            (if got then failed else failed ++ seat ∷ [])
            (record s {
              redis_locks =
                  locks.set_nx s.now (lock_key event seat) (value_of P user session s)
                    (lock_ttl * second) s.redis_locks;
            })
            (later_replies r),
      )

  -- A request for locks touches nothing but the locks, however it ends.
  pub lock_seats-SameButLocks :
      (event : ℕ) (seats : List ℕ) (user session : ℕ) (s : State P) (r : Script)
      → SameButLocks P s (lock_seats P event seats user session s r).1
  unfolding lock_seats conclude
  lock_seats-SameButLocks event seats user session s r =
      let looped = lock_loop P event user session seats [] [] s r in
      elim (Result-cases looped.0) [
        | inl ((keys, failed), e) ↦ ground (
          arith,
          e,
          lock_loop-SameButLocks event user session seats [] [] s r,
          del_loop-SameButLocks P keys looped.1 looped.2,
        )
        | inr (x, e) ↦ ground (arith, lock_loop-SameButLocks event user session seats [] [] s r)
      ]
