-- ===== src/Seats/Locks/Keys.antt =====
-- The locks as a function of their keys, and what one round of the loops does to them.
use distributed_nestjs_event.Base.{
  ◌≢◌, ℕ, ◌+◌, ◌*◌, ◌≡◌, refl, Bool, true, false, Option, none, some, List, [], ◌∷◌, ◌++◌, arith,
  if◌then◌else◌, ◌||◌, Script, ok, ltb, later_replies,
}
use distributed_nestjs_event.External.LockStore.{LockKey, same_key, LockData}
use distributed_nestjs_event.Seats.Types.{Platform, State}
use distributed_nestjs_event.Seats.Locks.{lock_key, lock_ttl, second, set_lock, del_lock, del_loop}

pub same_key_eq : (j k : LockKey) → same_key j k ≡ true → j ≡ k
same_key_eq j k h = ground arith

pub append-cons-ne : (xs : List ℕ) (x : ℕ) → xs ++ x ∷ [] ≢ []
append-cons-ne [] x h = cc
append-cons-ne (y ∷ ys) x h = cc

-- The keys in a list.
abbrev pub has_key : LockKey → List LockKey → Bool
has_key k [] = false
has_key k (j ∷ js) = same_key j k || has_key k js

pub has_key-append :
    (k : LockKey) (xs ys : List LockKey) → has_key k (xs ++ ys) ≡ (has_key k xs || has_key k ys)
has_key-append k [] ys = refl
has_key-append k (x ∷ xs) ys = ground (arith, has_key-append k xs ys)

module _ (P : Platform) where
  open P use {locks}

  -- The lock on a key, some time after the state's own.
  abbrev pub lock_later : ℕ → LockKey → State P → Option LockData
  lock_later d k s = locks.get (s.now + d) k s.redis_locks

  -- Only the locks differ.
  pub record SameButLocks (s s' : State P) : Type 0 where
    pub same_now : s'.now ≡ s.now
    pub same_db : s'.db ≡ s.db
    pub same_tx : s'.tx ≡ s.tx
    pub same_availability : s'.redis_availability ≡ s.redis_availability

  pub SameButLocks-trans :
      {s t u : State P} → SameButLocks s t → SameButLocks t u → SameButLocks s u
  SameButLocks-trans h k = ground arith

  -- Deleting keys touches nothing but the locks, also where a call rejects.
  pub del_loop-SameButLocks :
      (ks : List LockKey) (s : State P) (r : Script) → SameButLocks s (del_loop P ks s r).1
  unfolding del_loop del_lock
  del_loop-SameButLocks [] s r = ground arith
  del_loop-SameButLocks (j ∷ ks) s r = ground (
    arith,
    del_loop-SameButLocks ks (record s { redis_locks = locks.del j s.redis_locks })
        (later_replies r),
  )

  -- Deleting keys removes their locks and no other.
  pub del_loop_lem :
      (ks : List LockKey) (s : State P) (r : Script) (u : Unit {0}) (k : LockKey) (d : ℕ)
      → (del_loop P ks s r).0 ≡ ok u
      → lock_later d k (del_loop P ks s r).1 ≡ (if has_key k ks then none else lock_later d k s)
  unfolding del_loop del_lock
  del_loop_lem [] s r u k d h = refl
  del_loop_lem (j ∷ ks) s r u k d h = ground (
    arith,
    del_loop_lem ks (record s { redis_locks = locks.del j s.redis_locks }) (later_replies r) u k d,
    locks.get-del (s.now + d) j k s.redis_locks,
  )

  -- The locks that a request has set on top of those of `s₀`, all with the value `v`.
  pub record Locked (v : LockData) (keys : List LockKey) (s₀ s : State P) : Type 0 where
    pub only : SameButLocks s₀ s
    pub locked_now :
        (k : LockKey) (d : ℕ)
        → lock_later d k s ≡ (
            if has_key k keys
            then (if ltb d (lock_ttl * second) then some v else none)
            else lock_later d k s₀)
    pub was_free : (k : LockKey) (d : ℕ) → has_key k keys ≡ true → lock_later d k s₀ ≡ none

  abbrev pub value_of : ℕ → ℕ → State P → LockData
  value_of user session s = record { user_id = user; session_id = session; locked_at = s.now }

  -- One round of the loop: a free seat is locked, and a taken one is left as it is.
  pub set_lock-Locked :
      (event seat user session : ℕ) (keys : List LockKey) (s₀ s : State P) (r : Script) (got : Bool)
      → Locked (value_of user session s₀) keys s₀ s
      → (set_lock P (lock_key event seat) user session s r).0 ≡ ok got
      → Locked
          (value_of user session s₀)
          (if got then keys ++ lock_key event seat ∷ [] else keys)
          s₀
          (set_lock P (lock_key event seat) user session s r).1
  unfolding set_lock
  set_lock-Locked event seat user session keys s₀ s r got h e = record {
    only = ground (arith, h.only);
    locked_now = λ k d. ground (
      arith,
      h.locked_now k d,
      h.locked_now k 0,
      locks.set_nx_ok_lem s.now (lock_key event seat) s.redis_locks,
      has_key-append k keys (lock_key event seat ∷ []),
      locks.get-set_nx s.now (s.now + d) (lock_key event seat) k (value_of user session s₀)
          (lock_ttl * second) s.redis_locks,
    );
    was_free = λ k d m. ground (
      arith,
      h.locked_now k d,
      h.was_free k d,
      locks.set_nx_ok_lem s.now (lock_key event seat) s.redis_locks,
      has_key-append k keys (lock_key event seat ∷ []),
      same_key_eq (lock_key event seat) k,
      locks.get-none s.now (s.now + d) (lock_key event seat) s.redis_locks,
    );
  }
