-- ===== src/External/LockStore.antt =====
-- The keys of Redis that hold seat locks, as `SET key value EX ttl NX`, `GET`, `DEL` and
-- `EXPIRE` treat them. Times are in milliseconds; a reply at time t is about time t.
use distributed_nestjs_event.Base.{
  ℕ, ◌+◌, ◌≤◌, ◌≡◌, Bool, Option, none, some, ◌==◌, ltb, if◌then◌else◌, is_none, ◌&&◌,
}

-- `lock:event:${eventId}:seat:${seatId}`
pub record LockKey : Type 0 where
  pub event : ℕ
  pub seat : ℕ

abbrev pub same_key : LockKey → LockKey → Bool
same_key a b = a.event == b.event && a.seat == b.seat

-- The JSON value of a lock.
pub record LockData : Type 0 where
  pub user_id : ℕ
  pub session_id : ℕ
  pub locked_at : ℕ

pub record LockStore : Type 1 where
  pub Store : Type 0
  pub get : ℕ → LockKey → Store → Option LockData
  -- time, key, value and time to live
  pub set_nx : ℕ → LockKey → LockData → ℕ → Store → Store
  -- whether the same call replies `OK`
  pub set_nx_ok : ℕ → LockKey → Store → Bool
  pub del : LockKey → Store → Store
  pub expire : ℕ → LockKey → ℕ → Store → Store
  pub set_nx_ok_lem : (t : ℕ) (k : LockKey) (s : Store) → set_nx_ok t k s ≡ is_none (get t k s)
  pub get-set_nx :
      (t u : ℕ) (k j : LockKey) (v : LockData) (ttl : ℕ) (s : Store)
      → t ≤ u
      → get u j (set_nx t k v ttl s) ≡ (
          if is_none (get t k s) && same_key k j
          then (if ltb u (t + ttl) then some v else none)
          else get u j s)
  pub get-del :
      (u : ℕ) (k j : LockKey) (s : Store)
      → get u j (del k s) ≡ (if same_key k j then none else get u j s)
  pub get-expire :
      (t u : ℕ) (k j : LockKey) (ttl : ℕ) (s : Store)
      → t ≤ u
      → get u j (expire t k ttl s)
        ≡ (if same_key k j then (if ltb u (t + ttl) then get t k s else none) else get u j s)
  -- a key that has gone stays away until it is set again
  pub get-none : (t u : ℕ) (k : LockKey) (s : Store) → t ≤ u → get t k s ≡ none → get u k s ≡ none
