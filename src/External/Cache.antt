-- ===== src/External/Cache.antt =====
-- The keys of Redis that hold JSON values for a time: `GET` and `SET key value EX ttl`. Times are in
-- milliseconds; a reply at time t is about time t. `SET … NX` is the same write where `GET` finds
-- nothing, and a missing reply elsewhere.
use distributed_nestjs_event.Base.{
  ℕ, ◌+◌, ◌≤◌, ◌≡◌, Bool, Option, none, some, ◌==◌, ltb, if◌then◌else◌, is_none, arith,
}

pub record Cache (V : Type 0) : Type 1 where
  pub Store : Type 0
  pub get : ℕ → ℕ → Store → Option V
  -- time, key, value and time to live
  pub set : ℕ → ℕ → V → ℕ → Store → Store
  pub get-set :
      (t u k j : ℕ) (v : V) (ttl : ℕ) (s : Store)
      → t ≤ u
      → get u j (set t k v ttl s)
        ≡ (if k == j then (if ltb u (t + ttl) then some v else none) else get u j s)

module _ {V : Type 0} (C : Cache V) where
  open C use {Store, get, set}

  -- whether `SET … NX` replies `OK`, and the store after it
  abbrev pub set_nx_ok : ℕ → ℕ → Store → Bool
  set_nx_ok t k s = is_none (get t k s)

  abbrev pub set_nx : ℕ → ℕ → V → ℕ → Store → Store
  set_nx t k v ttl s = if is_none (get t k s) then set t k v ttl s else s

-- A cache in memory.
abbrev pub cached_at : {V : Type 0} → ℕ → Option (V × ℕ) → Option V
cached_at t none = none
cached_at t (some (v, e)) = if ltb t e then some v else none

pub memory_get-set :
    {V : Type 0} (t u k j : ℕ) (v : V) (ttl : ℕ) (s : ℕ → Option (V × ℕ))
    → t ≤ u
    → cached_at u (if k == j then some (v, t + ttl) else s j)
      ≡ (if k == j then (if ltb u (t + ttl) then some v else none) else cached_at u (s j))
memory_get-set t u k j v ttl s h = ground arith

abbrev pub memory_cache : (V : Type 0) → Cache V
memory_cache V = record {
  Store = ℕ → Option (V × ℕ);
  get = λ t k s. cached_at t (s k);
  set = λ t k v ttl s j. if k == j then some (v, t + ttl) else s j;
  get-set = memory_get-set;
}
