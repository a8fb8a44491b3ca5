-- ===== src/External/Memory.antt =====
-- Stores in memory that meet the laws of the interfaces: a table as a bound on its keys and a
-- function into rows, the locks as a function into values with an expiry.
use distributed_nestjs_event.Base.{
  take, length, subst, ap, ◌∙◌, ◌⊎◌, by_key-take, take-Distinct, length-take, take_all, ℕ, zero,
  suc, ◌+◌, ◌≤◌, ◌≡◌, refl, Bool, true, false, Option, none, some, List, [], ◌∷◌, map, arith, ◌==◌,
  ltb, if◌then◌else◌, is_none, ◌&&◌, keep, Option-cases, inl, inr, includes, Distinct, by_key, max,
}
use distributed_nestjs_event.External.Repository.{Repository}
use distributed_nestjs_event.External.LockStore.{LockKey, same_key, LockData, LockStore}
use distributed_nestjs_event.External.Hashes.{Entry, field_of, Hashes}
use mathlib.Core.Option

module _ {Row : Type 0} (key : Row → ℕ) where
  pub record MemoryTable : Type 0 where
    pub bound : ℕ
    pub cell : ℕ → Option Row

  -- The row stored at i, unless it is out of bounds or is stored under another key.
  abbrev pub at : ℕ → (ℕ → Option Row) → Option Row
  at i c = keep (λ r. key r == i) (c i)

  abbrev pub collect : (Row → Bool) → ℕ → (ℕ → Option Row) → List Row
  collect p zero c = []
  collect p (suc n) c =
      let rest = collect p n c in elim (keep p (at n c)) [ none ↦ rest | some r ↦ r ∷ rest ]

  abbrev pub memory_get : ℕ → MemoryTable → Option Row
  memory_get i t = if ltb i t.bound then at i t.cell else none

  abbrev pub memory_save : Row → MemoryTable → MemoryTable
  memory_save r t = record {
    bound = max t.bound (suc (key r));
    cell = λ i. if i == key r then some r else (if ltb i t.bound then t.cell i else none);
  }

  abbrev pub memory_update : (Row → Bool) → (Row → Row) → MemoryTable → MemoryTable
  memory_update p f t = record t { cell = λ i. Option.map (λ r. if p r then f r else r) (t.cell i) }

  pub memory_get-key : (i : ℕ) (t : MemoryTable) (r : Row) → memory_get i t ≡ some r → key r ≡ i
  memory_get-key i t r h = ground arith

  pub memory_get-save :
      (i : ℕ) (r : Row) (t : MemoryTable)
      → memory_get i (memory_save r t) ≡ (if i == key r then some r else memory_get i t)
  memory_get-save i r t = ground arith

  pub memory_get-update :
      (i : ℕ) (p : Row → Bool) (f : Row → Row) (t : MemoryTable)
      → ((r : Row) → key (f r) ≡ key r)
      → memory_get i (memory_update p f t)
        ≡ Option.map (λ r. if p r then f r else r) (memory_get i t)
  memory_get-update i p f t h = elim (Option-cases (t.cell i)) [
    | inl e ↦ ground arith
    | inr (r, e) ↦ ground (arith, h r)
  ]

  collect-none :
      (i n : ℕ) (p : Row → Bool) (c : ℕ → Option Row)
      → n ≤ i
      → includes (map key (collect p n c)) i ≡ false
  collect-none i zero p c h = refl
  collect-none i (suc n) p c h = ground (arith, collect-none i n p c)

  pub collect-Distinct :
      (n : ℕ) (p : Row → Bool) (c : ℕ → Option Row) → Distinct (map key (collect p n c))
  collect-Distinct zero p c = tt
  collect-Distinct (suc n) p c = ground (arith, collect-none n n p c, collect-Distinct n p c)

  pub by_key-collect :
      (i n : ℕ) (p : Row → Bool) (c : ℕ → Option Row)
      → by_key key i (collect p n c) ≡ keep p (if ltb i n then at i c else none)
  by_key-collect i zero p c = ground arith
  by_key-collect i (suc n) p c = ground (arith, by_key-collect i n p c)

  pub memory_get-fresh : (t : MemoryTable) → memory_get t.bound t ≡ none
  memory_get-fresh t = ground arith

  pub memory_get-find_first :
      (i : ℕ) (p : Row → Bool) (o : Row → ℕ) (n : ℕ) (t : MemoryTable)
      → (by_key key i (take n (collect p t.bound t.cell)) ≡ none)
        ⊎ (by_key key i (take n (collect p t.bound t.cell)) ≡ keep p (memory_get i t))
  memory_get-find_first i p o n t =
      subst
        (λ x.
          (by_key key i (take n (collect p t.bound t.cell)) ≡ none)
          ⊎ (by_key key i (take n (collect p t.bound t.cell)) ≡ x))
        (by_key-collect i t.bound p t.cell) (by_key-take key i n (collect p t.bound t.cell))

  pub memory_find_first_all :
      (i : ℕ) (p : Row → Bool) (o : Row → ℕ) (n : ℕ) (t : MemoryTable)
      → length (collect p t.bound t.cell) ≤ n
      → by_key key i (take n (collect p t.bound t.cell)) ≡ keep p (memory_get i t)
  memory_find_first_all i p o n t h =
      ap (by_key key i) (take_all n (collect p t.bound t.cell) h)
      ∙ by_key-collect i t.bound p t.cell

  abbrev pub memory_repository : Repository Row key
  memory_repository = record {
    Table = MemoryTable;
    get = memory_get;
    find = λ p t. collect p t.bound t.cell;
    find_first = λ p o n t. take n (collect p t.bound t.cell);
    save = memory_save;
    update = memory_update;
    fresh = λ t. t.bound;
    get-key = memory_get-key;
    get-save = memory_get-save;
    get-find = λ i p t. by_key-collect i t.bound p t.cell;
    find-Distinct = λ p t. collect-Distinct t.bound p t.cell;
    get-find_first = memory_get-find_first;
    find_first-Distinct = λ p o n t.
        take-Distinct key n (collect p t.bound t.cell) (collect-Distinct t.bound p t.cell);
    length-find_first = λ p o n t. length-take n (collect p t.bound t.cell);
    find_first_all = memory_find_first_all;
    get-update = memory_get-update;
    get-fresh = memory_get-fresh;
  }

-- A lock's value and the time at which it expires.
abbrev pub LockCells : Type 0
LockCells = LockKey → Option (LockData × ℕ)

abbrev pub live : ℕ → Option (LockData × ℕ) → Option LockData
live t none = none
live t (some (v, e)) = if ltb t e then some v else none

abbrev pub renew : ℕ → ℕ → Option (LockData × ℕ) → Option (LockData × ℕ)
renew t ttl none = none
renew t ttl (some (v, e)) = if ltb t e then some (v, t + ttl) else none

abbrev pub cells_set_nx : ℕ → LockKey → LockData → ℕ → LockCells → LockCells
cells_set_nx t k v ttl s =
    λ j. if is_none (live t (s k)) && same_key k j then some (v, t + ttl) else s j

pub cells_get-set_nx :
    (t u : ℕ) (k j : LockKey) (v : LockData) (ttl : ℕ) (s : LockCells)
    → t ≤ u
    → live u (cells_set_nx t k v ttl s j) ≡ (
        if is_none (live t (s k)) && same_key k j
        then (if ltb u (t + ttl) then some v else none)
        else live u (s j))
cells_get-set_nx t u k j v ttl s h = ground arith

pub cells_get-del :
    (u : ℕ) (k j : LockKey) (s : LockCells)
    → live u (if same_key k j then none else s j) ≡ (if same_key k j then none else live u (s j))
cells_get-del u k j s = ground arith

pub cells_get-expire :
    (t u : ℕ) (k j : LockKey) (ttl : ℕ) (s : LockCells)
    → t ≤ u
    → live u (if same_key k j then renew t ttl (s k) else s j)
      ≡ (if same_key k j then (if ltb u (t + ttl) then live t (s k) else none) else live u (s j))
cells_get-expire t u k j ttl s h = ground arith

pub cells_get-none :
    (t u : ℕ) (k : LockKey) (s : LockCells) → t ≤ u → live t (s k) ≡ none → live u (s k) ≡ none
cells_get-none t u k s h e = ground arith

abbrev pub memory_locks : LockStore
memory_locks = record {
  Store = LockCells;
  get = λ t k s. live t (s k);
  set_nx = cells_set_nx;
  set_nx_ok = λ t k s. is_none (live t (s k));
  del = λ k s j. if same_key k j then none else s j;
  expire = λ t k ttl s j. if same_key k j then renew t ttl (s k) else s j;
  set_nx_ok_lem = λ t k s. refl;
  get-set_nx = cells_get-set_nx;
  get-del = cells_get-del;
  get-expire = cells_get-expire;
  get-none = cells_get-none;
}

module _ (V : Type 0) where
  -- One table of fields for each hash.
  abbrev pub HashCells : Type 0
  HashCells = ℕ → MemoryTable {Row = Entry V} field_of

  abbrev pub cells_hget : ℕ → ℕ → HashCells → Option V
  cells_hget h f s = Option.map (λ e. e.value) (memory_get field_of f (s h))

  abbrev pub cells_hset : ℕ → ℕ → V → HashCells → HashCells
  cells_hset h f v s =
      λ j. if h == j then memory_save field_of (record { field = f; value = v }) (s j) else s j

  abbrev pub cells_del : ℕ → HashCells → HashCells
  cells_del h s = λ j. if h == j then record { bound = 0; cell = λ i. none } else s j

  pub cells_hget-hset :
      (h f h' f' : ℕ) (v : V) (s : HashCells)
      → cells_hget h' f' (cells_hset h f v s)
        ≡ (if h == h' && f == f' then some v else cells_hget h' f' s)
  cells_hget-hset h f h' f' v s = ground arith

  pub cells_hget-del :
      (h h' f' : ℕ) (s : HashCells)
      → cells_hget h' f' (cells_del h s) ≡ (if h == h' then none else cells_hget h' f' s)
  cells_hget-del h h' f' s = ground arith

  pub cells_hgetall :
      (h f : ℕ) (s : HashCells)
      → Option.map
          (λ e. e.value)
          (by_key field_of f (collect field_of (λ e. true) (s h).bound (s h).cell))
        ≡ cells_hget h f s
  cells_hgetall h f s = ground (arith, by_key-collect field_of f (s h).bound (λ e. true) (s h).cell)

  abbrev pub memory_hashes : Hashes V
  memory_hashes = record {
    Store = HashCells;
    hget = cells_hget;
    hset = cells_hset;
    hgetall = λ h s. collect field_of (λ e. true) (s h).bound (s h).cell;
    del = cells_del;
    hget-hset = cells_hget-hset;
    hget-del = cells_hget-del;
    hget-hgetall = cells_hgetall;
    hgetall-Distinct = λ h s. collect-Distinct field_of (s h).bound (λ e. true) (s h).cell;
  }
