-- ===== src/External/Hashes.antt =====
-- The Redis hashes `avail:${eventId}` of the seats' statuses: `HSET`, `HGET`, `HGETALL`, `DEL`.
use distributed_nestjs_event.Base.{
  ℕ, ◌≡◌, ◌≢◌, refl, arith, or_else, by_key-none, Option, some, none, List, [], ◌∷◌, ◌==◌,
  if◌then◌else◌, ◌&&◌, by_key, Distinct, map,
}
use mathlib.Core.Option

-- A field of a hash with its value.
pub record Entry (V : Type 0) : Type 0 where
  pub field : ℕ
  pub value : V

abbrev pub field_of : {V : Type 0} → Entry V → ℕ
field_of e = e.field

pub record Hashes (V : Type 0) : Type 1 where
  pub Store : Type 0
  pub hget : ℕ → ℕ → Store → Option V
  pub hset : ℕ → ℕ → V → Store → Store
  pub hgetall : ℕ → Store → List (Entry V)
  pub del : ℕ → Store → Store
  pub hget-hset :
      (h f h' f' : ℕ) (v : V) (s : Store)
      → hget h' f' (hset h f v s) ≡ (if h == h' && f == f' then some v else hget h' f' s)
  pub hget-del :
      (h h' f' : ℕ) (s : Store) → hget h' f' (del h s) ≡ (if h == h' then none else hget h' f' s)
  pub hget-hgetall :
      (h f : ℕ) (s : Store)
      → Option.map (λ e. e.value) (by_key field_of f (hgetall h s)) ≡ hget h f s
  pub hgetall-Distinct : (h : ℕ) (s : Store) → Distinct (map field_of (hgetall h s))

module _ {V : Type 0} (H : Hashes V) where
  open H use {Store, hget, hset, hget-hset}

  -- The commands that a pipeline of `hset` has collected, run in order.
  unfoldable pub hset_all : ℕ → List (Entry V) → Store → Store
  hset_all h [] s = s
  hset_all h (e ∷ es) s = hset_all h es (hset h e.field e.value s)

  -- Entries with different fields are all there after, and the other fields as before.
  pub hget-hset_all :
      (h f : ℕ) (es : List (Entry V)) (s : Store)
      → Distinct (map field_of es)
      → hget h f (hset_all h es s)
        ≡ or_else (Option.map (λ e. e.value) (by_key field_of f es)) (hget h f s)
  unfolding hset_all
  hget-hset_all h f [] s d = refl
  hget-hset_all h f (e ∷ es) s d = ground (
    arith,
    hget-hset_all h f es (hset h e.field e.value s) d.1,
    hget-hset h e.field h f e.value s,
    by_key-none field_of f es,
    d.0,
  )

  -- A pipeline for one hash leaves the others alone.
  pub hget-hset_all_ne :
      (h h' f : ℕ) (es : List (Entry V)) (s : Store)
      → h ≢ h'
      → hget h' f (hset_all h es s) ≡ hget h' f s
  unfolding hset_all
  hget-hset_all_ne h h' f [] s ne = refl
  hget-hset_all_ne h h' f (e ∷ es) s ne = ground (
    arith,
    ne,
    hget-hset_all_ne h h' f es (hset h e.field e.value s),
    hget-hset h e.field h' f e.value s,
  )
