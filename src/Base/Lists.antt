-- ===== src/Base/Lists.antt =====
-- Lists over the native numbers: lengths, membership tests, filters, rows found by a key.
use Prim.Native.Nat.{ℕ, zero, suc, ◌≤◌}
use mathlib.Core.Path.{◌≡◌, refl, ap}
use mathlib.Core.Logic.{◌⊎◌, inl, inr}
use mathlib.Core.Bool.{Bool, false, ◌||◌}
use mathlib.Core.Option.{Option, none, some}
use mathlib.Core.Option
use mathlib.Core.List.{List, [], ◌∷◌, map}
use native.Mathlib.Omega.{arith}
use distributed_nestjs_event.Base.Tests.{◌==◌, if◌then◌else◌}

module _ {ℓ} {A : Type ℓ} where
  abbrev pub length : List A → ℕ
  length [] = 0
  length (x ∷ xs) = suc (length xs)

  abbrev pub head? : List A → Option A
  head? [] = none
  head? (x ∷ xs) = some x

  -- `xs.filter(p)`
  abbrev pub filter : (A → Bool) → List A → List A
  filter p [] = []
  filter p (x ∷ xs) = let rest = filter p xs in if p x then x ∷ rest else rest

  abbrev pub find : (A → Bool) → List A → Option A
  find p [] = none
  find p (x ∷ xs) = let rest = find p xs in if p x then some x else rest

  abbrev pub take : ℕ → List A → List A
  take zero xs = []
  take (suc n) [] = []
  take (suc n) (x ∷ xs) = x ∷ take n xs

  abbrev pub All {κ} : (A → Type κ) → List A → Type κ
  All P [] = Unit
  All P (x ∷ xs) = P x × All P xs

-- `xs.includes(x)`
abbrev pub includes : List ℕ → ℕ → Bool
includes [] a = false
includes (x ∷ xs) a = a == x || includes xs a

-- No number stands twice in the list.
abbrev pub Distinct : List ℕ → Type 0
Distinct [] = Unit
Distinct (x ∷ xs) = (includes xs x ≡ false) × Distinct xs

module _ {A : Type 0} (key : A → ℕ) where
  -- The first row with a key.
  abbrev pub by_key : ℕ → List A → Option A
  by_key i [] = none
  by_key i (x ∷ xs) = let rest = by_key i xs in if i == key x then some x else rest

  -- A row without the key's number is not found under it.
  pub by_key-none : (i : ℕ) (xs : List A) → includes (map key xs) i ≡ false → by_key i xs ≡ none
  by_key-none i [] h = refl
  by_key-none i (x ∷ xs) h = ground (arith, by_key-none i xs)

  -- Changing rows without changing their keys.
  pub by_key-map :
      (f : A → A)
      → ((x : A) → key (f x) ≡ key x)
      → (i : ℕ) (xs : List A) → by_key i (map f xs) ≡ Option.map f (by_key i xs)
  by_key-map f h i [] = refl
  by_key-map f h i (x ∷ xs) = ground (arith, h x, by_key-map f h i xs)

  pub map-key :
      (f : A → A) → ((x : A) → key (f x) ≡ key x) → (xs : List A) → map key (map f xs) ≡ map key xs
  map-key f h [] = refl
  map-key f h (x ∷ xs) = ground (arith, h x, map-key f h xs)

  -- In a list of rows with different keys, what holds of each row found by its key holds of all.
  pub by_key-All :
      (Q : A → Type 0) (xs : List A)
      → Distinct (map key xs)
      → ((i : ℕ) (x : A) → by_key i xs ≡ some x → Q x)
      → All Q xs
  by_key-All Q [] h q = tt
  by_key-All Q (x ∷ xs) h q = (
    q (key x) x (ground arith),
    by_key-All Q xs h.1 (λ i y e. q i y (ground (arith, e, h.0, by_key-none i xs))),
  )

  pub by_key-take :
      (i n : ℕ) (xs : List A) → (by_key i (take n xs) ≡ none) ⊎ (by_key i (take n xs) ≡ by_key i xs)
  by_key-take i zero xs = inl refl
  by_key-take i (suc n) [] = inl refl
  by_key-take i (suc n) (x ∷ xs) = ground (arith, by_key-take i n xs)

  pub includes-take :
      (a n : ℕ) (xs : List A)
      → includes (map key xs) a ≡ false
      → includes (map key (take n xs)) a ≡ false
  includes-take a zero xs h = refl
  includes-take a (suc n) [] h = refl
  includes-take a (suc n) (x ∷ xs) h = ground (arith, includes-take a n xs)

  pub take-Distinct : (n : ℕ) (xs : List A) → Distinct (map key xs) → Distinct (map key (take n xs))
  take-Distinct zero xs h = tt
  take-Distinct (suc n) [] h = tt
  take-Distinct (suc n) (x ∷ xs) h = (includes-take (key x) n xs h.0, take-Distinct n xs h.1)

module _ {A : Type 0} where
  pub length-take : (n : ℕ) (xs : List A) → length (take n xs) ≤ n
  length-take zero xs = omega arith
  length-take (suc n) [] = omega arith
  length-take (suc n) (x ∷ xs) = omega (arith, length-take n xs)

  pub take_all : (n : ℕ) (xs : List A) → length xs ≤ n → take n xs ≡ xs
  take_all zero [] h = refl
  take_all zero (x ∷ xs) h = absurd (omega arith)
  take_all (suc n) [] h = refl
  take_all (suc n) (x ∷ xs) h = ap (λ ys. x ∷ ys) (take_all n xs (omega arith))

pub List-cases {ℓ} :
    {A : Type ℓ} (xs : List A) → (xs ≡ []) ⊎ ((x : A) × (ys : List A) × (xs ≡ x ∷ ys))
List-cases [] = inl refl
List-cases (x ∷ xs) = inr (x, xs, refl)

-- A row that is found by one key is found by another key too, where no two rows share the other.
pub by_key-other :
    {A : Type 0} (key other : A → ℕ) (i : ℕ) (x : A) (xs : List A)
    → Distinct (map other xs)
    → by_key key i xs ≡ some x
    → by_key other (other x) xs ≡ some x
by_key-other key other i x [] d e = cc
by_key-other key other i x (y ∷ ys) d e = ground (
  arith,
  d.0,
  by_key-other key other i x ys d.1,
  by_key-none other (other y) ys,
  by_key-none other (other x) ys,
)

-- Rows turned into entries under the same key.
pub by_key-map_to :
    {A B : Type 0} (key : A → ℕ) (key' : B → ℕ) (f : A → B) (i : ℕ) (xs : List A)
    → ((x : A) → key' (f x) ≡ key x)
    → by_key key' i (map f xs) ≡ Option.map f (by_key key i xs)
by_key-map_to key key' f i [] h = refl
by_key-map_to key key' f i (x ∷ xs) h = ground (arith, h x, by_key-map_to key key' f i xs h)

pub map-key_to :
    {A B : Type 0} (key : A → ℕ) (key' : B → ℕ) (f : A → B) (xs : List A)
    → ((x : A) → key' (f x) ≡ key x)
    → map key' (map f xs) ≡ map key xs
map-key_to key key' f [] h = refl
map-key_to key key' f (x ∷ xs) h = ground (arith, h x, map-key_to key key' f xs h)
