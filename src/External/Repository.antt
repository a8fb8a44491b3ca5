-- ===== src/External/Repository.antt =====
-- A TypeORM repository over one table with a primary key, which services use through `find`,
-- `save`, `update` and `create`. The table itself is not in the repository: only the laws are.
use distributed_nestjs_event.Base.{
  length, ◌⊎◌, List-cases, head?, true, false, ◌≤◌, ℕ, ◌≡◌, refl, Bool, Option, none, some, List,
  [], ◌∷◌, map, arith, ◌==◌, if◌then◌else◌, keep, or_else, Distinct, by_key, by_key-map,
  by_key-none, map-key, Option-cases, inl, inr,
}
use mathlib.Core.Option

pub record Repository (Row : Type 0) (key : Row → ℕ) : Type 1 where
  pub Table : Type 0
  -- the row with a primary key
  pub get : ℕ → Table → Option Row
  -- `find({ where })`
  pub find : (Row → Bool) → Table → List Row
  -- `find({ where, order: { column: 'ASC' }, take })`; the laws say which rows come, not their order
  pub find_first : (Row → Bool) → (Row → ℕ) → ℕ → Table → List Row
  -- `save(entity)`: an upsert by primary key
  pub save : Row → Table → Table
  -- `update(where, patch)`
  pub update : (Row → Bool) → (Row → Row) → Table → Table
  -- the primary key that an insert would generate
  pub fresh : Table → ℕ
  pub get-key : (i : ℕ) (t : Table) (r : Row) → get i t ≡ some r → key r ≡ i
  pub get-save :
      (i : ℕ) (r : Row) (t : Table) → get i (save r t) ≡ (if i == key r then some r else get i t)
  pub get-find : (i : ℕ) (p : Row → Bool) (t : Table) → by_key key i (find p t) ≡ keep p (get i t)
  pub find-Distinct : (p : Row → Bool) (t : Table) → Distinct (map key (find p t))
  pub get-find_first :
      (i : ℕ) (p : Row → Bool) (o : Row → ℕ) (n : ℕ) (t : Table)
      → (by_key key i (find_first p o n t) ≡ none)
        ⊎ (by_key key i (find_first p o n t) ≡ keep p (get i t))
  pub find_first-Distinct :
      (p : Row → Bool) (o : Row → ℕ) (n : ℕ) (t : Table) → Distinct (map key (find_first p o n t))
  pub length-find_first :
      (p : Row → Bool) (o : Row → ℕ) (n : ℕ) (t : Table) → length (find_first p o n t) ≤ n
  pub find_first_all :
      (i : ℕ) (p : Row → Bool) (o : Row → ℕ) (n : ℕ) (t : Table)
      → length (find p t) ≤ n
      → by_key key i (find_first p o n t) ≡ keep p (get i t)
  pub get-update :
      (i : ℕ) (p : Row → Bool) (f : Row → Row) (t : Table)
      → ((r : Row) → key (f r) ≡ key r)
      → get i (update p f t) ≡ Option.map (λ r. if p r then f r else r) (get i t)
  pub get-fresh : (t : Table) → get (fresh t) t ≡ none

module _ {Row : Type 0} {key : Row → ℕ} (R : Repository Row key) where
  open R use {
    Table, get, find, save, update, get-key, get-update, get-save, get-find, find-Distinct, fresh,
    get-fresh,
  }

  -- `save(entities)`
  unfoldable pub save_all : List Row → Table → Table
  save_all [] t = t
  save_all (r ∷ rs) t = save_all rs (save r t)

  -- After a save of rows with different keys each row is the saved one, and others are unchanged.
  pub get-save_all :
      (i : ℕ) (rs : List Row) (t : Table)
      → Distinct (map key rs)
      → get i (save_all rs t) ≡ or_else (by_key key i rs) (get i t)
  unfolding save_all
  get-save_all i [] t h = refl
  get-save_all i (r ∷ rs) t h =
      ground (arith, get-save_all i rs (save r t) h.1, get-save i r t, by_key-none key i rs)

  -- Finding rows, changing them and saving them is an update of the rows that the query selects.
  pub get-save_all-find :
      (i : ℕ) (p : Row → Bool) (f : Row → Row) (t : Table)
      → ((r : Row) → key (f r) ≡ key r)
      → get i (save_all (map f (find p t)) t) ≡ Option.map (λ r. if p r then f r else r) (get i t)
  get-save_all-find i p f t h = ground (
    arith,
    get-save_all i (map f (find p t)) t (rw (map-key key f h (find p t)) (find-Distinct p t)),
    by_key-map key f h i (find p t),
    get-find i p t,
  )

  -- `save` of an entity that was built by `create` and has no key yet: the key is generated. The
  -- generated keys come back in the order of the entities.
  unfoldable pub insert_all : (ℕ → Row → Row) → List Row → Table → List ℕ × Table
  insert_all with_id [] t = ([], t)
  insert_all with_id (r ∷ rs) t =
      let i = fresh t in
      let (ids, t') = insert_all with_id rs (save (with_id i r) t) in (i ∷ ids, t')

  -- An insert leaves the rows that were there alone.
  pub get-insert_all_old :
      (with_id : ℕ → Row → Row) (rs : List Row) (t : Table) (i : ℕ) (r : Row)
      → ((j : ℕ) (x : Row) → key (with_id j x) ≡ j)
      → get i t ≡ some r
      → get i (insert_all with_id rs t).1 ≡ some r
  unfolding insert_all
  get-insert_all_old with_id [] t i r h e = e
  get-insert_all_old with_id (x ∷ rs) t i r h e =
      get-insert_all_old with_id rs (save (with_id (fresh t) x) t) i r h
        (ground (arith, get-save i (with_id (fresh t) x) t, h (fresh t) x, get-fresh t))

  -- Each generated key leads to one of the inserted entities, and led to no row before.
  abbrev pub IsInserted : (ℕ → Row → Row) → List Row → List ℕ → Table → Table → Type 0
  IsInserted with_id [] [] old new = Unit
  IsInserted with_id (r ∷ rs) (i ∷ ids) old new =
      (get i old ≡ none) × (get i new ≡ some (with_id i r)) × IsInserted with_id rs ids old new
  IsInserted with_id _ _ old new = ⊥

  get-ne-none :
      (i : ℕ) (old t : Table)
      → ((j : ℕ) (x : Row) → get j old ≡ some x → get j t ≡ some x)
      → get i t ≡ none
      → get i old ≡ none
  get-ne-none i old t below h = elim (Option-cases (get i old)) [
    | inl e ↦ e
    | inr (x, e) ↦ cc (below i x e)
  ]

  insert_all-IsInserted_above :
      (with_id : ℕ → Row → Row) (rs : List Row) (old t : Table)
      → ((j : ℕ) (x : Row) → key (with_id j x) ≡ j)
      → ((j : ℕ) (x : Row) → get j old ≡ some x → get j t ≡ some x)
      → IsInserted with_id rs (insert_all with_id rs t).0 old (insert_all with_id rs t).1
  unfolding insert_all
  insert_all-IsInserted_above with_id [] old t h below = tt
  insert_all-IsInserted_above with_id (r ∷ rs) old t h below =
      let i = fresh t in
      let row = with_id i r in
      let there : get i (save row t) ≡ some row = ground (arith, get-save i row t, h i r) in
      (
        get-ne-none i old t below (get-fresh t),
        get-insert_all_old with_id rs (save row t) i row h there,
        insert_all-IsInserted_above with_id rs old (save row t) h
            (λ j x e. ground (arith, get-save j row t, h i r, below j x e, get-fresh t)),
      )

  pub insert_all-IsInserted :
      (with_id : ℕ → Row → Row) (rs : List Row) (t : Table)
      → ((j : ℕ) (x : Row) → key (with_id j x) ≡ j)
      → IsInserted with_id rs (insert_all with_id rs t).0 t (insert_all with_id rs t).1
  insert_all-IsInserted with_id rs t h = insert_all-IsInserted_above with_id rs t t h (λ j x e. e)

  -- The first row that a query finds is the row with its key, and passes the test.
  pub get-find_head :
      (p : Row → Bool) (x : Row) (xs : List Row) (t : Table)
      → find p t ≡ x ∷ xs
      → (get (key x) t ≡ some x) × (p x ≡ true)
  get-find_head p x xs t e =
      let stored : keep p (get (key x) t) ≡ some x = ground (arith, e, get-find (key x) p t) in
      elim (Option-cases (get (key x) t)) [
        | inl n ↦ absurd (ground (arith, stored, n))
        | inr (y, there) ↦ ground (arith, stored, there)
      ]

  -- A query that no row passes finds nothing.
  pub find-nil :
      (p : Row → Bool) (t : Table)
      → ((i : ℕ) (x : Row) → get i t ≡ some x → p x ≡ false)
      → find p t ≡ []
  find-nil p t fails = elim (List-cases (find p t)) [
    | inl e ↦ e
    | inr (x, xs, e) ↦
        let (there, passes) = get-find_head p x xs t e in
        absurd (ground (arith, passes, fails (key x) x there))
  ]

  -- The only row that a query finds is not found once it is saved in a form that fails the test.
  pub find-save_out :
      (p : Row → Bool) (x x' : Row) (t : Table)
      → find p t ≡ x ∷ []
      → key x' ≡ key x
      → p x' ≡ false
      → find p (save x' t) ≡ []
  find-save_out p x x' t e same fails = find-nil p (save x' t) (λ i y there.
      elim (Option-cases (keep p (get i t))) [
        | inl n ↦ ground (arith, e, same, fails, there, n, get-save i x' t, get-find i p t)
        | inr (z, n) ↦ ground (arith, e, same, fails, there, n, get-save i x' t, get-find i p t)
      ])

  -- The only row that passes a test is what `findOne` returns.
  pub head-find :
      (p : Row → Bool) (i : ℕ) (x : Row) (t : Table)
      → get i t ≡ some x
      → p x ≡ true
      → ((j : ℕ) (y : Row) → get j t ≡ some y → p y ≡ true → j ≡ i)
      → head? (find p t) ≡ some x
  head-find p i x t there passes only = elim (List-cases (find p t)) [
    | inl e ↦ absurd (ground (arith, e, there, passes, get-find i p t))
    | inr (y, ys, e) ↦
        let (stored, ok_y) = get-find_head p y ys t e in
        ground (arith, e, there, stored, only (key y) y stored ok_y)
  ]

  -- A test that no row passed is passed only by the row that is saved and changed after.
  pub update-save_only :
      (p : Row → Bool) (f : Row → Row) (x : Row) (t : Table)
      → find p t ≡ []
      → ((r : Row) → key (f r) ≡ key r)
      → (j : ℕ) (y : Row) → get j (update (λ r. key r == key x) f (save x t)) ≡ some y
      → p y ≡ true
      → j ≡ key x
  update-save_only p f x t e same j y there passes = elim (Option-cases (get j t)) [
    | inl n ↦
        ground
          (arith, n, there, get-update j (λ r. key r == key x) f (save x t) same, get-save j x t)
    | inr (z, n) ↦ ground (
      arith,
      e,
      n,
      there,
      passes,
      get-key j t z n,
      get-update j (λ r. key r == key x) f (save x t) same,
      get-save j x t,
      get-find j p t,
    )
  ]

  -- The only row that a query finds is not found once it is changed so that it fails the test.
  pub find-update_out :
      (p : Row → Bool) (f : Row → Row) (x : Row) (t : Table)
      → find p t ≡ x ∷ []
      → ((r : Row) → key (f r) ≡ key r)
      → p (f x) ≡ false
      → find p (update (λ r. key r == key x) f t) ≡ []
  find-update_out p f x t e same fails =
      let stored = (get-find_head p x [] t e).0 in
      find-nil p (update (λ r. key r == key x) f t) (λ i y there. elim (Option-cases (get i t)) [
        | inl n ↦ ground (arith, n, there, get-update i (λ r. key r == key x) f t same)
        | inr (z, n) ↦ ground (
          arith,
          e,
          n,
          stored,
          there,
          fails,
          get-key i t z n,
          get-update i (λ r. key r == key x) f t same,
          get-find i p t,
        )
      ])
