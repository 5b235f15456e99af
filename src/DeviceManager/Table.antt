-- ===== src/DeviceManager/Table.antt =====
-- PostgreSQL tables as the code uses them: rows in the order of insertion, found and changed by
-- their primary key.
use mathlib.Core.Option
use g_io_t_edge_gateway.Prelude.{
  Bool-cases, List, Option, String, [], arith, if◌then◌else◌, inl, inr, nat_eq, none, refl, some,
  string_eq, ◌++◌, ◌==◌, ◌∷◌, ◌≡◌,
}

module _ {A : Type 0} (id : A → String) where
  -- `SELECT … WHERE id = key`.
  unfoldable pub find_by : String → List A → Option A
  find_by key [] = none
  find_by key (row ∷ rows) = if id row == key then some row else find_by key rows

  -- `UPDATE … WHERE id = key`: at most one row has the key.
  unfoldable pub update_by : String → (A → A) → List A → List A
  update_by key f [] = []
  update_by key f (row ∷ rows) = if id row == key then f row ∷ rows else row ∷ update_by key f rows

  pub find_by-update_by :
      (key other : String) (f : A → A) (rows : List A)
      → ((row : A) → id (f row) ≡ id row)
      → find_by key (update_by other f rows)
        ≡ (if other == key then Option.map f (find_by key rows) else find_by key rows)
  unfolding find_by update_by
  find_by-update_by key other f [] kept = ground arith
  find_by-update_by key other f (row ∷ rows) kept = ground (
    arith,
    find_by-update_by key other f rows kept,
    kept row,
    string_eq.beq_iff (id row) other,
    string_eq.beq_iff (id row) key,
    string_eq.beq_iff other key,
  )

  pub find_by-append :
      (key : String) (row : A) (rows : List A)
      → find_by key (rows ++ row ∷ []) ≡ (elim (find_by key rows) [
        | some old ↦ some old
        | none ↦ if id row == key then some row else none
      ])
  unfolding find_by
  find_by-append key row [] = refl
  find_by-append key row (x ∷ rows) = elim (Bool-cases (id x == key)) [
    | inl e ↦ rw e refl
    | inr e ↦ rw e (find_by-append key row rows)
  ]
