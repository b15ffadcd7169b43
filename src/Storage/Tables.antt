-- ===== src/Storage/Tables.antt =====
-- What a SQL statement of ferrisync-core/src/storage/mod.rs does to a table: the list of its rows
-- under their primary keys, in the order of the row ids.
use ferri_sync.Prelude.{
  ℕ, Bool, false, not, List, [], ◌∷◌, Option, none, some, String, string_eq, ◌==◌, if◌then◌else◌,
  keep, length, take, reverse_onto, max,
}
use ferri_sync.Prelude.Maps.{HashMap}

-- The first row that a condition holds of, by row id.
abbrev pub first_row {ℓ} : {K : Type 0} {V : Type ℓ} → (K × V → Bool) → HashMap K V → Option (K × V)
first_row p [] = none
first_row p (kv ∷ rows) = if p kv then some kv else first_row p rows

-- `column = ?1`, which no NULL satisfies.
abbrev pub is_text : String → Option String → Bool
is_text wanted none = false
is_text wanted (some held) = held == wanted

-- `SELECT COALESCE(MAX(id), 0) + 1`
abbrev pub max_id {ℓ} : {V : Type ℓ} → HashMap ℕ V → ℕ
max_id [] = 0
max_id ((id, row) ∷ rows) = max id (max_id rows)

abbrev pub insert_ordered {ℓ} : {A : Type ℓ} → (A → A → Bool) → A → List A → List A
insert_ordered le x [] = x ∷ []
insert_ordered le x (y ∷ ys) = if le x y then x ∷ y ∷ ys else y ∷ insert_ordered le x ys

abbrev pub order_by {ℓ} : {A : Type ℓ} → (A → A → Bool) → List A → List A
order_by le [] = []
order_by le (x ∷ xs) = insert_ordered le x (order_by le xs)

-- `DELETE FROM .. WHERE ..`, and the number of rows deleted.
abbrev pub delete_where {ℓ} :
    {K : Type 0} {V : Type ℓ} → (K × V → Bool) → HashMap K V → HashMap K V × ℕ
delete_where p rows = (keep (λ kv. not (p kv)) rows, length (keep p rows))

-- `ORDER BY id DESC LIMIT n`
abbrev pub newest {ℓ} : {V : Type ℓ} → ℕ → HashMap ℕ V → HashMap ℕ V
newest n rows = take n (reverse_onto rows [])
