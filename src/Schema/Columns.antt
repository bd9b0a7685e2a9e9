-- ===== src/Schema/Columns.antt =====
-- apps/engine/src/engine/executors.rs, `resolve_columns`: a projection by column names becomes the
-- sorted positions of the columns, with the key columns. The sort of the standard library is a sort by
-- insertion, and `none` is an error.
use electric_circuits.Prelude.{
  ℕ, Option, none, some, List, [], ◌∷◌, ◌++◌, ◌==◌, ◌>>=◌, nat_ord, list_ord, if◌then◌else◌, member,
  sort,
}
use electric_circuits.Value.{Text}
use electric_circuits.Schema.Compile.{TableSchema, column_index}

abbrev pub named_columns : TableSchema → List Text → Option (List ℕ)
named_columns ts [] = some []
named_columns ts (name ∷ names) = do
  i ← column_index ts name
  is ← named_columns ts names
  some (i ∷ is)

abbrev pub add_key : ℕ → List ℕ → List ℕ
add_key pk idxs = if member pk idxs then idxs else idxs ++ pk ∷ []

unfoldable pub add_keys : List ℕ → List ℕ → List ℕ
unfolding member
add_keys [] idxs = idxs
add_keys (pk ∷ pks) idxs = add_keys pks (add_key pk idxs)

-- `dedup`, after the element `x`.
unfoldable pub dedup_after : ℕ → List ℕ → List ℕ
dedup_after x [] = []
dedup_after x (y ∷ ys) =
    let same = dedup_after x ys in let next = dedup_after y ys in if x == y then same else y ∷ next

unfoldable pub dedup : List ℕ → List ℕ
unfolding dedup_after
dedup [] = []
dedup (x ∷ xs) = x ∷ dedup_after x xs

abbrev pub projected : TableSchema → Option (List ℕ) → Option (Option (List ℕ))
projected ts none = none
projected ts (some idxs) = some (some (dedup (sort (add_keys ts.pk_cols idxs))))

unfoldable pub resolve_columns : TableSchema → Option (List Text) → Option (Option (List ℕ))
unfolding add_keys dedup sort
resolve_columns ts none = some none
resolve_columns ts (some names) = projected ts (named_columns ts names)
