-- ===== src/PkDict/Intern.antt =====
-- apps/engine/src/pk_dict.rs, `PkDict`: the two tables, and interning a key. A section under a lock
-- is one step; `try_read` is the fast path, and `mint` the slow path under the write locks.
use electric_circuits.Prelude.{
  ℕ, ◌%◌, ◌^◌, Bool, Option, none, some, List, [], ◌∷◌, ◌++◌, length, get_elem?, ◌==◌, nat_ord,
  list_ord, Map, lookup, insert,
}
use electric_circuits.Value.{Text}

pub record PkDict : Type 0 where
  pub forward : Map Text ℕ
  pub reverse : List Text

unfoldable pub new : PkDict
new = record { forward = []; reverse = [] }

abbrev pub try_read : Text → PkDict → Option ℕ
try_read pk d = lookup pk d.forward

-- A fresh id is the length of the reverse table, as a `u32`.
abbrev pub fresh : PkDict → ℕ
fresh d = length d.reverse % 2 ^ 32

abbrev pub push_new : Text → PkDict → PkDict
push_new pk d = record { forward = insert pk (fresh d) d.forward; reverse = d.reverse ++ pk ∷ [] }

abbrev pub mint_unless : Text → PkDict → Option ℕ → ℕ × PkDict
mint_unless pk d (some id) = (id, d)
mint_unless pk d none = (fresh d, push_new pk d)

-- The table is read again under the write lock.
unfoldable pub mint : Text → PkDict → ℕ × PkDict
mint pk d = mint_unless pk d (lookup pk d.forward)

abbrev pub slow_unless : Text → PkDict → Option ℕ → ℕ × PkDict
slow_unless pk d (some id) = (id, d)
slow_unless pk d none = mint pk d

-- With no other thread in between.
unfoldable pub get_or_insert : Text → PkDict → ℕ × PkDict
unfolding mint
get_or_insert pk d = slow_unless pk d (try_read pk d)

abbrev pub get : Text → PkDict → Option ℕ
get pk d = lookup pk d.forward

abbrev pub resolve : ℕ → PkDict → Option Text
resolve id d = get_elem? d.reverse id

abbrev pub len : PkDict → ℕ
len d = length d.reverse

abbrev pub is_empty : PkDict → Bool
is_empty d = len d == 0
