-- ===== src/Routing/Columns.antt =====
-- The posting lists that apps/engine/src/engine/executors.rs and apps/engine/src/subq_index.rs share:
-- each column and each literal stands once.
use electric_circuits.Prelude.{
  ℕ, ◌≡◌, refl, inl, inr, Bool, Option, none, some, [], Ord, nat_ord, Map, lookup, insert, remove,
  Bool-cases, All, All-insert, All-remove, All-lookup, Keyed, Keyed-insert, Keyed-remove,
}
use electric_circuits.Value.{Value, value_ord}
use electric_circuits.Routing.Postings.{
  Postings, is_empty, or_default, file, put_or_drop, retract_found, retract_in, retract,
}

module _ {F P : Type 0} ⦃o : Ord F⦄ where
  abbrev pub EachKeyed : Postings F P → Type 0
  EachKeyed m = All (λ (e : ℕ × Map (Value F) P). Keyed e.1) m

  abbrev pub WellKeyed : Postings F P → Type 0
  WellKeyed m = Keyed m × EachKeyed m

  column-Keyed :
      (col : ℕ) (m : Postings F P) (by_val : Option (Map (Value F) P))
      → EachKeyed m
      → lookup col m ≡ by_val
      → Keyed (or_default [] by_val)
  column-Keyed col m none h e = tt
  column-Keyed col m (some by_val) h e =
      All-lookup (λ (x : ℕ × Map (Value F) P). Keyed x.1) col by_val m h e

  insert-WellKeyed :
      (col : ℕ) (by_val : Map (Value F) P) (m : Postings F P)
      → Keyed by_val
      → WellKeyed m
      → WellKeyed (insert col by_val m)
  insert-WellKeyed col by_val m k (h, each) = (
    Keyed-insert col by_val m h,
    All-insert (λ (x : ℕ × Map (Value F) P). Keyed x.1) col by_val m k each,
  )

  pub file-WellKeyed :
      (empty : P) (f : P → P) (col : ℕ) (v : Value F) (m : Postings F P)
      → WellKeyed m
      → WellKeyed (file empty f col v m)
  unfolding file
  file-WellKeyed empty f col v m (h, each) =
      let by_val = or_default [] (lookup col m) in
      insert-WellKeyed col (insert v (f (or_default empty (lookup v by_val))) by_val) m
        (Keyed-insert v (f (or_default empty (lookup v by_val))) by_val
          (column-Keyed col m (lookup col m) each refl))
        (h, each)

  put_or_drop-WellKeyed :
      (col : ℕ) (by_val : Map (Value F) P) (m : Postings F P)
      → Keyed by_val
      → WellKeyed m
      → WellKeyed (put_or_drop col by_val m)
  put_or_drop-WellKeyed col by_val m k (h, each) = elim (Bool-cases (is_empty by_val)) [
    | inl e ↦
        rw e (Keyed-remove col m h, All-remove (λ (x : ℕ × Map (Value F) P). Keyed x.1) col m each)
    | inr n ↦ rw n (insert-WellKeyed col by_val m k (h, each))
  ]

  retract_found-WellKeyed :
      (empty_test : P → Bool) (g : P → P) (col : ℕ) (v : Value F) (by_val : Map (Value F) P)
      (m : Postings F P) (p : Option P)
      → Keyed by_val
      → WellKeyed m
      → WellKeyed (retract_found empty_test g col v by_val m p)
  retract_found-WellKeyed empty_test g col v by_val m none k h = h
  retract_found-WellKeyed empty_test g col v by_val m (some p) k h =
      elim (Bool-cases (empty_test (g p))) [
        | inl e ↦ rw e (put_or_drop-WellKeyed col (remove v by_val) m (Keyed-remove v by_val k) h)
        | inr n ↦
            rw n (insert-WellKeyed col (insert v (g p) by_val) m (Keyed-insert v (g p) by_val k) h)
      ]

  pub retract-WellKeyed :
      (empty_test : P → Bool) (g : P → P) (col : ℕ) (v : Value F) (m : Postings F P)
      → WellKeyed m
      → WellKeyed (retract empty_test g col v m)
  unfolding retract
  retract-WellKeyed empty_test g col v m (h, each) = in_column (lookup col m) refl
    where
      in_column :
          (by_val : Option (Map (Value F) P))
          → lookup col m ≡ by_val
          → WellKeyed (retract_in empty_test g col v m by_val)
      in_column none e = (h, each)
      in_column (some by_val) e =
          retract_found-WellKeyed empty_test g col v by_val m (lookup v by_val)
            (column-Keyed col m (some by_val) each e) (h, each)
