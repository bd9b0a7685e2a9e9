-- ===== src/Routing/Exact.antt =====
-- apps/engine/src/engine/executors.rs, `StandaloneIndex`: the index lists the registered shapes only,
-- and `insert` and `remove` keep that.
use electric_circuits.Prelude.{
  false_true, ◌≡◌, refl, ◌∙◌, sym, ap, inl, inr, Bool, true, false, Option, none, some, [], ◌∷◌,
  ◌++◌, Ord, ◌==◌, ◌>>=◌, ==_eq, ==_refl, nat_ord, list_ord, bool_ord, if◌then◌else◌, Bool-cases,
  some_inj, some_none, lookup, insert, remove, lookup-insert, lookup-remove,
}
use electric_circuits.Value.{Text, value_ord}
use electric_circuits.Predicate.Ast.{AccessLeaf, lower, upper, CompiledPredicate}
use electric_circuits.Predicate.Access.{access_leaf}
use electric_circuits.Routing.Postings.{is_empty}
use electric_circuits.Routing.Standalone.{
  StandaloneIndex, file_leaf, with_placed, unfile_leaf, remove_placed, index_insert, index_remove,
  retain, retain_bound,
}
use electric_circuits.Routing.Filed.{under, with_placed-under, unfile_leaf-placed, file_leaf-placed}
use electric_circuits.Routing.Live.{file_leaf-only, unfile_leaf-only, unfile_leaf-gone}
use electric_circuits.Routing.Columns.{WellKeyed, file-WellKeyed, retract-WellKeyed}
use electric_circuits.Routing.Complete.{Registry}

leaf_of_either :
    {F : Type 0} (new : Bool) (pred : CompiledPredicate F) (old : Option (CompiledPredicate F))
    → (if new then some (access_leaf pred) else (old >>= λ q. some (access_leaf q)))
      ≡ ((if new then some pred else old) >>= λ q. some (access_leaf q))
leaf_of_either true pred old = refl
leaf_of_either false pred old = refl

leaf_unless :
    {F : Type 0} (gone : Bool) (old : Option (CompiledPredicate F))
    → (if gone then none else (old >>= λ q. some (access_leaf q)))
      ≡ ((if gone then none else old) >>= λ q. some (access_leaf q))
leaf_unless true old = refl
leaf_unless false old = refl

not_placed :
    {F : Type 0} (p : Option (CompiledPredicate F))
    → (p >>= λ q. some (access_leaf q)) ≡ none
    → p ≡ none
not_placed none h = refl
not_placed (some p) h = absurd (some_none h)

module _ {F : Type 0} ⦃o : Ord F⦄ where
  -- A shape is listed only where it is placed.
  abbrev pub Only : StandaloneIndex F → Type 0
  Only idx =
      (sid : Text) (k : Option (AccessLeaf F))
      → under idx sid k ≡ true
      → lookup sid idx.placed ≡ some k

  -- The shapes that are placed are the registered ones.
  abbrev pub Placed : StandaloneIndex F → Registry F → Type 0
  Placed idx reg =
      (sid : Text) → lookup sid idx.placed ≡ (reg sid >>= λ pred. some (access_leaf pred))

  abbrev pub AllKeyed : StandaloneIndex F → Type 0
  AllKeyed idx = WellKeyed idx.eq × WellKeyed idx.lower × WellKeyed idx.upper

  abbrev pub Exact : StandaloneIndex F → Registry F → Type 0
  Exact idx reg = Only idx × Placed idx reg × AllKeyed idx

  file_leaf-AllKeyed :
      (sid : Text) (l : Option (AccessLeaf F)) (idx : StandaloneIndex F)
      → AllKeyed idx
      → AllKeyed (file_leaf sid l idx)
  file_leaf-AllKeyed sid none idx h = h
  file_leaf-AllKeyed sid (some (AccessLeaf.eq col v)) idx (e, l, u) =
      (file-WellKeyed [] (λ sids. sids ++ sid ∷ []) col v idx.eq e, l, u)
  file_leaf-AllKeyed sid (some (lower col v strict)) idx (e, l, u) =
      (e, file-WellKeyed [] (λ sids. sids ++ (sid, strict) ∷ []) col v idx.lower l, u)
  file_leaf-AllKeyed sid (some (upper col v strict)) idx (e, l, u) =
      (e, l, file-WellKeyed [] (λ sids. sids ++ (sid, strict) ∷ []) col v idx.upper u)

  unfile_leaf-AllKeyed :
      (sid : Text) (l : Option (AccessLeaf F)) (idx : StandaloneIndex F)
      → AllKeyed idx
      → AllKeyed (unfile_leaf sid l idx)
  unfile_leaf-AllKeyed sid none idx h = h
  unfile_leaf-AllKeyed sid (some (AccessLeaf.eq col v)) idx (e, l, u) =
      (retract-WellKeyed is_empty (retain sid) col v idx.eq e, l, u)
  unfile_leaf-AllKeyed sid (some (lower col v strict)) idx (e, l, u) =
      (e, retract-WellKeyed is_empty (retain_bound sid) col v idx.lower l, u)
  unfile_leaf-AllKeyed sid (some (upper col v strict)) idx (e, l, u) =
      (e, l, retract-WellKeyed is_empty (retain_bound sid) col v idx.upper u)

  module _ (idx : StandaloneIndex F) (reg : Registry F) (exact : Exact idx reg) where
    insert-Only :
        (new : Text) (pred : CompiledPredicate F)
        → reg new ≡ none
        → Only (index_insert new pred idx)
    unfolding index_insert
    insert-Only new pred fresh sid k h =
        let leaf = access_leaf pred in
        let filed = file_leaf new leaf idx in
        let place = lookup-insert new sid leaf filed.placed in
        elim (file_leaf-only new sid leaf k idx
          (sym (with_placed-under (insert new leaf filed.placed) filed sid k) ∙ h)) [
            | inl (e, same) ↦
                place
                ∙ ap (λ s. if new == s then some leaf else lookup s filed.placed) (sym e)
                ∙ ap (λ b. if b then some leaf else lookup new filed.placed) (==_refl new)
                ∙ ap some same
            | inr u ↦ (elim (Bool-cases (new == sid)) [
              | inl e ↦ absurd (
                  some_none (
                    sym (exact.0 sid k u)
                    ∙ ap (λ s. lookup s idx.placed) (sym (==_eq new sid e))
                    ∙ exact.1 new
                    ∙ ap (λ p. p >>= λ q. some (access_leaf q)) fresh))
              | inr n ↦
                  place
                  ∙ ap (λ b. if b then some leaf else lookup sid filed.placed) n
                  ∙ ap (lookup sid) (file_leaf-placed new leaf idx)
                  ∙ exact.0 sid k u
            ])
          ]

    insert-Placed :
        (new : Text) (pred : CompiledPredicate F)
        → Placed (index_insert new pred idx) (λ s. if new == s then some pred else reg s)
    unfolding index_insert
    insert-Placed new pred sid =
        let leaf = access_leaf pred in
        let filed = file_leaf new leaf idx in
        lookup-insert new sid leaf filed.placed
        ∙ ap (λ m. if new == sid then some leaf else lookup sid m) (file_leaf-placed new leaf idx)
        ∙ ap (λ x. if new == sid then some leaf else x) (exact.1 sid)
        ∙ leaf_of_either (new == sid) pred (reg sid)

    pub insert-Exact :
        (new : Text) (pred : CompiledPredicate F)
        → reg new ≡ none
        → Exact (index_insert new pred idx) (λ s. if new == s then some pred else reg s)
    unfolding index_insert
    insert-Exact new pred fresh = (
      insert-Only new pred fresh,
      insert-Placed new pred,
      file_leaf-AllKeyed new (access_leaf pred) idx exact.2,
    )

    module _ (gone : Text) where
      without_none :
          (sid : Text)
          → reg gone ≡ none
          → (reg sid >>= λ q. some (access_leaf q))
            ≡ ((if gone == sid then none else reg sid) >>= λ q. some (access_leaf q))
      without_none sid h = elim (Bool-cases (gone == sid)) [
        | inl e ↦
            ap (λ x. reg x >>= λ q. some (access_leaf q)) (sym (==_eq gone sid e))
            ∙ ap (λ p. p >>= λ q. some (access_leaf q)) h
            ∙ sym (ap (λ b. (if b then none else reg sid) >>= λ q. some (access_leaf q)) e)
        | inr n ↦ sym (ap (λ b. (if b then none else reg sid) >>= λ q. some (access_leaf q)) n)
      ]

      unfile_leaf-Only :
          (l : Option (AccessLeaf F))
          → lookup gone idx.placed ≡ some l
          → Only (unfile_leaf gone l (with_placed (remove gone idx.placed) idx))
      unfile_leaf-Only l at sid k h =
          let without = with_placed (remove gone idx.placed) idx in
          let u =
            sym (with_placed-under (remove gone idx.placed) idx sid k)
            ∙ unfile_leaf-only gone sid l k without h in
          let was = exact.0 sid k u in
          elim (Bool-cases (gone == sid)) [
            | inl e ↦
                let same =
                  some_inj
                    (sym was ∙ ap (λ s. lookup s idx.placed) (sym (==_eq gone sid e)) ∙ at) in
                absurd (
                  false_true (
                    sym (unfile_leaf-gone gone l without)
                    ∙ ap (λ s. under (unfile_leaf gone l without) s l) (==_eq gone sid e)
                    ∙ ap (under (unfile_leaf gone l without) sid) (sym same)
                    ∙ h))
            | inr n ↦
                ap (lookup sid) (unfile_leaf-placed gone l without)
                ∙ lookup-remove gone sid idx.placed
                ∙ ap (λ b. if b then none else lookup sid idx.placed) n
                ∙ was
          ]

      unfile_leaf-Placed :
          (l : Option (AccessLeaf F))
          → Placed
              (unfile_leaf gone l (with_placed (remove gone idx.placed) idx))
              (λ s. if gone == s then none else reg s)
      unfile_leaf-Placed l sid =
          ap (lookup sid) (unfile_leaf-placed gone l (with_placed (remove gone idx.placed) idx))
          ∙ lookup-remove gone sid idx.placed
          ∙ ap (λ x. if gone == sid then none else x) (exact.1 sid)
          ∙ leaf_unless (gone == sid) (reg sid)

      remove_placed-Exact :
          (l : Option (Option (AccessLeaf F)))
          → lookup gone idx.placed ≡ l
          → Exact (remove_placed gone l idx) (λ s. if gone == s then none else reg s)
      remove_placed-Exact none at = (
        exact.0,
        λ sid. exact.1 sid ∙ without_none sid (not_placed (reg gone) (sym (exact.1 gone) ∙ at)),
        exact.2,
      )
      remove_placed-Exact (some l) at = (
        unfile_leaf-Only l at,
        unfile_leaf-Placed l,
        unfile_leaf-AllKeyed gone l (with_placed (remove gone idx.placed) idx) exact.2,
      )

      pub remove-Exact : Exact (index_remove gone idx) (λ s. if gone == s then none else reg s)
      unfolding index_remove
      remove-Exact = remove_placed-Exact (lookup gone idx.placed) refl
