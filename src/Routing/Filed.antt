-- ===== src/Routing/Filed.antt =====
-- Where apps/engine/src/engine/executors.rs, `StandaloneIndex`, has a shape, and that `insert` and
-- `remove` leave the other shapes there.
use electric_circuits.Prelude.{
  ◌≡◌, refl, ◌∙◌, ap, Bool, true, false, Option, none, some, [], ◌∷◌, ◌++◌, arith, Ord, ◌==◌,
  ==_refl, nat_ord, list_ord, bool_ord, if◌then◌else◌, Map, lookup, insert, remove, lookup-insert,
  lookup-remove, member, member-snoc,
}
use electric_circuits.Value.{Text, value_ord}
use electric_circuits.Predicate.Ast.{AccessLeaf, lower, upper, CompiledPredicate}
use electric_circuits.Predicate.Access.{access_leaf}
use electric_circuits.Routing.Postings.{
  posting, is_empty, or_default, posting-file_there, posting-file_keeps, posting-retract_keeps,
}
use electric_circuits.Routing.Standalone.{
  StandaloneIndex, retain, retain_bound, file_leaf, with_placed, index_insert, unfile_leaf,
  remove_placed, index_remove,
}
use electric_circuits.Routing.Listed.{
  listed, listed_bound, listed-snoc, has_bound-snoc, listed_bound-snoc, member-retain,
  listed-retain, listed_bound-retain,
}

module _ {F : Type 0} ⦃o : Ord F⦄ where
  -- The shape is listed under the leaf.
  abbrev pub under : StandaloneIndex F → Text → Option (AccessLeaf F) → Bool
  under idx sid none = member sid idx.scan
  under idx sid (some (AccessLeaf.eq col v)) = listed sid (posting col v idx.eq)
  under idx sid (some (lower col v strict)) = listed_bound sid strict (posting col v idx.lower)
  under idx sid (some (upper col v strict)) = listed_bound sid strict (posting col v idx.upper)

  pub file_leaf-keeps :
      (new sid : Text) (l k : Option (AccessLeaf F)) (idx : StandaloneIndex F)
      → under idx sid k ≡ true
      → under (file_leaf new l idx) sid k ≡ true
  file_leaf-keeps new sid (some (AccessLeaf.eq col v)) (some (AccessLeaf.eq c w)) idx h =
      posting-file_keeps (listed sid) c w idx.eq [] (λ sids. sids ++ new ∷ []) col v
        (listed-snoc sid new) h
  file_leaf-keeps new sid (some (lower col v t)) (some (lower c w strict)) idx h =
      posting-file_keeps (listed_bound sid strict) c w idx.lower [] (λ sids. sids ++ (new, t) ∷ [])
        col v (listed_bound-snoc sid new strict t) h
  file_leaf-keeps new sid (some (upper col v t)) (some (upper c w strict)) idx h =
      posting-file_keeps (listed_bound sid strict) c w idx.upper [] (λ sids. sids ++ (new, t) ∷ [])
        col v (listed_bound-snoc sid new strict t) h
  file_leaf-keeps new sid none none idx h = member-snoc sid new idx.scan ∙ ground arith
  file_leaf-keeps new sid _ _ idx h = h

  pub file_leaf-files :
      (sid : Text) (l : Option (AccessLeaf F)) (idx : StandaloneIndex F)
      → under (file_leaf sid l idx) sid l ≡ true
  file_leaf-files sid none idx = member-snoc sid sid idx.scan ∙ ground (arith, ==_refl sid)
  file_leaf-files sid (some (AccessLeaf.eq col v)) idx =
      ap (listed sid) (posting-file_there [] (λ sids. sids ++ sid ∷ []) col v idx.eq)
      ∙ member-snoc sid sid (or_default [] (posting col v idx.eq))
      ∙ ground (arith, ==_refl sid)
  file_leaf-files sid (some (lower col v strict)) idx =
      ap (listed_bound sid strict)
        (posting-file_there [] (λ sids. sids ++ (sid, strict) ∷ []) col v idx.lower)
      ∙ has_bound-snoc sid sid strict strict (or_default [] (posting col v idx.lower))
      ∙ ground (arith, ==_refl sid, ==_refl strict)
  file_leaf-files sid (some (upper col v strict)) idx =
      ap (listed_bound sid strict)
        (posting-file_there [] (λ sids. sids ++ (sid, strict) ∷ []) col v idx.upper)
      ∙ has_bound-snoc sid sid strict strict (or_default [] (posting col v idx.upper))
      ∙ ground (arith, ==_refl sid, ==_refl strict)

  pub unfile_leaf-keeps :
      (gone sid : Text) (l k : Option (AccessLeaf F)) (idx : StandaloneIndex F)
      → (gone == sid) ≡ false
      → under idx sid k ≡ true
      → under (unfile_leaf gone l idx) sid k ≡ true
  unfile_leaf-keeps gone sid (some (AccessLeaf.eq col v)) (some (AccessLeaf.eq c w)) idx other h =
      posting-retract_keeps (listed sid) c w idx.eq is_empty (retain gone) col v
        (λ p q. listed-retain sid gone p other q) h
  unfile_leaf-keeps gone sid (some (lower col v t)) (some (lower c w strict)) idx other h =
      posting-retract_keeps (listed_bound sid strict) c w idx.lower is_empty (retain_bound gone) col
        v (λ p q. listed_bound-retain sid gone strict p other q) h
  unfile_leaf-keeps gone sid (some (upper col v t)) (some (upper c w strict)) idx other h =
      posting-retract_keeps (listed_bound sid strict) c w idx.upper is_empty (retain_bound gone) col
        v (λ p q. listed_bound-retain sid gone strict p other q) h
  unfile_leaf-keeps gone sid none none idx other h = member-retain sid gone idx.scan other ∙ h
  unfile_leaf-keeps gone sid _ _ idx other h = h

  pub with_placed-under :
      (placed : Map Text (Option (AccessLeaf F))) (idx : StandaloneIndex F) (sid : Text)
      (k : Option (AccessLeaf F))
      → under (with_placed placed idx) sid k ≡ under idx sid k
  with_placed-under placed idx sid none = refl
  with_placed-under placed idx sid (some (AccessLeaf.eq col v)) = refl
  with_placed-under placed idx sid (some (lower col v strict)) = refl
  with_placed-under placed idx sid (some (upper col v strict)) = refl

  pub unfile_leaf-placed :
      (gone : Text) (l : Option (AccessLeaf F)) (idx : StandaloneIndex F)
      → (unfile_leaf gone l idx).placed ≡ idx.placed
  unfile_leaf-placed gone none idx = refl
  unfile_leaf-placed gone (some (AccessLeaf.eq col v)) idx = refl
  unfile_leaf-placed gone (some (lower col v strict)) idx = refl
  unfile_leaf-placed gone (some (upper col v strict)) idx = refl

  pub file_leaf-placed :
      (sid : Text) (l : Option (AccessLeaf F)) (idx : StandaloneIndex F)
      → (file_leaf sid l idx).placed ≡ idx.placed
  file_leaf-placed sid none idx = refl
  file_leaf-placed sid (some (AccessLeaf.eq col v)) idx = refl
  file_leaf-placed sid (some (lower col v strict)) idx = refl
  file_leaf-placed sid (some (upper col v strict)) idx = refl

  -- The shape is placed, and listed where it is placed.
  abbrev pub Filed : StandaloneIndex F → Text → Option (AccessLeaf F) → Type 0
  Filed idx sid k = (lookup sid idx.placed ≡ some k) × (under idx sid k ≡ true)

  pub index_insert-Filed :
      (sid : Text) (pred : CompiledPredicate F) (idx : StandaloneIndex F)
      → Filed (index_insert sid pred idx) sid (access_leaf pred)
  unfolding index_insert
  index_insert-Filed sid pred idx =
      let leaf = access_leaf pred in
      let filed = file_leaf sid leaf idx in
      (
        lookup-insert sid sid leaf filed.placed
            ∙ ap (λ b. if b then some leaf else lookup sid filed.placed) (==_refl sid),
        with_placed-under (insert sid leaf filed.placed) filed sid leaf
            ∙ file_leaf-files sid leaf idx,
      )

  pub index_insert-keeps :
      (new sid : Text) (pred : CompiledPredicate F) (k : Option (AccessLeaf F))
      (idx : StandaloneIndex F)
      → (new == sid) ≡ false
      → Filed idx sid k
      → Filed (index_insert new pred idx) sid k
  unfolding index_insert
  index_insert-keeps new sid pred k idx other (at, u) =
      let leaf = access_leaf pred in
      let filed = file_leaf new leaf idx in
      (
        lookup-insert new sid leaf filed.placed
            ∙ ap (λ b. if b then some leaf else lookup sid filed.placed) other
            ∙ ap (lookup sid) (file_leaf-placed new leaf idx)
            ∙ at,
        with_placed-under (insert new leaf filed.placed) filed sid k
            ∙ file_leaf-keeps new sid leaf k idx u,
      )

  pub remove_placed-keeps :
      (gone sid : Text) (l : Option (Option (AccessLeaf F))) (k : Option (AccessLeaf F))
      (idx : StandaloneIndex F)
      → (gone == sid) ≡ false
      → Filed idx sid k
      → Filed (remove_placed gone l idx) sid k
  remove_placed-keeps gone sid none k idx other filed = filed
  remove_placed-keeps gone sid (some l) k idx other (at, u) =
      let without = with_placed (remove gone idx.placed) idx in
      (
        ap (lookup sid) (unfile_leaf-placed gone l without)
            ∙ lookup-remove gone sid idx.placed
            ∙ ap (λ b. if b then none else lookup sid idx.placed) other
            ∙ at,
        unfile_leaf-keeps gone sid l k without other
            (with_placed-under (remove gone idx.placed) idx sid k ∙ u),
      )

  pub index_remove-keeps :
      (gone sid : Text) (k : Option (AccessLeaf F)) (idx : StandaloneIndex F)
      → (gone == sid) ≡ false
      → Filed idx sid k
      → Filed (index_remove gone idx) sid k
  unfolding index_remove
  index_remove-keeps gone sid k idx other filed =
      remove_placed-keeps gone sid (lookup gone idx.placed) k idx other filed
