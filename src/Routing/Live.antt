-- ===== src/Routing/Live.antt =====
-- apps/engine/src/engine/executors.rs, `StandaloneIndex`: where `insert` and `remove` list shapes, and
-- that they list them nowhere else.
use electric_circuits.Prelude.{
  ◌≡◌, refl, ◌∙◌, ap, inl, inr, ◌⊎◌, true, false, Option, none, some, [], ◌∷◌, ◌++◌, Ord, ◌==◌,
  ==_eq, nat_ord, list_ord, bool_ord, and_split,
}
use electric_circuits.Value.{Text, value_ord}
use electric_circuits.Predicate.Ast.{AccessLeaf, lower, upper}
use electric_circuits.Routing.Postings.{posting, is_empty}
use electric_circuits.Routing.Standalone.{
  StandaloneIndex, retain, retain_bound, file_leaf, unfile_leaf,
}
use electric_circuits.Routing.Listed.{listed, listed_bound}
use electric_circuits.Routing.Filed.{under}
use electric_circuits.Routing.Delisted.{
  posting-file_only, posting-retract_only, posting-retract_there, member-of_snoc, listed-of_snoc,
  listed_bound-of_snoc, retain-member, retain-gone, listed-of_retain, listed-gone,
  listed_bound-of_retain, listed_bound-gone,
}

module _ {F : Type 0} ⦃o : Ord F⦄ where
  -- A leaf lists the new shape under itself only.
  pub file_leaf-only :
      (new sid : Text) (l k : Option (AccessLeaf F)) (idx : StandaloneIndex F)
      → under (file_leaf new l idx) sid k ≡ true
      → ((new ≡ sid) × (l ≡ k)) ⊎ (under idx sid k ≡ true)
  file_leaf-only new sid none none idx h = elim (member-of_snoc sid new idx.scan h) [
    | inl e ↦ inl (e, refl)
    | inr m ↦ inr m
  ]
  file_leaf-only new sid (some (AccessLeaf.eq col v)) (some (AccessLeaf.eq c w)) idx h =
      elim (posting-file_only (listed sid) c w idx.eq [] (λ sids. sids ++ new ∷ []) col v
        (listed-of_snoc sid new) h) [
          | inl (there, e) ↦
              let (at, value) = and_split (col == c) (v == w) there in
              inl (
                e,
                ap (λ x. some (AccessLeaf.eq x v)) (==_eq col c at)
                    ∙ ap (λ x. some (AccessLeaf.eq c x)) (==_eq v w value),
              )
          | inr u ↦ inr u
        ]
  file_leaf-only new sid (some (lower col v t)) (some (lower c w strict)) idx h =
      elim (posting-file_only (listed_bound sid strict) c w idx.lower []
        (λ sids. sids ++ (new, t) ∷ []) col v (listed_bound-of_snoc sid new strict t) h) [
          | inl (there, (e, s)) ↦
              let (at, value) = and_split (col == c) (v == w) there in
              inl (
                e,
                ap (λ x. some (lower x v t)) (==_eq col c at)
                    ∙ ap (λ x. some (lower c x t)) (==_eq v w value)
                    ∙ ap (λ x. some (lower c w x)) s,
              )
          | inr u ↦ inr u
        ]
  file_leaf-only new sid (some (upper col v t)) (some (upper c w strict)) idx h =
      elim (posting-file_only (listed_bound sid strict) c w idx.upper []
        (λ sids. sids ++ (new, t) ∷ []) col v (listed_bound-of_snoc sid new strict t) h) [
          | inl (there, (e, s)) ↦
              let (at, value) = and_split (col == c) (v == w) there in
              inl (
                e,
                ap (λ x. some (upper x v t)) (==_eq col c at)
                    ∙ ap (λ x. some (upper c x t)) (==_eq v w value)
                    ∙ ap (λ x. some (upper c w x)) s,
              )
          | inr u ↦ inr u
        ]
  file_leaf-only new sid _ _ idx h = inr h

  -- A removal lists nothing.
  pub unfile_leaf-only :
      (gone sid : Text) (l k : Option (AccessLeaf F)) (idx : StandaloneIndex F)
      → under (unfile_leaf gone l idx) sid k ≡ true
      → under idx sid k ≡ true
  unfile_leaf-only gone sid none none idx h = retain-member sid gone idx.scan h
  unfile_leaf-only gone sid (some (AccessLeaf.eq col v)) (some (AccessLeaf.eq c w)) idx h =
      posting-retract_only (listed sid) c w idx.eq is_empty (retain gone) col v
        (listed-of_retain sid gone) h
  unfile_leaf-only gone sid (some (lower col v t)) (some (lower c w strict)) idx h =
      posting-retract_only (listed_bound sid strict) c w idx.lower is_empty (retain_bound gone) col
        v (listed_bound-of_retain sid gone strict) h
  unfile_leaf-only gone sid (some (upper col v t)) (some (upper c w strict)) idx h =
      posting-retract_only (listed_bound sid strict) c w idx.upper is_empty (retain_bound gone) col
        v (listed_bound-of_retain sid gone strict) h
  unfile_leaf-only gone sid _ _ idx h = h

  pub unfile_leaf-gone :
      (gone : Text) (l : Option (AccessLeaf F)) (idx : StandaloneIndex F)
      → under (unfile_leaf gone l idx) gone l ≡ false
  unfile_leaf-gone gone none idx = retain-gone gone idx.scan
  unfile_leaf-gone gone (some (AccessLeaf.eq col v)) idx =
      ap (listed gone) (posting-retract_there is_empty (retain gone) col v idx.eq)
      ∙ listed-gone gone (posting col v idx.eq)
  unfile_leaf-gone gone (some (lower col v t)) idx =
      ap (listed_bound gone t) (posting-retract_there is_empty (retain_bound gone) col v idx.lower)
      ∙ listed_bound-gone gone t (posting col v idx.lower)
  unfile_leaf-gone gone (some (upper col v t)) idx =
      ap (listed_bound gone t) (posting-retract_there is_empty (retain_bound gone) col v idx.upper)
      ∙ listed_bound-gone gone t (posting col v idx.upper)
