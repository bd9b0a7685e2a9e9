-- ===== src/Aggregate/FirstKey.antt =====
-- `keys().next()` and `keys().next_back()` of apps/engine/src/engine/executors.rs, `AggShape::value`.
use electric_circuits.Prelude.{
  subst, ◌≡◌, refl, ◌∙◌, sym, ap, inl, inr, Bool, true, false, Option, none, some, [], ◌∷◌, arith,
  Ord, ◌==◌, ==_eq, ==_refl, if◌then◌else◌, Map, lookup, Bool-cases, some_none, is_le, is_ge,
  Ordering, reverse_ord,
}
use electric_circuits.Value.{ℤ, Value, value_cmp, value_cmp_refl, value_cmp_reverse, value_ord}
use electric_circuits.Value.Order.{Transitive, value_cmp_trans}
use electric_circuits.Aggregate.Fold.{first_by, first_key, below, above}

-- A total order, as a test.
pub record IsOrder {A : Type 0} (before : A → A → Bool) : Type 0 where
  pub reflexive : (a : A) → before a a ≡ true
  pub total : (a b : A) → before a b ≡ false → before b a ≡ true
  pub transitive : (a b c : A) → before a b ≡ true → before b c ≡ true → before a c ≡ true

le_ge : (r : Ordering) → is_le r ≡ false → is_le (reverse_ord r) ≡ true
le_ge r h = ground arith

ge_le : (r : Ordering) → is_ge r ≡ is_le (reverse_ord r)
ge_le r = ground arith

module _ {F : Type 0} ⦃o : Ord F⦄ where
  pub below-IsOrder : Transitive F → IsOrder (below {F = F})
  below-IsOrder t = record {
    reflexive = λ a. ap is_le (value_cmp_refl a);
    total = λ a b h. ap is_le (value_cmp_reverse a b) ∙ le_ge (value_cmp a b) h;
    transitive = λ a b c h k. value_cmp_trans a b c t h k;
  }

  above_lem : (a b : Value F) → above a b ≡ below b a
  above_lem a b = ge_le (value_cmp a b) ∙ ap is_le (sym (value_cmp_reverse a b))

  pub above-IsOrder : Transitive F → IsOrder (above {F = F})
  above-IsOrder t = record {
    reflexive = λ a. above_lem a a ∙ ap is_le (value_cmp_refl a);
    total = λ a b h.
        above_lem b a
        ∙ ap is_le (value_cmp_reverse b a)
        ∙ le_ge (value_cmp b a) (sym (above_lem a b) ∙ h);
    transitive = λ a b c h k.
        above_lem a c ∙ value_cmp_trans c b a t (sym (above_lem b c) ∙ k) (sym (above_lem a b) ∙ h);
  }

  module _ (before : Value F → Value F → Bool) where
    -- The first key is a key, and before every key.
    abbrev pub First : Map (Value F) ℤ → Option (Value F) → Type 0
    First m none = (u : Value F) → lookup u m ≡ none
    First m (some v) =
        ((w : ℤ) × (lookup v m ≡ some w))
        × ((u : Value F) (w : ℤ) → lookup u m ≡ some w → before v u ≡ true)

    module _ (order : IsOrder before) where
      first_by-First :
          (v : Value F) (w : ℤ) (m : Map (Value F) ℤ) (rest : Option (Value F))
          → First m rest
          → First ((v, w) ∷ m) (some (first_by before v rest))
      unfolding lookup
      first_by-First v w m none h = (
        (w, ap (λ b. if b then some w else lookup v m) (==_refl v)),
        λ u x e. elim (Bool-cases (v == u)) [
          | inl d ↦ ap (before v) (sym (==_eq v u d)) ∙ order.reflexive v
          | inr d ↦ absurd (some_none (sym e ∙ ap (λ b. if b then some w else lookup u m) d ∙ h u))
        ],
      )
      first_by-First v w m (some q) ((x, at), least) = elim (Bool-cases (before v q)) [
        | inl b ↦
            subst (λ z. First ((v, w) ∷ m) (some z)) (sym (ap (λ c. if c then v else q) b))
              (
                (w, ap (λ c. if c then some w else lookup v m) (==_refl v)),
                λ u y e. elim (Bool-cases (v == u)) [
                  | inl d ↦ ap (before v) (sym (==_eq v u d)) ∙ order.reflexive v
                  | inr d ↦
                      order.transitive v q u b
                        (least u y (ap (λ c. if c then some w else lookup u m) (sym d) ∙ e))
                ],
              )
        | inr b ↦
            subst (λ z. First ((v, w) ∷ m) (some z)) (sym (ap (λ c. if c then v else q) b))
              (
                (elim (Bool-cases (v == q)) [
                  | inl d ↦ (w, ap (λ c. if c then some w else lookup q m) d)
                  | inr d ↦ (x, ap (λ c. if c then some w else lookup q m) d ∙ at)
                ]),
                λ u y e. elim (Bool-cases (v == u)) [
                  | inl d ↦ ap (before q) (sym (==_eq v u d)) ∙ order.total v q b
                  | inr d ↦ least u y (ap (λ c. if c then some w else lookup u m) (sym d) ∙ e)
                ],
              )
      ]

      pub first_key-First : (m : Map (Value F) ℤ) → First m (first_key before m)
      unfolding first_key lookup
      first_key-First [] = λ u. refl
      first_key-First ((v, w) ∷ m) = first_by-First v w m (first_key before m) (first_key-First m)
