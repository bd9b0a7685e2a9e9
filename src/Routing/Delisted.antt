-- ===== src/Routing/Delisted.antt =====
-- The posting lists of apps/engine/src/engine/executors.rs, `StandaloneIndex`: a push lists one shape
-- more, and a `retain` lists none.
use electric_circuits.Prelude.{
  false_true, either_true, ℕ, ◌≡◌, refl, ◌∙◌, sym, ap, inl, inr, ◌⊎◌, Bool, true, false, ◌&&◌,
  Option, none, some, List, [], ◌∷◌, ◌++◌, arith, Ord, ◌==◌, ◌>>=◌, ==_eq, ==_refl, nat_ord,
  list_ord, bool_ord, if◌then◌else◌, member, member-snoc, Bool-cases, and_split,
}
use electric_circuits.Value.{Text, Value, value_ord}
use electric_circuits.Routing.Postings.{
  Postings, posting, is_empty, or_default, kept, file, retract, posting-file, posting-retract,
  both_places,
}
use electric_circuits.Routing.Standalone.{PostedBound, retain, retain_bound}
use electric_circuits.Routing.Listed.{listed, listed_bound, has_bound, has_bound-snoc}

module _ {F P : Type 0} ⦃o : Ord F⦄ (seen : Option P → Bool) (c : ℕ) (w : Value F)
    (m : Postings F P) where
  pub posting-file_only :
      {Here : Type 0} (empty : P) (f : P → P) (col : ℕ) (v : Value F)
      → ((p : Option P) → seen (some (f (or_default empty p))) ≡ true → Here ⊎ (seen p ≡ true))
      → seen (posting c w (file empty f col v m)) ≡ true
      → ((((col == c) && (v == w)) ≡ true) × Here) ⊎ (seen (posting c w m) ≡ true)
  posting-file_only empty f col v split h = elim (Bool-cases ((col == c) && (v == w))) [
    | inl e ↦
        let there =
          ap
            (λ b. seen (if b then some (f (or_default empty (posting col v m))) else posting c w m))
            (sym e)
          ∙ ap seen (sym (posting-file empty f col v m c w))
          ∙ h in
        (elim (split (posting col v m) there) [
          | inl here ↦ inl (e, here)
          | inr s ↦ inr (ap seen (both_places c col v w m e) ∙ s)
        ])
    | inr n ↦ inr (
        ap (λ b. seen (if b then some (f (or_default empty (posting col v m))) else posting c w m))
          (sym n)
        ∙ ap seen (sym (posting-file empty f col v m c w))
        ∙ h)
  ]

  pub posting-retract_only :
      (empty_test : P → Bool) (g : P → P) (col : ℕ) (v : Value F)
      → ((p : Option P) → seen (p >>= kept empty_test g) ≡ true → seen p ≡ true)
      → seen (posting c w (retract empty_test g col v m)) ≡ true
      → seen (posting c w m) ≡ true
  posting-retract_only empty_test g col v back h = elim (Bool-cases ((col == c) && (v == w))) [
    | inl e ↦
        ap seen (both_places c col v w m e)
        ∙ back (posting col v m) (
            ap (λ b. seen (if b then posting col v m >>= kept empty_test g else posting c w m))
              (sym e)
            ∙ ap seen (sym (posting-retract empty_test g col v m c w))
            ∙ h)
    | inr n ↦
        ap (λ b. seen (if b then posting col v m >>= kept empty_test g else posting c w m)) (sym n)
        ∙ ap seen (sym (posting-retract empty_test g col v m c w))
        ∙ h
  ]

pub posting-retract_there :
    {F P : Type 0} ⦃o : Ord F⦄ (empty_test : P → Bool) (g : P → P) (col : ℕ) (v : Value F)
    (m : Postings F P)
    → posting col v (retract empty_test g col v m) ≡ posting col v m >>= kept empty_test g
posting-retract_there empty_test g col v m =
    posting-retract empty_test g col v m col v
    ∙ ap (λ b. if b && (v == v) then posting col v m >>= kept empty_test g else posting col v m)
        (==_refl col)
    ∙ ap (λ b. if b then posting col v m >>= kept empty_test g else posting col v m) (==_refl v)

-- What a push lists, and what a `retain` leaves.
pub member-of_snoc :
    (sid new : Text) (sids : List Text)
    → member sid (sids ++ new ∷ []) ≡ true
    → (new ≡ sid) ⊎ (member sid sids ≡ true)
member-of_snoc sid new sids h =
    elim (either_true (new == sid) (member sid sids) (sym (member-snoc sid new sids) ∙ h)) [
      | inl e ↦ inl (==_eq new sid e)
      | inr m ↦ inr m
    ]

pub listed-of_snoc :
    (sid new : Text) (p : Option (List Text))
    → listed sid (some (or_default [] p ++ new ∷ [])) ≡ true
    → (new ≡ sid) ⊎ (listed sid p ≡ true)
unfolding member
listed-of_snoc sid new none h = member-of_snoc sid new [] h
listed-of_snoc sid new (some sids) h = member-of_snoc sid new sids h

has_bound-of_snoc :
    (sid new : Text) (strict t : Bool) (sids : List PostedBound)
    → has_bound sid strict (sids ++ (new, t) ∷ []) ≡ true
    → ((new ≡ sid) × (t ≡ strict)) ⊎ (has_bound sid strict sids ≡ true)
has_bound-of_snoc sid new strict t sids h =
    elim (either_true (has_bound sid strict sids) ((new == sid) && (t == strict))
      (sym (has_bound-snoc sid new strict t sids) ∙ h)) [
        | inl m ↦ inr m
        | inr e ↦
            let (n, b) = and_split (new == sid) (t == strict) e in
            inl (==_eq new sid n, ==_eq t strict b)
      ]

pub listed_bound-of_snoc :
    (sid new : Text) (strict t : Bool) (p : Option (List PostedBound))
    → listed_bound sid strict (some (or_default [] p ++ (new, t) ∷ [])) ≡ true
    → ((new ≡ sid) × (t ≡ strict)) ⊎ (listed_bound sid strict p ≡ true)
listed_bound-of_snoc sid new strict t none h = has_bound-of_snoc sid new strict t [] h
listed_bound-of_snoc sid new strict t (some sids) h = has_bound-of_snoc sid new strict t sids h

pub retain-member :
    (sid gone : Text) (sids : List Text)
    → member sid (retain gone sids) ≡ true
    → member sid sids ≡ true
unfolding member
retain-member sid gone [] h = h
retain-member sid gone (s ∷ sids) h = ground (arith, retain-member sid gone sids)

pub retain-gone : (gone : Text) (sids : List Text) → member gone (retain gone sids) ≡ false
unfolding member
retain-gone gone [] = refl
retain-gone gone (s ∷ sids) = ground (arith, retain-gone gone sids)

retain_bound-has :
    (sid gone : Text) (strict : Bool) (sids : List PostedBound)
    → has_bound sid strict (retain_bound gone sids) ≡ true
    → has_bound sid strict sids ≡ true
retain_bound-has sid gone strict [] h = h
retain_bound-has sid gone strict ((s, t) ∷ sids) h =
    ground (arith, retain_bound-has sid gone strict sids)

retain_bound-gone :
    (gone : Text) (strict : Bool) (sids : List PostedBound)
    → has_bound gone strict (retain_bound gone sids) ≡ false
retain_bound-gone gone strict [] = refl
retain_bound-gone gone strict ((s, t) ∷ sids) = ground (arith, retain_bound-gone gone strict sids)

pub listed-of_retain :
    (sid gone : Text) (p : Option (List Text))
    → listed sid (p >>= kept is_empty (retain gone)) ≡ true
    → listed sid p ≡ true
listed-of_retain sid gone none h = h
listed-of_retain sid gone (some sids) h = elim (Bool-cases (is_empty (retain gone sids))) [
  | inl e ↦
      absurd (
        false_true (ap (λ b. listed sid (if b then none else some (retain gone sids))) (sym e) ∙ h))
  | inr n ↦
      retain-member sid gone sids
        (ap (λ b. listed sid (if b then none else some (retain gone sids))) (sym n) ∙ h)
]

pub listed-gone :
    (gone : Text) (p : Option (List Text)) → listed gone (p >>= kept is_empty (retain gone)) ≡ false
listed-gone gone none = refl
listed-gone gone (some sids) = elim (Bool-cases (is_empty (retain gone sids))) [
  | inl e ↦ ap (λ b. listed gone (if b then none else some (retain gone sids))) e
  | inr n ↦
      ap (λ b. listed gone (if b then none else some (retain gone sids))) n ∙ retain-gone gone sids
]

pub listed_bound-of_retain :
    (sid gone : Text) (strict : Bool) (p : Option (List PostedBound))
    → listed_bound sid strict (p >>= kept is_empty (retain_bound gone)) ≡ true
    → listed_bound sid strict p ≡ true
listed_bound-of_retain sid gone strict none h = h
listed_bound-of_retain sid gone strict (some sids) h =
    elim (Bool-cases (is_empty (retain_bound gone sids))) [
      | inl e ↦ absurd (
          false_true (
            ap (λ b. listed_bound sid strict (if b then none else some (retain_bound gone sids)))
              (sym e)
            ∙ h))
      | inr n ↦ retain_bound-has sid gone strict sids (
          ap (λ b. listed_bound sid strict (if b then none else some (retain_bound gone sids)))
            (sym n)
          ∙ h)
    ]

pub listed_bound-gone :
    (gone : Text) (strict : Bool) (p : Option (List PostedBound))
    → listed_bound gone strict (p >>= kept is_empty (retain_bound gone)) ≡ false
listed_bound-gone gone strict none = refl
listed_bound-gone gone strict (some sids) = elim (Bool-cases (is_empty (retain_bound gone sids))) [
  | inl e ↦ ap (λ b. listed_bound gone strict (if b then none else some (retain_bound gone sids))) e
  | inr n ↦
      ap (λ b. listed_bound gone strict (if b then none else some (retain_bound gone sids))) n
      ∙ retain_bound-gone gone strict sids
]
