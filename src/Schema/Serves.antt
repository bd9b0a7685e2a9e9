-- ===== src/Schema/Serves.antt =====
-- apps/engine/src/schema.rs: the two tests of drift agree.
use electric_circuits.Prelude.{
  false_true, ℕ, ◌≡◌, refl, ◌∙◌, sym, ap, inl, inr, Bool, true, false, ◌&&◌, Option, none, some,
  List, [], ◌∷◌, ◌++◌, arith, ◌==◌, ==_eq, ==_refl, nat_ord, list_ord, if◌then◌else◌, Map, lookup,
  Bool-cases, and_split, ◌⊎◌,
}
use electric_circuits.Value.{Text, int_ord}
use electric_circuits.Schema.Compile.{FingerprintColumn, SchemaFingerprint}
use electric_circuits.Schema.Drift.{
  Drift, added, dropped, retyped, same_type, column_eq, columns_eq, pk_matches, still_serves,
  column_names, no_drift, by_name, missing, retype_one, retypes, columns_drift, with_order,
  key_drift, identity_drift, describe_drift, replica_identity_full,
}
use electric_circuits.Schema.Unchanged.{
  OneColumnEach, pairs, Found, nothing_taken, columns_drift-same, columns_eq-same, by_name-pairs,
  pairs-Found, both_refl,
}

first_or : Text → List Text → Text
first_or d [] = d
first_or d (x ∷ xs) = x

rest_of : List Text → List Text
rest_of [] = []
rest_of (x ∷ xs) = xs

head_eq : {x y : Text} {xs ys : List Text} → (x ∷ xs) ≡ (y ∷ ys) → x ≡ y
unfolding first_or
head_eq {x = x} e = ap (first_or x) e

tail_eq : {x y : Text} {xs ys : List Text} → (x ∷ xs) ≡ (y ∷ ys) → xs ≡ ys
unfolding rest_of
tail_eq e = ap rest_of e

-- Columns of the same names of which none is retyped are equal.
retype_step :
    (o c : FingerprintColumn) (m : Map Text FingerprintColumn) (rest : List Drift)
    → o.name ≡ c.name
    → lookup o.name m ≡ some o
    → no_drift (retype_one c.name c (lookup c.name m) rest) ≡ true
    → (column_eq o c ≡ true) × (no_drift rest ≡ true)
retype_step o c m rest n e h =
    let seen =
      ap (λ x. no_drift (retype_one c.name c x rest)) (sym (ap (λ x. lookup x m) (sym n) ∙ e))
      ∙ h in
    elim (Bool-cases (same_type o c)) [
      | inl t ↦ (
        both_refl (o.name == c.name) (same_type o c)
            (ap (λ x. o.name == x) (sym n) ∙ ==_refl o.name) t,
        ap (λ b. no_drift (if b then rest else retyped c.name o c ∷ rest)) (sym t) ∙ seen,
      )
      | inr t ↦ absurd (
          false_true
            (ap (λ b. no_drift (if b then rest else retyped c.name o c ∷ rest)) (sym t) ∙ seen))
    ]

names-eq :
    (m : Map Text FingerprintColumn) (os cs : List FingerprintColumn)
    → Found m os
    → (column_names os == column_names cs) ≡ true
    → no_drift (retypes m (pairs cs)) ≡ true
    → columns_eq os cs ≡ true
unfolding retypes
names-eq m [] [] found n h = refl
names-eq m [] (c ∷ cs) found n h = ground arith
names-eq m (o ∷ os) [] found n h = ground arith
names-eq m (o ∷ os) (c ∷ cs) (e, found) n h =
    let names = ==_eq (column_names (o ∷ os)) (column_names (c ∷ cs)) n in
    let (first, rest) = retype_step o c m (retypes m (pairs cs)) (head_eq names) e h in
    both_refl (column_eq o c) (columns_eq os cs) first (
      names-eq m os cs found
        (ap (λ x. column_names os == x) (sym (tail_eq names)) ∙ ==_refl (column_names os)) rest)

no_drift-append : (xs ys : List Drift) → no_drift (xs ++ ys) ≡ (no_drift xs && no_drift ys)
no_drift-append [] ys = refl
no_drift-append (x ∷ xs) ys = refl

no_drift-with_order :
    (os cs : List FingerprintColumn) (out : List Drift)
    → no_drift (with_order os cs out) ≡ (no_drift out && (column_names os == column_names cs))
no_drift-with_order os cs [] = elim (Bool-cases (column_names os == column_names cs)) [
  | inl e ↦ rw e refl
  | inr e ↦ rw e refl
]
no_drift-with_order os cs (d ∷ out) = refl

no_drift-key : (a b : Option (List Text)) → no_drift (key_drift a b) ≡ pk_matches a b
no_drift-key none b = refl
no_drift-key (some a) none = refl
no_drift-key (some a) (some b) = elim (Bool-cases (a == b)) [
  | inl e ↦ rw e refl
  | inr e ↦ rw e refl
]

no_drift-identity : (r : ℕ) → no_drift (identity_drift r) ≡ (r == replica_identity_full)
no_drift-identity r = elim (Bool-cases (r == replica_identity_full)) [
  | inl e ↦ rw e refl
  | inr e ↦ rw e refl
]

part_three : (a b c : Bool) → (a && (b && c)) ≡ true → c ≡ true
part_three a b c h = (and_split b c (and_split a (b && c) h).1).1

retypes_part :
    (os cs : List FingerprintColumn)
    → OneColumnEach os
    → OneColumnEach cs
    → no_drift (columns_drift os cs) ≡ true
    → no_drift (retypes (pairs os) (pairs cs)) ≡ true
retypes_part os cs one_o one_c h =
    let old = by_name os [] in
    let new = by_name cs [] in
    let gained = missing added old new in
    let lost = missing dropped new old in
    let split =
      no_drift-append gained (lost ++ retypes old new)
      ∙ ap (λ x. no_drift gained && x) (no_drift-append lost (retypes old new)) in
    ap (λ m. no_drift (retypes m (pairs cs))) (sym (by_name-pairs os [] one_o (nothing_taken os)))
    ∙ ap (λ m. no_drift (retypes old m)) (sym (by_name-pairs cs [] one_c (nothing_taken cs)))
    ∙ part_three (no_drift gained) (no_drift lost) (no_drift (retypes old new)) (sym split ∙ h)

columns-agree :
    (os cs : List FingerprintColumn)
    → OneColumnEach os
    → OneColumnEach cs
    → (no_drift (columns_drift os cs) && (column_names os == column_names cs)) ≡ columns_eq os cs
columns-agree os cs one_o one_c = elim (Bool-cases (columns_eq os cs)) [
  | inl k ↦
      let same = columns_eq-same os cs k in
      both_refl (no_drift (columns_drift os cs)) (column_names os == column_names cs)
        (ap (λ x. no_drift (columns_drift os x)) (sym same)
          ∙ ap no_drift (columns_drift-same os one_o))
        (ap (λ x. column_names os == column_names x) (sym same) ∙ ==_refl (column_names os))
      ∙ sym k
  | inr k ↦
      not_both k
        (Bool-cases (no_drift (columns_drift os cs) && (column_names os == column_names cs)))
]
  where
    not_both :
        columns_eq os cs ≡ false
        → ((no_drift (columns_drift os cs) && (column_names os == column_names cs)) ≡ true)
          ⊎ ((no_drift (columns_drift os cs) && (column_names os == column_names cs)) ≡ false)
        → (no_drift (columns_drift os cs) && (column_names os == column_names cs))
          ≡ columns_eq os cs
    not_both k (inr e) = e ∙ sym k
    not_both k (inl e) =
        let (quiet, names) =
          and_split (no_drift (columns_drift os cs)) (column_names os == column_names cs) e in
        let equal =
          names-eq (pairs os) os cs (pairs-Found os one_o) names
            (retypes_part os cs one_o one_c quiet) in
        absurd (false_true (sym k ∙ equal))

reorder : (columns key full : Bool) → (columns && (key && full)) ≡ (columns && (full && key))
reorder columns key full = ground arith

-- Where the column names of each fingerprint differ, the drift log is empty exactly if the compiled
-- fingerprint still serves the observed one.
pub describe_drift-still_serves :
    (compiled observed : SchemaFingerprint)
    → OneColumnEach compiled.columns
    → OneColumnEach observed.columns
    → no_drift (describe_drift compiled observed) ≡ still_serves compiled observed
unfolding describe_drift still_serves
describe_drift-still_serves compiled observed one_c one_o =
    let os = compiled.columns in
    let cs = observed.columns in
    let key = key_drift compiled.pk observed.pk in
    let identity = identity_drift observed.replident in
    let columns = with_order os cs (columns_drift os cs) in
    let columns_part =
      no_drift-with_order os cs (columns_drift os cs) ∙ columns-agree os cs one_c one_o in
    let rest_part =
      no_drift-append key identity
      ∙ ap (λ x. x && no_drift identity) (no_drift-key compiled.pk observed.pk)
      ∙ ap (λ x. pk_matches compiled.pk observed.pk && x) (no_drift-identity observed.replident) in
    no_drift-append columns (key ++ identity)
    ∙ ap (λ x. x && no_drift (key ++ identity)) columns_part
    ∙ ap (λ x. columns_eq os cs && x) rest_part
    ∙ reorder (columns_eq os cs) (pk_matches compiled.pk observed.pk)
        (observed.replident == replica_identity_full)
