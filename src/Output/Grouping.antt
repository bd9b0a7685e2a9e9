-- ===== src/Output/Grouping.antt =====
-- apps/engine/src/engine/output.rs, `translate_output`: what the groups of a delta say of each key.
use electric_circuits.Prelude.{
  zero, suc, ◌≡◌, refl, ◌∙◌, sym, ap, inl, inr, Bool, true, false, ◌&&◌, ◌||◌, Option, none, some,
  [], ◌∷◌, arith, ◌==◌, ==_eq, ==_refl, nat_ord, list_ord, if◌then◌else◌, keep_or, lookup,
  lookup-insert, member, member-add, member-snoc, Bool-cases,
}
use electric_circuits.Value.{ℤ, pos, negsuc, Text, Row}
use electric_circuits.Value.Encoding.{JsonLib}
use electric_circuits.Schema.Compile.{TableSchema}
use electric_circuits.Schema.Rows.{ObjectLib, key_string}
use electric_circuits.Output.Codec.{Delta}
use electric_circuits.Output.Translate.{Groups, is_some, seen, noted, put, put_keyed, group}

keep_assoc {ℓ} : {A : Type ℓ} (a b c : Option A) → keep_or a (keep_or b c) ≡ keep_or (keep_or a b) c
keep_assoc (some a) b c = refl
keep_assoc none b c = refl

or_swap : (a b c : Bool) → (a || (b || c)) ≡ ((b || a) || c)
or_swap a b c = ground arith

module _ {J F : Type 0} (lib : JsonLib J F) (objects : ObjectLib J) (ts : TableSchema) where
  -- What a delta says of one key: its last row with a positive weight, and whether a row has a
  -- negative one.
  abbrev pub has_key : Text → Option Text → Bool
  has_key k none = false
  has_key k (some pk) = pk == k

  abbrev pub positive : Row F → ℤ → Option (Row F)
  positive row (pos (suc n)) = some row
  positive row _ = none

  abbrev pub is_negative : ℤ → Bool
  is_negative (negsuc n) = true
  is_negative _ = false

  unfoldable pub last_plus : Text → Delta F → Option (Row F)
  last_plus k [] = none
  last_plus k ((row, w) ∷ out) =
      keep_or (last_plus k out) (if has_key k (key_string lib ts row) then positive row w else none)

  unfoldable pub any_minus : Text → Delta F → Bool
  any_minus k [] = false
  any_minus k ((row, w) ∷ out) =
      (has_key k (key_string lib ts row) && is_negative w) || any_minus k out

  -- Each key with a row is in the order.
  abbrev pub Covers : Groups F → Type 0
  Covers g = (k : Text) → seen k g ≡ true → member k g.order ≡ true

  put_plus :
      (pk : Text) (row : Row F) (w : ℤ) (g : Groups F) (k : Text)
      → lookup k (put pk row w g).plus
        ≡ keep_or (if pk == k then positive row w else none) (lookup k g.plus)
  put_plus pk row (pos (suc n)) g k = lookup-insert pk k row g.plus ∙ ground arith
  put_plus pk row (pos zero) g k = ground arith
  put_plus pk row (negsuc n) g k = ground arith

  put_minus :
      (pk : Text) (row : Row F) (w : ℤ) (g : Groups F) (k : Text)
      → member k (put pk row w g).minus ≡ (((pk == k) && is_negative w) || member k g.minus)
  put_minus pk row (pos (suc n)) g k = ground arith
  put_minus pk row (pos zero) g k = ground arith
  put_minus pk row (negsuc n) g k = member-add pk k g.minus ∙ ground arith

  put_order : (pk : Text) (row : Row F) (w : ℤ) (g : Groups F) → (put pk row w g).order ≡ noted pk g
  put_order pk row (pos (suc n)) g = refl
  put_order pk row (pos zero) g = refl
  put_order pk row (negsuc n) g = refl

  noted-keeps :
      (pk k : Text) (g : Groups F) → member k g.order ≡ true → member k (noted pk g) ≡ true
  noted-keeps pk k g h = elim (Bool-cases (seen pk g)) [
    | inl e ↦ rw e h
    | inr e ↦ rw e (member-snoc k pk g.order ∙ rw h (ground arith))
  ]

  noted_self : (pk : Text) (g : Groups F) → Covers g → member pk (noted pk g) ≡ true
  noted_self pk g h = elim (Bool-cases (seen pk g)) [
    | inl e ↦ rw e (h pk e)
    | inr e ↦ rw e (member-snoc pk pk g.order ∙ rw (==_refl pk) refl)
  ]

  seen_other :
      (pk : Text) (row : Row F) (w : ℤ) (g : Groups F) (k : Text)
      → (pk == k) ≡ false
      → seen k (put pk row w g) ≡ seen k g
  seen_other pk row w g k e =
      ap (λ o. is_some o || member k (put pk row w g).minus) (put_plus pk row w g k ∙ rw e refl)
      ∙ ap (λ b. is_some (lookup k g.plus) || b) (put_minus pk row w g k ∙ rw e refl)

  put-Covers : (pk : Text) (row : Row F) (w : ℤ) (g : Groups F) → Covers g → Covers (put pk row w g)
  put-Covers pk row w g h k s =
      ap (λ l. member k l) (put_order pk row w g) ∙ (elim (Bool-cases (pk == k)) [
        | inl e ↦ ap (λ j. member j (noted pk g)) (sym (==_eq pk k e)) ∙ noted_self pk g h
        | inr e ↦ noted-keeps pk k g (h k (sym (seen_other pk row w g k e) ∙ s))
      ])

  -- What the groups say of each key, and that the order has every key with a row.
  abbrev pub Grouped : Delta F → Groups F → Groups F → Type 0
  Grouped out g h =
      Covers h
      × ((k : Text) → lookup k h.plus ≡ keep_or (last_plus k out) (lookup k g.plus))
      × ((k : Text) → member k h.minus ≡ (any_minus k out || member k g.minus))

  pub group-Grouped :
      (out : Delta F) (g : Groups F) → Covers g → Grouped out g (group lib objects ts out g)
  unfolding group last_plus any_minus
  group-Grouped [] g c = (c, λ k. refl, λ k. refl)
  group-Grouped ((row, w) ∷ out) g c = keyed (key_string lib ts row) (group-Grouped out)
    where
      keyed :
          (o : Option Text)
          → ((g : Groups F) → Covers g → Grouped out g (group lib objects ts out g))
          → Covers (group lib objects ts out (put_keyed lib objects ts o row w g))
            × ((k : Text)
                → lookup k (group lib objects ts out (put_keyed lib objects ts o row w g)).plus
                  ≡ keep_or
                      (keep_or (last_plus k out) (if has_key k o then positive row w else none))
                      (lookup k g.plus))
            × ((k : Text)
                → member k (group lib objects ts out (put_keyed lib objects ts o row w g)).minus
                  ≡ (((has_key k o && is_negative w) || any_minus k out) || member k g.minus))
      keyed none ih =
          let (c', p, m) = ih g c in
          (c', λ k. p k ∙ keep_assoc (last_plus k out) none (lookup k g.plus), λ k. m k)
      keyed (some pk) ih =
          let (c', p, m) = ih (put pk row w g) (put-Covers pk row w g c) in
          (
            c',
            λ k.
                p k
                ∙ ap (keep_or (last_plus k out)) (put_plus pk row w g k)
                ∙ keep_assoc (last_plus k out) (if pk == k then positive row w else none)
                    (lookup k g.plus),
            λ k.
                m k
                ∙ ap (λ b. any_minus k out || b) (put_minus pk row w g k)
                ∙ or_swap (any_minus k out) ((pk == k) && is_negative w) (member k g.minus),
          )
