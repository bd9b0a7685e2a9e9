-- ===== src/Value/Order.antt =====
-- apps/engine/src/value.rs: the derived order of cells is transitive where that of the floats is.
use electric_circuits.Prelude.{
  ◌≡◌, Bool, true, [], ◌∷◌, arith, Ord, is_le, bool_cmp, list_cmp, nat_ord,
}
use electric_circuits.Value.{ℤ, Text, Value, int, text, bool, float, int_cmp, value_cmp}

pub int_cmp_trans :
    (a b c : ℤ)
    → is_le (int_cmp a b) ≡ true
    → is_le (int_cmp b c) ≡ true
    → is_le (int_cmp a c) ≡ true
int_cmp_trans a b c h k = ground arith

pub text_cmp_trans :
    (a b c : Text)
    → is_le (list_cmp a b) ≡ true
    → is_le (list_cmp b c) ≡ true
    → is_le (list_cmp a c) ≡ true
text_cmp_trans [] b [] h k = ground arith
text_cmp_trans [] b (z ∷ c) h k = ground arith
text_cmp_trans (x ∷ a) [] c h k = ground arith
text_cmp_trans (x ∷ a) (y ∷ b) [] h k = ground arith
text_cmp_trans (x ∷ a) (y ∷ b) (z ∷ c) h k = ground (arith, text_cmp_trans a b c)

bool_cmp_trans :
    (a b c : Bool)
    → is_le (bool_cmp a b) ≡ true
    → is_le (bool_cmp b c) ≡ true
    → is_le (bool_cmp a c) ≡ true
bool_cmp_trans a b c h k = ground arith

abbrev pub Transitive : (F : Type 0) → ⦃o : Ord F⦄ → Type 0
Transitive F ⦃o⦄ =
    (a b c : F) → is_le (o.cmp a b) ≡ true → is_le (o.cmp b c) ≡ true → is_le (o.cmp a c) ≡ true

module _ {F : Type 0} ⦃o : Ord F⦄ where
  pub value_cmp_trans :
      (a b c : Value F)
      → Transitive F
      → is_le (value_cmp a b) ≡ true
      → is_le (value_cmp b c) ≡ true
      → is_le (value_cmp a c) ≡ true
  value_cmp_trans (int a) (int b) (int c) t h k = int_cmp_trans a b c h k
  value_cmp_trans (text a) (text b) (text c) t h k = text_cmp_trans a b c h k
  value_cmp_trans (bool a) (bool b) (bool c) t h k = bool_cmp_trans a b c h k
  value_cmp_trans (float a) (float b) (float c) t h k = t a b c h k
  value_cmp_trans _ _ _ t h k = ground arith
