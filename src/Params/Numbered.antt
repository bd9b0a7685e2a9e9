-- ===== src/Params/Numbered.antt =====
-- apps/engine/src/params.rs: the parameters that pass the check are numbered from 1.
use electric_circuits.Prelude.{
  ℕ, zero, suc, ◌+◌, ◌<◌, ◌≡◌, refl, ◌∙◌, sym, ap, subst, inl, inr, true, Option, none, some, List,
  [], ◌∷◌, length, ◌==◌, ◌>>=◌, nat_ord, list_ord, if◌then◌else◌, Map, lookup, sort, insert_in,
  Memᴰ, Memᴰ-of_sort, and_split, bind-some, Bool-cases, Option-cases, some_inj, some_none, ==_eq,
  ==_refl, arith, is_le,
}
use electric_circuits.Value.{ℤ, pos, int_ord, int_cmp, Text}
use electric_circuits.Value.Decimal.{parse_i64}
use electric_circuits.Params.Keys.{
  ParamJson, Parsed, parsed, refused, ParamError, key_numbers, in_sequence, check_numbers,
  validate_param_keys, checked, parse_params, from_brackets, of_value, of_json, of_object,
  bracket_params, find_params, json_params,
}

-- A parameter is bound under a text of the number.
abbrev pub BoundAs : Map Text Text → ℤ → Type 0
BoundAs params n = (k : Text) × (v : Text) × (lookup k params ≡ some v) × (parse_i64 k ≡ some n)

-- There is a parameter for each number from 1 to how many there are.
abbrev pub Numbered : Map Text Text → Type 0
Numbered params = (n : ℕ) → n < length params → BoundAs params (pos (suc n))

length-insert_in : (a : ℤ) (xs : List ℤ) → length (insert_in a xs) ≡ suc (length xs)
unfolding insert_in
length-insert_in a [] = refl
length-insert_in a (x ∷ xs) = elim (Bool-cases (is_le (int_cmp a x))) [
  | inl e ↦ rw e refl
  | inr n ↦ rw n (ap suc (length-insert_in a xs))
]

length-sort : (xs : List ℤ) → length (sort xs) ≡ length xs
unfolding sort
length-sort [] = refl
length-sort (x ∷ xs) = length-insert_in x (sort xs) ∙ ap suc (length-sort xs)

plus_zero : (i : ℕ) → i + 0 ≡ i
plus_zero i = omega arith

zero_plus : (n : ℕ) → 0 + n ≡ n
zero_plus n = omega arith

plus_suc : (i n : ℕ) → suc i + n ≡ i + suc n
plus_suc i n = omega arith

in_sequence-has :
    (i n : ℕ) (ns : List ℤ) → in_sequence i ns ≡ true → n < length ns → Memᴰ (pos (suc (i + n))) ns
unfolding in_sequence
in_sequence-has i n [] h lt = absurd (omega arith)
in_sequence-has i zero (m ∷ ns) h lt =
    let (here, rest) = and_split (m == pos (suc i)) (in_sequence (suc i) ns) h in
    Memᴰ.head (ap (λ k. pos (suc k)) (plus_zero i) ∙ sym (==_eq m (pos (suc i)) here))
in_sequence-has i (suc n) (m ∷ ns) h lt =
    let (here, rest) = and_split (m == pos (suc i)) (in_sequence (suc i) ns) h in
    Memᴰ.tail (
      subst (λ k. Memᴰ (pos (suc k)) ns) (plus_suc i n)
        (in_sequence-has (suc i) n ns rest (omega arith)))

BoundAs-keeps :
    (j : Text) (v : Text) (params : Map Text Text) (n : ℤ)
    → BoundAs params n
    → BoundAs ((j, v) ∷ params) n
unfolding lookup
BoundAs-keeps j v params n (key, w, found, reads) = elim (Bool-cases (j == key)) [
  | inl e ↦ (key, v, ap (λ b. if b then some v else lookup key params) e, reads)
  | inr d ↦ (key, w, ap (λ b. if b then some v else lookup key params) d ∙ found, reads)
]

key_numbers-length :
    (params : Map Text Text) (ns : List ℤ)
    → key_numbers params ≡ some ns
    → length ns ≡ length params
unfolding key_numbers
key_numbers-length [] ns h = ap length (sym (some_inj h))
key_numbers-length ((k, v) ∷ params) ns h =
    let (n, here, g) =
      bind-some (parse_i64 k) (λ n. key_numbers params >>= λ ms. some (n ∷ ms)) h in
    let (ms, rest, e) = bind-some (key_numbers params) (λ ms. some (n ∷ ms)) g in
    ap length (sym (some_inj e)) ∙ ap suc (key_numbers-length params ms rest)

key_numbers-bound :
    (params : Map Text Text) (ns : List ℤ) (z : ℤ)
    → key_numbers params ≡ some ns
    → Memᴰ z ns
    → BoundAs params z
unfolding key_numbers lookup
key_numbers-bound [] ns z h m = absurd (elim (subst (Memᴰ z) (sym (some_inj h)) m) [ ])
key_numbers-bound ((k, v) ∷ params) ns z h m =
    let (n, here, g) =
      bind-some (parse_i64 k) (λ n. key_numbers params >>= λ ms. some (n ∷ ms)) h in
    let (ms, rest, e) = bind-some (key_numbers params) (λ ms. some (n ∷ ms)) g in
    first_or_rest n ms here (key_numbers-bound params ms z rest)
      (subst (Memᴰ z) (sym (some_inj e)) m)
  where
    first_or_rest :
        (n : ℤ) (ms : List ℤ)
        → parse_i64 k ≡ some n
        → (Memᴰ z ms → BoundAs params z)
        → Memᴰ z (n ∷ ms)
        → BoundAs ((k, v) ∷ params) z
    first_or_rest n ms here again (Memᴰ.head e) =
        (k, v, ap (λ b. if b then some v else lookup k params) (==_refl k), here ∙ ap some (sym e))
    first_or_rest n ms here again (Memᴰ.tail t) = BoundAs-keeps k v params z (again t)

validate_param_keys-Numbered :
    (params : Map Text Text) → validate_param_keys params ≡ none → Numbered params
validate_param_keys-Numbered [] h n lt = absurd (omega arith)
validate_param_keys-Numbered (e ∷ params) h n lt = elim (Option-cases (key_numbers (e ∷ params))) [
  | inl bad ↦ absurd (some_none (sym (ap check_numbers bad) ∙ h))
  | inr (ns, read) ↦ (elim (Bool-cases (in_sequence 0 (sort ns))) [
    | inl good ↦
        let room =
          subst (λ l. n < l) (sym (length-sort ns ∙ key_numbers-length (e ∷ params) ns read)) lt in
        key_numbers-bound (e ∷ params) ns (pos (suc n)) read (
          Memᴰ-of_sort (pos (suc n)) ns (
            subst (λ k. Memᴰ (pos (suc k)) (sort ns)) (zero_plus n)
              (in_sequence-has 0 n (sort ns) good room)))
    | inr bad ↦ absurd (
        some_none (
          sym (
            ap check_numbers read
            ∙ ap (λ b. if b then none else some ParamError.not_sequential) bad)
          ∙ h))
  ])
]

params_of : Map Text Text → Parsed → Map Text Text
params_of m (parsed params) = params
params_of m (refused e) = m

parsed_refused : (e : ParamError) (params : Map Text Text) → refused e ≡ parsed params → ⊥
parsed_refused e params h = cc

checked-Numbered :
    (m params : Map Text Text) → checked m (validate_param_keys m) ≡ parsed params → Numbered params
unfolding params_of
checked-Numbered m params h = elim (Option-cases (validate_param_keys m)) [
  | inl good ↦
      subst Numbered (ap (params_of m) (sym (ap (checked m) good) ∙ h))
        (validate_param_keys-Numbered m good)
  | inr (e, bad) ↦ absurd (parsed_refused e params (sym (ap (checked m) bad) ∙ h))
]

module _ {J : Type 0} (lib : ParamJson J) where
  of_object-Numbered :
      (o : Option (Map Text J)) (params : Map Text Text)
      → of_object lib o ≡ parsed params
      → Numbered params
  of_object-Numbered none params h = absurd (parsed_refused ParamError.not_object params h)
  of_object-Numbered (some obj) params h = checked-Numbered (json_params lib obj []) params h

  of_value-Numbered :
      (o : Option Text) (params : Map Text Text) → of_value lib o ≡ parsed params → Numbered params
  of_value-Numbered none params h = checked-Numbered [] params h
  of_value-Numbered (some json) params h = of_json-Numbered (lib.from_str json) h
    where
      of_json-Numbered : (d : Option J) → of_json lib d ≡ parsed params → Numbered params
      of_json-Numbered none h = absurd (parsed_refused ParamError.not_json params h)
      of_json-Numbered (some j) h = of_object-Numbered (lib.as_object j) params h

  from_brackets-Numbered :
      (pairs : List (Text × Text)) (m params : Map Text Text)
      → from_brackets lib pairs m ≡ parsed params
      → Numbered params
  from_brackets-Numbered pairs [] params h = of_value-Numbered (find_params pairs) params h
  from_brackets-Numbered pairs (e ∷ m) params h = checked-Numbered (e ∷ m) params h

  -- The parameters of a request that is accepted are bound under each number from 1 to how many
  -- there are.
  pub parse_params-Numbered :
      (pairs : List (Text × Text)) (params : Map Text Text)
      → parse_params lib pairs ≡ parsed params
      → Numbered params
  unfolding parse_params
  parse_params-Numbered pairs params h =
      from_brackets-Numbered pairs (bracket_params pairs []) params h
