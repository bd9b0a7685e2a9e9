-- ===== src/Routing/Probe.antt =====
-- `candidates` of both indexes, apps/engine/src/engine/executors.rs and
-- apps/engine/src/subq_index.rs: the scans of each row of a delta, and what they find.
use electric_circuits.Prelude.{
  Ordering, ◌≡◌, refl, ◌∙◌, sym, ap, Bool, true, false, ◌&&◌, Option, none, some, [], ◌∷◌, arith,
  Ord, ◌==◌, ==_eq, nat_ord, if◌then◌else◌, get_elem?, is_le, is_ge, is_gt, is_lt, is_eq,
  reverse_ord, Memᴰ,
}
use electric_circuits.Value.{
  ℤ, Value, Row, is_null, value_ord, value_cmp, value_cmp_reverse, cell_at, or_null,
}
use electric_circuits.Predicate.Ast.{AccessLeaf, lower, upper}
use electric_circuits.Predicate.Access.{holds, past}
use electric_circuits.Output.Codec.{Delta}
use electric_circuits.Routing.Postings.{Postings, posting}
use electric_circuits.Routing.Scan.{
  lower_side, upper_side, eq_scan, bound_scan, Monotone, eq_scan-keeps, eq_scan-finds,
  bound_scan-keeps, bound_scan-finds,
}

-- A cell that a leaf accepts is in the row.
present :
    {F : Type 0} (cell : Option (Value F))
    → is_null (or_null cell) ≡ false
    → cell ≡ some (or_null cell)
present none h = cc
present (some v) h = refl

unguard : (n b : Bool) → (if n then false else b) ≡ true → (n ≡ false) × (b ≡ true)
unguard true b h = cc
unguard false b h = (refl, h)

past_lower :
    (r : Ordering) (strict : Bool)
    → past (is_gt r) (is_eq r) strict ≡ true
    → (is_le (reverse_ord r) ≡ true) × ((is_eq (reverse_ord r) && strict) ≡ false)
past_lower Ordering.lt strict h = ground arith
past_lower Ordering.eq strict h = ground arith
past_lower Ordering.gt strict h = (refl, refl)

past_upper :
    (r : Ordering) (strict : Bool)
    → past (is_lt r) (is_eq r) strict ≡ true
    → (is_ge (reverse_ord r) ≡ true) × ((is_eq (reverse_ord r) && strict) ≡ false)
past_upper Ordering.gt strict h = ground arith
past_upper Ordering.eq strict h = ground arith
past_upper Ordering.lt strict h = (refl, refl)

module _ {F P B S : Type 0} ⦃o : Ord F⦄ (absorb : P → S → S) (absorb_bound : Bool → B → S → S)
    (eqs : Postings F P) (lowers uppers : Postings F B) where
  abbrev pub probe_row : Row F → S → S
  probe_row row out =
      bound_scan upper_side absorb_bound row uppers
        (bound_scan lower_side absorb_bound row lowers (eq_scan absorb row eqs out))

  unfoldable pub probe : Delta F → S → S
  probe [] out = out
  probe ((row, w) ∷ delta) out = probe delta (probe_row row out)

  module _ (has : S → Bool) where
    -- Where an element is posted, so that the probe of a cell that the leaf accepts takes it up.
    abbrev pub Posted : AccessLeaf F → Type 0
    Posted (AccessLeaf.eq col v) =
        (p : P) × (posting col v eqs ≡ some p) × ((seen : S) → has (absorb p seen) ≡ true)
    Posted (lower col v strict) =
        (b : B) × (posting col v lowers ≡ some b)
        × ((at : Bool) (seen : S) → (at && strict) ≡ false → has (absorb_bound at b seen) ≡ true)
    Posted (upper col v strict) =
        (b : B) × (posting col v uppers ≡ some b)
        × ((at : Bool) (seen : S) → (at && strict) ≡ false → has (absorb_bound at b seen) ≡ true)

    module _ (keeps : Monotone has absorb)
        (keeps_bound : (at : Bool) → Monotone has (absorb_bound at)) where
      probe_row-keeps : (row : Row F) (out : S) → has out ≡ true → has (probe_row row out) ≡ true
      probe_row-keeps row out h =
          bound_scan-keeps has upper_side absorb_bound keeps_bound row uppers
            (bound_scan lower_side absorb_bound row lowers (eq_scan absorb row eqs out))
            (bound_scan-keeps has lower_side absorb_bound keeps_bound row lowers
              (eq_scan absorb row eqs out) (eq_scan-keeps has absorb keeps row eqs out h))

      pub probe-keeps : (delta : Delta F) (out : S) → has out ≡ true → has (probe delta out) ≡ true
      unfolding probe
      probe-keeps [] out h = h
      probe-keeps ((row, w) ∷ delta) out h =
          probe-keeps delta (probe_row row out) (probe_row-keeps row out h)

      probe_row-finds :
          (row : Row F) (l : AccessLeaf F) (out : S)
          → Posted l
          → holds l row ≡ true
          → has (probe_row row out) ≡ true
      probe_row-finds row (AccessLeaf.eq col v) out (p, posted, takes) h =
          let (n, same) = unguard (is_null v) (cell_at row col == v) h in
          let cell = ==_eq (cell_at row col) v same in
          bound_scan-keeps has upper_side absorb_bound keeps_bound row uppers
            (bound_scan lower_side absorb_bound row lowers (eq_scan absorb row eqs out))
            (bound_scan-keeps has lower_side absorb_bound keeps_bound row lowers
              (eq_scan absorb row eqs out)
              (eq_scan-finds has absorb keeps row col v p eqs out
                (present (get_elem? row col) (ap is_null cell ∙ n) ∙ ap some cell) posted takes))
      probe_row-finds row (lower col v strict) out (b, posted, takes) h =
          let cell = cell_at row col in
          let (n, beyond) =
            unguard (is_null cell) (past (is_gt (value_cmp cell v)) (cell == v) strict) h in
          let (inside, at) = past_lower (value_cmp cell v) strict beyond in
          bound_scan-keeps has upper_side absorb_bound keeps_bound row uppers
            (bound_scan lower_side absorb_bound row lowers (eq_scan absorb row eqs out))
            (bound_scan-finds has lower_side absorb_bound keeps_bound row col cell v b lowers
              (eq_scan absorb row eqs out) (present (get_elem? row col) n) n posted
              (ap is_le (value_cmp_reverse cell v) ∙ inside)
              (λ seen.
                takes (v == cell) seen
                  (ap (λ r. is_eq r && strict) (value_cmp_reverse cell v) ∙ at)))
      probe_row-finds row (upper col v strict) out (b, posted, takes) h =
          let cell = cell_at row col in
          let (n, beyond) =
            unguard (is_null cell) (past (is_lt (value_cmp cell v)) (cell == v) strict) h in
          let (inside, at) = past_upper (value_cmp cell v) strict beyond in
          bound_scan-finds has upper_side absorb_bound keeps_bound row col cell v b uppers
            (bound_scan lower_side absorb_bound row lowers (eq_scan absorb row eqs out))
            (present (get_elem? row col) n) n posted (ap is_ge (value_cmp_reverse cell v) ∙ inside)
            (λ seen.
              takes (v == cell) seen (ap (λ r. is_eq r && strict) (value_cmp_reverse cell v) ∙ at))

      pub probe-finds :
          (row : Row F) (w : ℤ) (l : AccessLeaf F) (delta : Delta F) (out : S)
          → Posted l
          → holds l row ≡ true
          → Memᴰ (row, w) delta
          → has (probe delta out) ≡ true
      unfolding probe
      probe-finds row w l [] out posted h m = elim m [ ]
      probe-finds row w l ((r, u) ∷ delta) out posted h (Memᴰ.head e) =
          probe-keeps delta (probe_row r out)
            (ap (λ q. has (probe_row q.0 out)) (sym e) ∙ probe_row-finds row l out posted h)
      probe-finds row w l ((r, u) ∷ delta) out posted h (Memᴰ.tail m) =
          probe-finds row w l delta (probe_row r out) posted h m
