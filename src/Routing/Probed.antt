-- ===== src/Routing/Probed.antt =====
-- `candidates` of both indexes, apps/engine/src/engine/executors.rs and
-- apps/engine/src/subq_index.rs: the scans take up nothing but what is posted.
use electric_circuits.Prelude.{
  ℕ, ◌≡◌, refl, ◌∙◌, ap, inl, inr, Bool, Option, none, some, [], ◌∷◌, Ord, ◌==◌, ◌>>=◌, nat_ord,
  if◌then◌else◌, Map, lookup, get_elem?, Bool-cases, bind-some, Found, Keyed, Keyed-Found,
}
use electric_circuits.Value.{Value, Row, is_null, value_ord}
use electric_circuits.Output.Codec.{Delta}
use electric_circuits.Routing.Postings.{Postings, posting}
use electric_circuits.Routing.Scan.{
  Side, lower_side, upper_side, in_range, eq_hit, eq_scan, literals, bounds_hit, bound_scan,
}
use electric_circuits.Routing.Probe.{probe_row, probe}
use electric_circuits.Routing.Columns.{EachKeyed, WellKeyed}

module _ {F P S : Type 0} ⦃o : Ord F⦄ (Inv : S → Type 0) (full : Postings F P) where
  -- What is posted keeps the invariant.
  abbrev pub Keeps : (P → S → S) → Type 0
  Keeps absorb =
      (col : ℕ) (v : Value F) (p : P) (out : S)
      → posting col v full ≡ some p
      → Inv out
      → Inv (absorb p out)

  eq_hit-Inv :
      (absorb : P → S → S) (hit : Option P) (out : S)
      → ((p : P) → hit ≡ some p → Inv (absorb p out))
      → Inv out
      → Inv (eq_hit absorb hit out)
  eq_hit-Inv absorb none out f h = h
  eq_hit-Inv absorb (some p) out f h = f p refl

  eq_scan-Found :
      (absorb : P → S → S) (row : Row F) (m : Postings F P) (out : S)
      → Keeps absorb
      → Found full m
      → Inv out
      → Inv (eq_scan absorb row m out)
  unfolding eq_scan
  eq_scan-Found absorb row [] out keeps found h = h
  eq_scan-Found absorb row ((col, by_val) ∷ m) out keeps (here, found) h =
      let hit = get_elem? row col >>= λ cell. lookup cell by_val in
      eq_scan-Found absorb row m (eq_hit absorb hit out) keeps found (
        eq_hit-Inv absorb hit out
          (λ p e.
            let (cell, at, e2) = bind-some (get_elem? row col) (λ cell. lookup cell by_val) e in
            keeps col cell p out (ap (λ x. x >>= lookup cell) here ∙ e2) h)
          h)

  pub eq_scan-Inv :
      (absorb : P → S → S) (row : Row F) (out : S)
      → Keeps absorb
      → WellKeyed full
      → Inv out
      → Inv (eq_scan absorb row full out)
  eq_scan-Inv absorb row out keeps (keyed, each) h =
      eq_scan-Found absorb row full out keeps (Keyed-Found full keyed) h

  module _ (side : Side) (absorb : Bool → P → S → S) (keeps : (at : Bool) → Keeps (absorb at)) where
    literals-Inv :
        (col : ℕ) (cell : Value F) (by_val bounds : Map (Value F) P) (out : S)
        → lookup col full ≡ some by_val
        → Found by_val bounds
        → Inv out
        → Inv (literals side absorb cell bounds out)
    unfolding literals
    literals-Inv col cell by_val [] out here found h = h
    literals-Inv col cell by_val ((bound, p) ∷ bounds) out here (e, found) h =
        literals-Inv col cell by_val bounds
          (if in_range side bound cell then absorb (bound == cell) p out else out) here found
          (elim (Bool-cases (in_range side bound cell)) [
            | inl i ↦
                rw i
                  (keeps (bound == cell) col bound p out (ap (λ x. x >>= lookup bound) here ∙ e) h)
            | inr n ↦ rw n h
          ])

    bounds_hit-Inv :
        (col : ℕ) (cell : Option (Value F)) (bounds : Map (Value F) P) (out : S)
        → lookup col full ≡ some bounds
        → Keyed bounds
        → Inv out
        → Inv (bounds_hit side absorb cell bounds out)
    bounds_hit-Inv col none bounds out here keyed h = h
    bounds_hit-Inv col (some cell) bounds out here keyed h = elim (Bool-cases (is_null cell)) [
      | inl n ↦ rw n h
      | inr n ↦ rw n (literals-Inv col cell bounds bounds out here (Keyed-Found bounds keyed) h)
    ]

    bound_scan-Found :
        (row : Row F) (m : Postings F P) (out : S)
        → Found full m
        → EachKeyed m
        → Inv out
        → Inv (bound_scan side absorb row m out)
    unfolding bound_scan
    bound_scan-Found row [] out found each h = h
    bound_scan-Found row ((col, bounds) ∷ m) out (here, found) (keyed, each) h =
        bound_scan-Found row m (bounds_hit side absorb (get_elem? row col) bounds out) found each
          (bounds_hit-Inv col (get_elem? row col) bounds out here keyed h)

    pub bound_scan-Inv :
        (row : Row F) (out : S)
        → WellKeyed full
        → Inv out
        → Inv (bound_scan side absorb row full out)
    bound_scan-Inv row out (keyed, each) h =
        bound_scan-Found row full out (Keyed-Found full keyed) each h

module _ {F P B S : Type 0} ⦃o : Ord F⦄ (Inv : S → Type 0) (absorb : P → S → S)
    (absorb_bound : Bool → B → S → S) (eqs : Postings F P) (lowers uppers : Postings F B)
    (keyed : WellKeyed eqs × WellKeyed lowers × WellKeyed uppers) (keeps : Keeps Inv eqs absorb)
    (keeps_lower : (at : Bool) → Keeps Inv lowers (absorb_bound at))
    (keeps_upper : (at : Bool) → Keeps Inv uppers (absorb_bound at)) where
  probe_row-Inv :
      (row : Row F) (out : S)
      → Inv out
      → Inv (probe_row absorb absorb_bound eqs lowers uppers row out)
  probe_row-Inv row out h =
      let after = eq_scan absorb row eqs out in
      bound_scan-Inv Inv uppers upper_side absorb_bound keeps_upper row
        (bound_scan lower_side absorb_bound row lowers after) keyed.2
        (bound_scan-Inv Inv lowers lower_side absorb_bound keeps_lower row after keyed.1
          (eq_scan-Inv Inv eqs absorb row out keeps keyed.0 h))

  -- What every posted list keeps, the probe of a delta keeps.
  pub probe-Inv :
      (delta : Delta F) (out : S)
      → Inv out
      → Inv (probe absorb absorb_bound eqs lowers uppers delta out)
  unfolding probe
  probe-Inv [] out h = h
  probe-Inv ((row, w) ∷ delta) out h =
      probe-Inv delta (probe_row absorb absorb_bound eqs lowers uppers row out)
        (probe_row-Inv row out h)
