-- ===== src/Routing/Scan.antt =====
-- The probes of both indexes: apps/engine/src/engine/executors.rs and apps/engine/src/subq_index.rs,
-- the loops of `candidates` over one row of a delta, for any kind of posting list.
use electric_circuits.Prelude.{
  ℕ, ◌≡◌, ◌∙◌, sym, ap, inl, inr, Bool, true, false, Option, none, some, [], ◌∷◌, Ord, ◌==◌, ◌>>=◌,
  ==_eq, nat_ord, if◌then◌else◌, Map, lookup, get_elem?, is_le, is_ge, Bool-cases, some_none,
  some_inj,
}
use electric_circuits.Value.{Value, Row, is_null, value_ord, value_cmp}
use electric_circuits.Routing.Postings.{Postings, posting}

-- The sense of a bound: `bounds.range(..=cell)` of the lower bounds, `bounds.range(cell..)` of the
-- upper ones.
pub data Side : Type 0 where
  lower_side upper_side : Side

module _ {F : Type 0} ⦃o : Ord F⦄ where
  abbrev pub in_range : Side → Value F → Value F → Bool
  in_range Side.lower_side bound cell = is_le (value_cmp bound cell)
  in_range Side.upper_side bound cell = is_ge (value_cmp bound cell)

abbrev pub eq_hit {ℓ κ} : {P : Type ℓ} {S : Type κ} → (P → S → S) → Option P → S → S
eq_hit absorb none out = out
eq_hit absorb (some p) out = absorb p out

module _ {F P S : Type 0} ⦃o : Ord F⦄ where
  -- The loop over `eq`.
  unfoldable pub eq_scan : (P → S → S) → Row F → Postings F P → S → S
  eq_scan absorb row [] out = out
  eq_scan absorb row ((col, by_val) ∷ m) out =
      eq_scan absorb row m (eq_hit absorb (get_elem? row col >>= λ cell. lookup cell by_val) out)

  unfoldable pub literals : Side → (Bool → P → S → S) → Value F → Map (Value F) P → S → S
  literals side absorb cell [] out = out
  literals side absorb cell ((bound, p) ∷ bounds) out =
      literals side absorb cell bounds
        (if in_range side bound cell then absorb (bound == cell) p out else out)

  -- A comparison with a NULL cell is never true.
  abbrev pub bounds_hit : Side → (Bool → P → S → S) → Option (Value F) → Map (Value F) P → S → S
  bounds_hit side absorb none bounds out = out
  bounds_hit side absorb (some cell) bounds out =
      if is_null cell then out else literals side absorb cell bounds out

  -- The loop over `lower` or `upper`.
  unfoldable pub bound_scan : Side → (Bool → P → S → S) → Row F → Postings F P → S → S
  bound_scan side absorb row [] out = out
  bound_scan side absorb row ((col, bounds) ∷ m) out =
      bound_scan side absorb row m (bounds_hit side absorb (get_elem? row col) bounds out)

module _ {P S : Type 0} (has : S → Bool) where
  -- A scan loses nothing that was found before.
  abbrev pub Monotone : (P → S → S) → Type 0
  Monotone absorb = (p : P) (out : S) → has out ≡ true → has (absorb p out) ≡ true

  eq_hit-keeps :
      (absorb : P → S → S) (h : Option P) (out : S)
      → Monotone absorb
      → has out ≡ true
      → has (eq_hit absorb h out) ≡ true
  eq_hit-keeps absorb none out keeps m = m
  eq_hit-keeps absorb (some p) out keeps m = keeps p out m

  in_range-keeps :
      (absorb : Bool → P → S → S) (b at : Bool) (p : P) (out : S)
      → Monotone (absorb at)
      → has out ≡ true
      → has (if b then absorb at p out else out) ≡ true
  in_range-keeps absorb true at p out keeps h = keeps p out h
  in_range-keeps absorb false at p out keeps h = h

module _ {F P S : Type 0} ⦃o : Ord F⦄ (has : S → Bool) where
  module _ (absorb : P → S → S) (keeps : Monotone has absorb) where
    pub eq_scan-keeps :
        (row : Row F) (m : Postings F P) (out : S)
        → has out ≡ true
        → has (eq_scan absorb row m out) ≡ true
    unfolding eq_scan
    eq_scan-keeps row [] out h = h
    eq_scan-keeps row ((col, by_val) ∷ m) out h =
        eq_scan-keeps row m (eq_hit absorb (get_elem? row col >>= λ cell. lookup cell by_val) out)
          (eq_hit-keeps has absorb (get_elem? row col >>= λ cell. lookup cell by_val) out keeps h)

    pub eq_scan-finds :
        (row : Row F) (col : ℕ) (cell : Value F) (p : P) (m : Postings F P) (out : S)
        → get_elem? row col ≡ some cell
        → posting col cell m ≡ some p
        → ((seen : S) → has (absorb p seen) ≡ true)
        → has (eq_scan absorb row m out) ≡ true
    unfolding eq_scan lookup
    eq_scan-finds row col cell p [] out at found takes = absurd (some_none (sym found))
    eq_scan-finds row col cell p ((c, by_val) ∷ m) out at found takes =
        elim (Bool-cases (c == col)) [
          | inl e ↦
              eq_scan-keeps row m (eq_hit absorb (get_elem? row c >>= λ v. lookup v by_val) out) (
                ap (λ h. has (eq_hit absorb h out))
                  (ap (λ i. get_elem? row i >>= λ v. lookup v by_val) (==_eq c col e)
                    ∙ ap (λ h. h >>= λ v. lookup v by_val) at
                    ∙ ap (λ b. (if b then some by_val else lookup col m) >>= lookup cell) (sym e)
                    ∙ found)
                ∙ takes out)
          | inr e ↦
              eq_scan-finds row col cell p m
                (eq_hit absorb (get_elem? row c >>= λ v. lookup v by_val) out) at
                (ap (λ b. (if b then some by_val else lookup col m) >>= lookup cell) (sym e)
                  ∙ found)
                takes
        ]

  module _ (side : Side) (absorb : Bool → P → S → S)
      (keeps : (at : Bool) → Monotone has (absorb at)) where
    literals-keeps :
        (cell : Value F) (bounds : Map (Value F) P) (out : S)
        → has out ≡ true
        → has (literals side absorb cell bounds out) ≡ true
    unfolding literals
    literals-keeps cell [] out h = h
    literals-keeps cell ((bound, p) ∷ bounds) out h =
        literals-keeps cell bounds
          (if in_range side bound cell then absorb (bound == cell) p out else out)
          (in_range-keeps has absorb (in_range side bound cell) (bound == cell) p out
            (keeps (bound == cell)) h)

    literals-finds :
        (cell bound : Value F) (p : P) (bounds : Map (Value F) P) (out : S)
        → lookup bound bounds ≡ some p
        → in_range side bound cell ≡ true
        → ((seen : S) → has (absorb (bound == cell) p seen) ≡ true)
        → has (literals side absorb cell bounds out) ≡ true
    unfolding literals lookup
    literals-finds cell bound p [] out found inside takes = absurd (some_none (sym found))
    literals-finds cell bound p ((b, q) ∷ bounds) out found inside takes =
        elim (Bool-cases (b == bound)) [
          | inl e ↦
              literals-keeps cell bounds
                (if in_range side b cell then absorb (b == cell) q out else out)
                (ap (λ v. has (if in_range side v cell then absorb (v == cell) q out else out))
                    (==_eq b bound e)
                  ∙ ap (λ t. has (if t then absorb (bound == cell) q out else out)) inside
                  ∙ ap (λ r. has (absorb (bound == cell) r out))
                      (some_inj
                        (ap (λ t. if t then some q else lookup bound bounds) (sym e) ∙ found))
                  ∙ takes out)
          | inr e ↦
              literals-finds cell bound p bounds
                (if in_range side b cell then absorb (b == cell) q out else out)
                (ap (λ t. if t then some q else lookup bound bounds) (sym e) ∙ found) inside takes
        ]

    bounds_hit-keeps :
        (h : Option (Value F)) (bounds : Map (Value F) P) (out : S)
        → has out ≡ true
        → has (bounds_hit side absorb h bounds out) ≡ true
    bounds_hit-keeps none bounds out m = m
    bounds_hit-keeps (some cell) bounds out m = elim (Bool-cases (is_null cell)) [
      | inl n ↦ rw n m
      | inr n ↦ rw n (literals-keeps cell bounds out m)
    ]

    pub bound_scan-keeps :
        (row : Row F) (m : Postings F P) (out : S)
        → has out ≡ true
        → has (bound_scan side absorb row m out) ≡ true
    unfolding bound_scan
    bound_scan-keeps row [] out h = h
    bound_scan-keeps row ((col, bounds) ∷ m) out h =
        bound_scan-keeps row m (bounds_hit side absorb (get_elem? row col) bounds out)
          (bounds_hit-keeps (get_elem? row col) bounds out h)

    pub bound_scan-finds :
        (row : Row F) (col : ℕ) (cell bound : Value F) (p : P) (m : Postings F P) (out : S)
        → get_elem? row col ≡ some cell
        → is_null cell ≡ false
        → posting col bound m ≡ some p
        → in_range side bound cell ≡ true
        → ((seen : S) → has (absorb (bound == cell) p seen) ≡ true)
        → has (bound_scan side absorb row m out) ≡ true
    unfolding bound_scan lookup
    bound_scan-finds row col cell bound p [] out at n found inside takes =
        absurd (some_none (sym found))
    bound_scan-finds row col cell bound p ((c, bounds) ∷ m) out at n found inside takes =
        elim (Bool-cases (c == col)) [
          | inl e ↦ bound_scan-keeps row m (bounds_hit side absorb (get_elem? row c) bounds out) (
              ap (λ h. has (bounds_hit side absorb h bounds out))
                (ap (get_elem? row) (==_eq c col e) ∙ at)
              ∙ ap (λ t. has (if t then out else literals side absorb cell bounds out)) n
              ∙ literals-finds cell bound p bounds out
                  (ap (λ b. (if b then some bounds else lookup col m) >>= lookup bound) (sym e)
                    ∙ found)
                  inside takes)
          | inr e ↦
              bound_scan-finds row col cell bound p m
                (bounds_hit side absorb (get_elem? row c) bounds out) at n
                (ap (λ b. (if b then some bounds else lookup col m) >>= lookup bound) (sym e)
                  ∙ found)
                inside takes
        ]
