-- ===== src/Routing/Reached.antt =====
-- The candidates of apps/engine/src/subq_index.rs, `SubqueryShapeIndex`, against the predicates of the
-- shapes.
use electric_circuits.Prelude.{
  ℕ, ◌+◌, ◌⊎◌, ◌<◌, ◌≤◌, ◌≡◌, refl, ◌∙◌, sym, ap, subst, inl, inr, true, Option, none, some, List,
  [], ◌∷◌, arith, Ord, ◌==◌, ==_eq, ==_refl, nat_ord, list_ord, if◌then◌else◌, lookup, length,
  get_elem?, member, Memᴰ, Bool-cases, some_inj, some_none,
}
use electric_circuits.Value.{ℤ, Text, Row}
use electric_circuits.Predicate.Ast.{AccessLeaf, CompiledPredicate, SubqueryEval, Fault}
use electric_circuits.Predicate.Eval.{matches_ctx}
use electric_circuits.Predicate.Access.{access_leaf}
use electric_circuits.Predicate.Access.Sound.{access_leaf-holds}
use electric_circuits.FeedSets.FeedSet.{Bitmap, BitmapLaws}
use electric_circuits.Output.Codec.{Delta}
use electric_circuits.Routing.Probe.{probe, probe-keeps, probe-finds}
use electric_circuits.Routing.Bound.{BitmapScan, BitmapScanLaws, absorb, absorb_bound}
use electric_circuits.Routing.Subquery.{
  TableIndex, SubqueryShapeIndex, default, index_remove, index_insert, resolve, resolve_one,
  bucket_candidates, candidates, is_present, has_table,
}
use electric_circuits.Routing.Bitmaps.{keeps_absorb, keeps_bound}
use electric_circuits.Routing.Buckets.{under, under-Posted}
use electric_circuits.Routing.Named.{
  NamedIndex, index_remove-Named, index_remove-length, index_insert-Named, index_insert-length,
}
use electric_circuits.Routing.Held.{
  in_bucket, Held, index_insert-Held, index_insert-keeps, index_remove-keeps,
}

-- A shape is created on its outer table with its outer predicate, or dropped.
pub data SubqueryEvent (F : Type 0) : Type 0 where
  created : Text → Text → CompiledPredicate F → SubqueryEvent F
  dropped : Text → SubqueryEvent F

-- The outer table and predicate of the shapes that are registered.
abbrev pub Outer : Type 0 → Type 0
Outer F = Text → Option (Text × CompiledPredicate F)

unfoldable pub registered : {F : Type 0} → List (SubqueryEvent F) → Outer F → Outer F
registered [] reg s = reg s
registered (created name table pred ∷ events) reg s =
    registered events (λ q. if name == q then some (table, pred) else reg q) s
registered (dropped name ∷ events) reg s =
    registered events (λ q. if name == q then none else reg q) s

resolve_one-member :
    (s : Text) (here : Option (Option Text)) (rest : List Text)
    → ((here ≡ some (some s)) ⊎ (member s rest ≡ true))
    → member s (resolve_one here rest) ≡ true
unfolding member
resolve_one-member s (some (some name)) rest (inl e) =
    rw (some_inj (some_inj e)) (ground (arith, ==_refl s))
resolve_one-member s (some (some name)) rest (inr m) = ground arith
resolve_one-member s (some none) rest (inl e) = absurd (some_none (sym (some_inj e)))
resolve_one-member s (some none) rest (inr m) = m
resolve_one-member s none rest (inl e) = absurd (some_none (sym e))
resolve_one-member s none rest (inr m) = m

resolve-member :
    (s : Text) (id : ℕ) (reverse : List (Option Text)) (ids : List ℕ)
    → get_elem? reverse id ≡ some (some s)
    → member id ids ≡ true
    → member s (resolve reverse ids) ≡ true
unfolding member
resolve-member s id reverse [] named m = cc
resolve-member s id reverse (i ∷ ids) named m = elim (Bool-cases (i == id)) [
  | inl e ↦
      resolve_one-member s (get_elem? reverse i) (resolve reverse ids)
        (inl (ap (get_elem? reverse) (==_eq i id e) ∙ named))
  | inr e ↦ resolve_one-member s (get_elem? reverse i) (resolve reverse ids) (
      inr (
        resolve-member s id reverse ids named
          (ap (λ b. if b then true else member id ids) (sym e) ∙ m)))
]

module _ {F B : Type 0} ⦃o : Ord F⦄ (bm : Bitmap B) (scans : BitmapScan B) where
  unfoldable pub indexed : List (SubqueryEvent F) → SubqueryShapeIndex F B → SubqueryShapeIndex F B
  indexed [] idx = idx
  indexed (created name table pred ∷ events) idx =
      indexed events (index_insert bm scans name table pred idx)
  indexed (dropped name ∷ events) idx = indexed events (index_remove bm scans name idx)

  abbrev Tracks : SubqueryShapeIndex F B → Outer F → Type 0
  Tracks idx reg =
      NamedIndex idx
      × ((s table : Text) (pred : CompiledPredicate F)
          → reg s ≡ some (table, pred)
          → Held bm scans idx s table (access_leaf pred))

  module _ (laws : BitmapLaws bm) (scan_laws : BitmapScanLaws bm scans) where
    insert-Tracks :
        (name table : Text) (pred : CompiledPredicate F) (idx : SubqueryShapeIndex F B)
        (reg : Outer F)
        → length idx.reverse < 4294967296
        → Tracks idx reg
        → Tracks
            (index_insert bm scans name table pred idx)
            (λ q. if name == q then some (table, pred) else reg q)
    insert-Tracks name table pred idx reg room (named, tracks) = (
      index_insert-Named bm scans name table pred idx room named,
      λ s t p at. elim (Bool-cases (name == s)) [
        | inl e ↦
            let now = some_inj (ap (λ b. if b then some (table, pred) else reg s) (sym e) ∙ at) in
            subst
              (λ q. Held bm scans (index_insert bm scans name table pred idx) q t (access_leaf p))
              (==_eq name s e)
              (subst
                (λ tp.
                  Held bm scans (index_insert bm scans name table pred idx) name tp.0
                    (access_leaf tp.1))
                now (index_insert-Held bm scans laws name table pred idx))
        | inr e ↦
            index_insert-keeps bm scans laws name s table t pred (access_leaf p) idx e room named (
              index_remove-keeps bm scans laws scan_laws name s t (access_leaf p) idx e named
                (tracks s t p (ap (λ b. if b then some (table, pred) else reg s) (sym e) ∙ at)))
      ],
    )

    remove-Tracks :
        (name : Text) (idx : SubqueryShapeIndex F B) (reg : Outer F)
        → Tracks idx reg
        → Tracks (index_remove bm scans name idx) (λ q. if name == q then none else reg q)
    remove-Tracks name idx reg (named, tracks) = (
      index_remove-Named bm scans name idx named,
      λ s t p at. elim (Bool-cases (name == s)) [
        | inl e ↦ absurd (some_none (sym at ∙ ap (λ b. if b then none else reg s) e))
        | inr e ↦
            index_remove-keeps bm scans laws scan_laws name s t (access_leaf p) idx e named
              (tracks s t p (ap (λ b. if b then none else reg s) (sym e) ∙ at))
      ],
    )

    indexed-Tracks :
        (events : List (SubqueryEvent F)) (idx : SubqueryShapeIndex F B) (reg : Outer F)
        → length idx.reverse + length events ≤ 4294967296
        → Tracks idx reg
        → Tracks (indexed events idx) (registered events reg)
    unfolding indexed registered
    indexed-Tracks [] idx reg room tracks = tracks
    indexed-Tracks (created name table pred ∷ events) idx reg room tracks =
        indexed-Tracks events (index_insert bm scans name table pred idx)
          (λ q. if name == q then some (table, pred) else reg q)
          (omega (arith, index_insert-length bm scans name table pred idx))
          (insert-Tracks name table pred idx reg (omega arith) tracks)
    indexed-Tracks (dropped name ∷ events) idx reg room tracks =
        indexed-Tracks events (index_remove bm scans name idx)
          (λ q. if name == q then none else reg q)
          (omega (arith, index_remove-length bm scans name idx)) (remove-Tracks name idx reg tracks)

    module _ (f : Fault) (ev : SubqueryEval F) (row : Row F) (w : ℤ) (delta : Delta F) where
      probe-contains :
          (id : ℕ) (pred : CompiledPredicate F) (leaf : Option (AccessLeaf F)) (t : TableIndex F B)
          → access_leaf pred ≡ leaf
          → under bm id leaf t ≡ true
          → Memᴰ (row, w) delta
          → matches_ctx f ev pred row ≡ true
          → bm.contains
              (probe (absorb scans) (absorb_bound scans) t.eq t.lower t.upper delta t.scan)
              id
            ≡ true
      probe-contains id pred none t e u m matched =
          probe-keeps (absorb scans) (absorb_bound scans) t.eq t.lower t.upper
            (λ b. bm.contains b id) (keeps_absorb bm laws scans scan_laws id)
            (keeps_bound bm laws scans scan_laws id) delta t.scan u
      probe-contains id pred (some l) t e u m matched =
          probe-finds (absorb scans) (absorb_bound scans) t.eq t.lower t.upper
            (λ b. bm.contains b id) (keeps_absorb bm laws scans scan_laws id)
            (keeps_bound bm laws scans scan_laws id) row w l delta t.scan
            (under-Posted bm scans laws scan_laws id l t u)
            (access_leaf-holds f ev row pred matched e) m

      bucket-reached :
          (s : Text) (id : ℕ) (reverse : List (Option Text)) (pred : CompiledPredicate F)
          (t : Option (TableIndex F B))
          → get_elem? reverse id ≡ some (some s)
          → in_bucket bm scans id (access_leaf pred) t ≡ true
          → Memᴰ (row, w) delta
          → matches_ctx f ev pred row ≡ true
          → (is_present t ≡ true) × (member s (bucket_candidates bm scans delta reverse t) ≡ true)
      bucket-reached s id reverse pred none named u m matched = cc
      bucket-reached s id reverse pred (some t) named u m matched =
          let out = probe (absorb scans) (absorb_bound scans) t.eq t.lower t.upper delta t.scan in
          (
            refl,
            resolve-member s id reverse (scans.iter out) named (
                sym (scan_laws.iter_contains out id)
                ∙ probe-contains id pred (access_leaf pred) t refl u m matched),
          )

      -- Where the bitmaps are sets, and after any sequence of at most 2^32 creations and drops of
      -- shapes: if the outer predicate of a registered shape accepts a row of a delta of its outer
      -- table, by whatever the subquery nodes hold, then the table is known to have shapes and the
      -- shape is among the candidates of the delta, although the ids of dropped shapes are used again.
      pub candidates-reached :
          (events : List (SubqueryEvent F)) (s table : Text) (pred : CompiledPredicate F)
          → length events ≤ 4294967296
          → registered events (λ q. none) s ≡ some (table, pred)
          → Memᴰ (row, w) delta
          → matches_ctx f ev pred row ≡ true
          → (has_table table (indexed events default) ≡ true)
            × (member s (candidates bm scans table delta (indexed events default)) ≡ true)
      unfolding candidates lookup
      candidates-reached events s table pred room at m matched =
          let idx = indexed events default in
          let (named, tracks) =
            indexed-Tracks events default (λ q. none) (omega arith)
              (
                (λ q id h. absurd (some_none (sym h)), tt, tt),
                λ q t p h. absurd (some_none (sym h)),
              ) in
          let (id, known, placed, listed) = tracks s table pred at in
          bucket-reached s id idx.reverse pred (lookup table idx.tables) (named.0 s id known) listed
            m matched
