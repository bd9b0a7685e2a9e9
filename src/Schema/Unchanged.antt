-- ===== src/Schema/Unchanged.antt =====
-- apps/engine/src/schema.rs: what `describe_drift` finds where the columns are the same.
use electric_circuits.Prelude.{
  NoKey, ◌≡◌, refl, ◌∙◌, sym, ap, Bool, true, false, ◌&&◌, some, List, [], ◌∷◌, ◌++◌, map, arith,
  ◌==◌, ==_eq, ==_refl, nat_ord, list_ord, if◌then◌else◌, Map, lookup, insert, All, append_assoc,
  append_nil, and_split,
}
use electric_circuits.Value.{Text, int_ord}
use electric_circuits.Schema.Compile.{FingerprintColumn}
use electric_circuits.Schema.Drift.{
  Drift, added, dropped, retyped, same_type, column_eq, columns_eq, by_name, missing_one, missing,
  retype_one, retypes, columns_drift,
}

-- Each name stands once.
abbrev pub Unlike : Text → List FingerprintColumn → Type 0
Unlike name cs = All (λ (c : FingerprintColumn). (name == c.name) ≡ false) cs

abbrev pub OneColumnEach : List FingerprintColumn → Type 0
OneColumnEach [] = Unit
OneColumnEach (c ∷ cs) = Unlike c.name cs × OneColumnEach cs

abbrev pub pairs : List FingerprintColumn → Map Text FingerprintColumn
pairs cs = map (λ (c : FingerprintColumn). (c.name, c)) cs

pub insert-absent :
    (name : Text) (c : FingerprintColumn) (m : Map Text FingerprintColumn)
    → NoKey name m
    → insert name c m ≡ m ++ (name, c) ∷ []
unfolding insert
insert-absent name c [] h = refl
insert-absent name c ((k, d) ∷ m) (n, h) =
    ap (λ b. if b then (name, c) ∷ m else (k, d) ∷ insert name c m) n
    ∙ ap (λ r. (k, d) ∷ r) (insert-absent name c m h)

NoKey-snoc :
    (name k : Text) (c : FingerprintColumn) (m : Map Text FingerprintColumn)
    → NoKey name m
    → (k == name) ≡ false
    → NoKey name (m ++ (k, c) ∷ [])
NoKey-snoc name k c [] h n = (n, tt)
NoKey-snoc name k c (e ∷ m) (first, h) n = (first, NoKey-snoc name k c m h n)

All-NoKey-snoc :
    (k : Text) (c : FingerprintColumn) (m : Map Text FingerprintColumn)
    (cs : List FingerprintColumn)
    → All (λ (d : FingerprintColumn). NoKey d.name m) cs
    → Unlike k cs
    → All (λ (d : FingerprintColumn). NoKey d.name (m ++ (k, c) ∷ [])) cs
All-NoKey-snoc k c m [] h n = tt
All-NoKey-snoc k c m (d ∷ cs) (first, h) (n, ns) =
    (NoKey-snoc d.name k c m first n, All-NoKey-snoc k c m cs h ns)

pub by_name-pairs :
    (cs : List FingerprintColumn) (m : Map Text FingerprintColumn)
    → OneColumnEach cs
    → All (λ (c : FingerprintColumn). NoKey c.name m) cs
    → by_name cs m ≡ m ++ pairs cs
unfolding by_name
by_name-pairs [] m one h = sym (append_nil m)
by_name-pairs (c ∷ cs) m (unlike, one) (first, h) =
    ap (by_name cs) (insert-absent c.name c m first)
    ∙ by_name-pairs cs (m ++ (c.name, c) ∷ []) one (All-NoKey-snoc c.name c m cs h unlike)
    ∙ append_assoc m ((c.name, c) ∷ []) (pairs cs)

pub nothing_taken :
    (cs : List FingerprintColumn)
    → All (λ (c : FingerprintColumn). NoKey {V = FingerprintColumn} c.name []) cs
nothing_taken [] = tt
nothing_taken (c ∷ cs) = (tt, nothing_taken cs)

-- The columns are found under their names.
abbrev pub Found : Map Text FingerprintColumn → List FingerprintColumn → Type 0
Found m cs = All (λ (c : FingerprintColumn). lookup c.name m ≡ some c) cs

Found-cons :
    (c : FingerprintColumn) (m : Map Text FingerprintColumn) (cs : List FingerprintColumn)
    → Unlike c.name cs
    → Found m cs
    → Found ((c.name, c) ∷ m) cs
unfolding lookup
Found-cons c m [] n h = tt
Found-cons c m (d ∷ cs) (n, ns) (e, h) =
    (ap (λ b. if b then some c else lookup d.name m) n ∙ e, Found-cons c m cs ns h)

pub pairs-Found : (cs : List FingerprintColumn) → OneColumnEach cs → Found (pairs cs) cs
unfolding lookup
pairs-Found [] one = tt
pairs-Found (c ∷ cs) (unlike, one) = (
  ap (λ b. if b then some c else lookup c.name (pairs cs)) (==_refl c.name),
  Found-cons c (pairs cs) cs unlike (pairs-Found cs one),
)

-- Equal columns: nothing is missing or retyped.
column_eq-same : (o c : FingerprintColumn) → column_eq o c ≡ true → o ≡ c
column_eq-same o c h =
    let (n, types) = and_split (o.name == c.name) (same_type o c) h in
    let (oid, modifier) = and_split (o.type_oid == c.type_oid) (o.typmod == c.typmod) types in
    ap (λ x. record { name = x; type_oid = o.type_oid; typmod = o.typmod }) (==_eq o.name c.name n)
    ∙ ap (λ x. record { name = c.name; type_oid = x; typmod = o.typmod })
        (==_eq o.type_oid c.type_oid oid)
    ∙ ap (λ x. record { name = c.name; type_oid = c.type_oid; typmod = x })
        (==_eq o.typmod c.typmod modifier)

pub columns_eq-same : (os cs : List FingerprintColumn) → columns_eq os cs ≡ true → os ≡ cs
columns_eq-same [] [] h = refl
columns_eq-same [] (c ∷ cs) h = cc
columns_eq-same (o ∷ os) [] h = cc
columns_eq-same (o ∷ os) (c ∷ cs) h =
    let (first, rest) = and_split (column_eq o c) (columns_eq os cs) h in
    ap (λ x. x ∷ os) (column_eq-same o c first) ∙ ap (λ xs. c ∷ xs) (columns_eq-same os cs rest)

missing-Found :
    (kind : Text → Drift) (m : Map Text FingerprintColumn) (cs : List FingerprintColumn)
    → Found m cs
    → missing kind m (pairs cs) ≡ []
unfolding missing
missing-Found kind m [] h = refl
missing-Found kind m (c ∷ cs) (e, h) =
    ap (λ x. missing_one kind c.name x (missing kind m (pairs cs))) e ∙ missing-Found kind m cs h

pub both_refl : (a b : Bool) → a ≡ true → b ≡ true → (a && b) ≡ true
both_refl a b h k = ground arith

retypes-Found :
    (m : Map Text FingerprintColumn) (cs : List FingerprintColumn)
    → Found m cs
    → retypes m (pairs cs) ≡ []
unfolding retypes
retypes-Found m [] h = refl
retypes-Found m (c ∷ cs) (e, h) =
    ap (λ x. retype_one c.name c x (retypes m (pairs cs))) e
    ∙ ap (λ b. if b then retypes m (pairs cs) else retyped c.name c c ∷ retypes m (pairs cs))
        (both_refl (c.type_oid == c.type_oid) (c.typmod == c.typmod) (==_refl c.type_oid)
          (==_refl c.typmod))
    ∙ retypes-Found m cs h

pub columns_drift-same : (cs : List FingerprintColumn) → OneColumnEach cs → columns_drift cs cs ≡ []
columns_drift-same cs one =
    let found = pairs-Found cs one in
    ap (λ m. missing added m m ++ (missing dropped m m ++ retypes m m))
      (by_name-pairs cs [] one (nothing_taken cs))
    ∙ ap (λ x. x ++ (missing dropped (pairs cs) (pairs cs) ++ retypes (pairs cs) (pairs cs)))
        (missing-Found added (pairs cs) cs found)
    ∙ ap (λ x. x ++ retypes (pairs cs) (pairs cs)) (missing-Found dropped (pairs cs) cs found)
    ∙ retypes-Found (pairs cs) cs found
