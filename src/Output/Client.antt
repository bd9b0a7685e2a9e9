-- ===== src/Output/Client.antt =====
-- A reader of a shape's stream, which replays the envelopes of apps/engine/src/engine/output.rs.
use electric_circuits.Prelude.{
  ℕ, ◌≡◌, refl, ◌∙◌, sym, ap, Bool, true, false, not, ◌&&◌, ◌||◌, Option, none, some, List, [], ◌∷◌,
  ◌++◌, arith, ◌==◌, ==_eq, nat_ord, list_ord, if◌then◌else◌, keep_or, Map, lookup, member,
}
use electric_circuits.Value.{Text, Row}
use electric_circuits.Value.Encoding.{JsonLib}
use electric_circuits.Envelope.{Envelope}
use electric_circuits.Schema.Compile.{TableSchema}
use electric_circuits.Schema.Rows.{ObjectLib, row_to_json_cols}
use electric_circuits.Predicate.Ast.{Fault}
use electric_circuits.Output.Grouping.{last_plus, any_minus, group-Grouped}
use electric_circuits.Output.Codec.{Delta, suppressed, delete_op, upsert_envelope, delete_envelope}
use electric_circuits.Output.Translate.{
  Groups, is_some, seen, group, upserts, upsert_found, leaves, deletes, translate_output,
}

-- The rows that the reader holds, by key.
abbrev pub Client : Type 0 → Type 0
Client J = Text → Option J

abbrev pub receive : {J : Type 0} → Envelope J → Client J → Client J
receive env c k =
    if env.key == k then if env.headers.operation == delete_op then none else env.value else c k

unfoldable pub replay : {J : Type 0} → List (Envelope J) → Client J → Client J
replay [] c = c
replay (env ∷ envs) c = replay envs (receive env c)

replay-append :
    {J : Type 0} (xs ys : List (Envelope J)) (c : Client J)
    → replay (xs ++ ys) c ≡ replay ys (replay xs c)
unfolding replay
replay-append [] ys c = refl
replay-append (x ∷ xs) ys c = replay-append xs ys (receive x c)

goes :
    {J : Type 0} (m b l : Bool) (j : Option J)
    → (b ≡ true → l ≡ true)
    → (if m && l then none else if b then none else j)
      ≡ (if (if b then true else m) && l then none else j)
goes true true l j h = rw (h refl) refl
goes false true l j h = rw (h refl) refl
goes m false l j h = refl

stays :
    {J : Type 0} (m b l : Bool) (j : Option J)
    → (b ≡ true → l ≡ false)
    → (if m && l then none else j) ≡ (if (if b then true else m) && l then none else j)
stays m true l j h = rw (h refl) (ground arith)
stays m false l j h = refl

module _ {J F : Type 0} (lib : JsonLib J F) (objects : ObjectLib J) (ts : TableSchema) where
  abbrev pub shown : Option (List ℕ) → Option (Row F) → Option J → Option J
  shown cols none j = j
  shown cols (some row) j = some (row_to_json_cols lib objects ts row cols)

  -- What a delta makes of what the reader holds of a key.
  abbrev pub settled : Option (List ℕ) → Option (Row F) → Bool → Option J → Option J
  settled cols (some row) gone j = some (row_to_json_cols lib objects ts row cols)
  settled cols none gone j = if gone then none else j

  not_found :
      (cols : Option (List ℕ)) (m b : Bool) (o : Option (Row F)) (j : Option J)
      → (b ≡ true → o ≡ none)
      → (if m then shown cols o j else j) ≡ (if (if b then true else m) then shown cols o j else j)
  not_found cols true true o j h = refl
  not_found cols true false o j h = refl
  not_found cols false false o j h = refl
  not_found cols false true o j h = ap (λ x. shown cols x j) (sym (h refl))

  just_found :
      (cols : Option (List ℕ)) (m b : Bool) (row : Row F) (o : Option (Row F)) (j : Option J)
      → (b ≡ true → o ≡ some row)
      → (if m
          then shown cols o (if b then shown cols (some row) j else j)
          else if b
          then shown cols (some row) j
          else j)
        ≡ (if (if b then true else m) then shown cols o j else j)
  just_found cols true true row o j h = rw (h refl) refl
  just_found cols false true row o j h = rw (h refl) refl
  just_found cols true false row o j h = refl
  just_found cols false false row o j h = refl

  settle_lem :
      (cols : Option (List ℕ)) (m n s : Bool) (o : Option (Row F)) (j : Option J)
      → s ≡ false
      → ((is_some o || n) ≡ true → m ≡ true)
      → (if m && (n && not (is_some o || s)) then none else if m then shown cols o j else j)
        ≡ settled cols o n j
  settle_lem cols m n true o j e h = absurd (ground arith)
  settle_lem cols m true false (some row) j e h = rw (h refl) refl
  settle_lem cols m false false (some row) j e h = rw (h refl) refl
  settle_lem cols m true false none j e h = rw (h refl) refl
  settle_lem cols true false false none j e h = refl
  settle_lem cols false false false none j e h = refl

  module _ (fault : Fault) (txid lsn : Option Text) (cols : Option (List ℕ)) where
    replay-upserts :
        (order : List Text) (plus : Map Text (Row F)) (c : Client J) (k : Text)
        → replay (upserts lib objects ts fault txid lsn cols order plus) c k
          ≡ (if member k order then shown cols (lookup k plus) (c k) else c k)
    unfolding replay upserts member
    replay-upserts [] plus c k = refl
    replay-upserts (pk ∷ order) plus c k = found (lookup pk plus) refl (replay-upserts order plus)
      where
        found :
            (o : Option (Row F))
            → lookup pk plus ≡ o
            → ((c : Client J) (k : Text)
                → replay (upserts lib objects ts fault txid lsn cols order plus) c k
                  ≡ (if member k order then shown cols (lookup k plus) (c k) else c k))
            → replay
                (upsert_found lib objects ts fault txid lsn cols pk o
                  (upserts lib objects ts fault txid lsn cols order plus))
                c
                k
              ≡ (if (if pk == k then true else member k order)
                  then shown cols (lookup k plus) (c k)
                  else c k)
        found none e ih =
            ih c k
            ∙ not_found cols (member k order) (pk == k) (lookup k plus) (c k)
                (λ same. ap (λ x. lookup x plus) (sym (==_eq pk k same)) ∙ e)
        found (some row) e ih =
            ih (receive (upsert_envelope lib objects ts pk row txid lsn cols) c) k
            ∙ just_found cols (member k order) (pk == k) row (lookup k plus) (c k)
                (λ same. ap (λ x. lookup x plus) (sym (==_eq pk k same)) ∙ e)

    replay-deletes :
        (order : List Text) (g : Groups F) (c : Client J) (k : Text)
        → replay (deletes lib objects ts fault txid lsn cols order g) c k
          ≡ (if member k order && leaves lib objects ts fault txid lsn cols g k then none else c k)
    unfolding replay deletes member
    replay-deletes [] g c k = refl
    replay-deletes (pk ∷ order) g c k =
        gone (leaves lib objects ts fault txid lsn cols g pk) refl (replay-deletes order g)
      where
        same_leaves :
            (pk == k) ≡ true
            → leaves lib objects ts fault txid lsn cols g k
              ≡ leaves lib objects ts fault txid lsn cols g pk
        same_leaves e = ap (leaves lib objects ts fault txid lsn cols g) (sym (==_eq pk k e))

        gone :
            (b : Bool)
            → leaves lib objects ts fault txid lsn cols g pk ≡ b
            → ((c : Client J) (k : Text)
                → replay (deletes lib objects ts fault txid lsn cols order g) c k ≡ (
                    if member k order && leaves lib objects ts fault txid lsn cols g k
                    then none
                    else c k))
            → replay
                (if b
                  then delete_envelope lib objects ts pk txid lsn
                    ∷ deletes lib objects ts fault txid lsn cols order g
                  else deletes lib objects ts fault txid lsn cols order g)
                c
                k
              ≡ (if (if pk == k then true else member k order)
                    && leaves lib objects ts fault txid lsn cols g k
                  then none
                  else c k)
        gone true e ih =
            ih (receive (delete_envelope lib objects ts pk txid lsn) c) k
            ∙ goes (member k order) (pk == k) (leaves lib objects ts fault txid lsn cols g k) (c k)
                (λ s. same_leaves s ∙ e)
        gone false e ih =
            ih c k
            ∙ stays (member k order) (pk == k) (leaves lib objects ts fault txid lsn cols g k) (c k)
                (λ s. same_leaves s ∙ e)

    -- Where the fault is not injected, a reader that replays the envelopes of a delta holds, of each
    -- key with a row of positive weight, the last such row; nothing of a key that has only rows of
    -- negative weight; and what it held of any other key.
    pub translate_output-replay :
        (out : Delta F) (c : Client J) (k : Text)
        → suppressed fault ≡ false
        → replay (translate_output lib objects ts fault txid lsn cols out) c k
          ≡ settled cols (last_plus lib objects ts k out) (any_minus lib objects ts k out) (c k)
    unfolding translate_output lookup member
    translate_output-replay out c k on =
        let g = group lib objects ts out (record { plus = []; minus = []; order = [] }) in
        let (covers, plus, minus) =
          group-Grouped lib objects ts out (record { plus = []; minus = []; order = [] })
            (λ j s. absurd (nothing_seen j s)) in
        ap (λ f. f k)
          (replay-append (upserts lib objects ts fault txid lsn cols g.order g.plus)
            (deletes lib objects ts fault txid lsn cols g.order g) c)
        ∙ replay-deletes g.order g
            (replay (upserts lib objects ts fault txid lsn cols g.order g.plus) c) k
        ∙ ap
            (λ j.
              if member k g.order && leaves lib objects ts fault txid lsn cols g k then none else j)
            (replay-upserts g.order g.plus c k)
        ∙ settle_lem cols (member k g.order) (member k g.minus) (suppressed fault) (lookup k g.plus)
            (c k) on (covers k)
        ∙ ap (λ o. settled cols o (member k g.minus) (c k))
            (plus k ∙ keep_empty (last_plus lib objects ts k out))
        ∙ ap (λ b. settled cols (last_plus lib objects ts k out) b (c k))
            (minus k ∙ or_empty (any_minus lib objects ts k out))
      where
        nothing_seen :
            (j : Text) → seen {F = F} j (record { plus = []; minus = []; order = [] }) ≡ true → ⊥
        nothing_seen j s = cc

        keep_empty : (o : Option (Row F)) → keep_or o (lookup k []) ≡ o
        keep_empty none = refl
        keep_empty (some row) = refl

        or_empty : (b : Bool) → (b || member k []) ≡ b
        or_empty true = refl
        or_empty false = refl
