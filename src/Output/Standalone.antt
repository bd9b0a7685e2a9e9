-- ===== src/Output/Standalone.antt =====
-- apps/engine/src/engine/executors.rs, `eval_standalone`, between `apply_envelope` and
-- `translate_output` of output.rs: from a change of the table to the stream of a shape.
use electric_circuits.Prelude.{
  true_false, ℕ, ◌≡◌, refl, ◌∙◌, sym, ap, ◌⊎◌, inl, inr, true, false, Option, none, some, List, [],
  ◌∷◌, filter, Ord, ◌==◌, ==_eq, nat_ord, list_ord, if◌then◌else◌, Bool-cases, some_inj,
}
use electric_circuits.Value.{pos, negsuc, Text, Row, value_ord}
use electric_circuits.Value.Encoding.{JsonLib, JsonLaws}
use electric_circuits.Envelope.{Envelope}
use electric_circuits.Schema.Compile.{TableSchema, DistinctNames}
use electric_circuits.Schema.Rows.{
  ObjectLib, ObjectLaws, key_string, row_to_json_cols, RowTyped, row_from_json-row_to_json,
}
use electric_circuits.Predicate.Ast.{Fault, CompiledPredicate}
use electric_circuits.Predicate.Eval.{matches}
use electric_circuits.Output.Codec.{
  Delta, insert_op, update_op, delete_op, suppressed, to_row, apply_envelope,
}
use electric_circuits.Output.Translate.{translate_output}
use electric_circuits.Output.Grouping.{last_plus, any_minus}
use electric_circuits.Output.Client.{Client, replay, settled, translate_output-replay}

-- A change of one row of the table, as PostgreSQL reports it with `REPLICA IDENTITY FULL`.
pub data Change (F : Type 0) : Type 0 where
  inserted : Row F → Change F
  updated : Row F → Row F → Change F
  deleted : Row F → Change F

abbrev pub Table : Type 0 → Type 0
Table F = Text → Option (Row F)

module _ {F : Type 0} ⦃o : Ord F⦄ where
  unfoldable pub eval_standalone : Fault → CompiledPredicate F → Delta F → Delta F
  eval_standalone f pred delta = filter (λ t. matches f pred t.0) delta

module _ {J F : Type 0} ⦃o : Ord F⦄ (lib : JsonLib J F) (objects : ObjectLib J)
    (ts : TableSchema) where
  -- The envelope that the change log has for a change.
  abbrev pub Describes : Change F → Envelope J → Type 0
  Describes (inserted new) env =
      (env.headers.operation ≡ insert_op)
      × (env.value ≡ some (row_to_json_cols lib objects ts new none))
      × (env.old ≡ none)
      × RowTyped lib new ts.columns
  Describes (updated old new) env =
      (env.headers.operation ≡ update_op)
      × (env.value ≡ some (row_to_json_cols lib objects ts new none))
      × (env.old ≡ some (row_to_json_cols lib objects ts old none))
      × RowTyped lib new ts.columns
      × RowTyped lib old ts.columns
  Describes (deleted old) env =
      (env.headers.operation ≡ delete_op)
      × (env.old ≡ some (row_to_json_cols lib objects ts old none))
      × RowTyped lib old ts.columns

  abbrev pub change_delta : Change F → Delta F
  change_delta (inserted new) = (new, pos 1) ∷ []
  change_delta (updated old new) = if old == new then [] else (old, negsuc 0) ∷ (new, pos 1) ∷ []
  change_delta (deleted old) = (old, negsuc 0) ∷ []

  -- What a change makes of the table, whose keys are unique.
  abbrev pub Applies : Change F → Table F → Table F → Type 0
  Applies (inserted new) t t' =
      (k : Text) × (key_string lib ts new ≡ some k)
      × (t k ≡ none)
      × ((q : Text) → t' q ≡ (if k == q then some new else t q))
  Applies (updated old new) t t' =
      (k : Text) × (j : Text) × (key_string lib ts new ≡ some k)
      × (key_string lib ts old ≡ some j)
      × (t j ≡ some old)
      × ((t k ≡ none) ⊎ (j ≡ k))
      × ((q : Text) → t' q ≡ (if k == q then some new else if j == q then none else t q))
  Applies (deleted old) t t' =
      (j : Text) × (key_string lib ts old ≡ some j)
      × (t j ≡ some old)
      × ((q : Text) → t' q ≡ (if j == q then none else t q))

  to_row-row_to_json :
      (row : Row F)
      → JsonLaws lib
      → ObjectLaws objects
      → DistinctNames ts.columns
      → RowTyped lib row ts.columns
      → to_row lib objects ts (row_to_json_cols lib objects ts row none) ≡ some row
  to_row-row_to_json row laws object_laws distinct typed =
      row_from_json-row_to_json lib objects ts row laws object_laws distinct typed

  apply_envelope-Describes :
      (ch : Change F) (env : Envelope J)
      → JsonLaws lib
      → ObjectLaws objects
      → DistinctNames ts.columns
      → Describes ch env
      → apply_envelope lib objects ts env
        ≡ some (change_delta ch, env.headers.txid, env.headers.lsn)
  unfolding apply_envelope
  apply_envelope-Describes (inserted new) env laws object_laws distinct (op, value, old, typed) =
      rw op (rw value (rw (to_row-row_to_json new laws object_laws distinct typed) (rw old refl)))
  apply_envelope-Describes (updated old new) env laws object_laws distinct
        (op, value, was, tn, told) =
      rw op (
        rw value (
          rw (to_row-row_to_json new laws object_laws distinct tn)
            (rw was (rw (to_row-row_to_json old laws object_laws distinct told) refl))))
  apply_envelope-Describes (deleted old) env laws object_laws distinct (op, was, told) =
      rw op (rw was (rw (to_row-row_to_json old laws object_laws distinct told) refl))

  module _ (fault : Fault) (pred : CompiledPredicate F) (cols : Option (List ℕ)) where
    abbrev pub visible : Option (Row F) → Option J
    visible none = none
    visible (some row) =
        if matches fault pred row then some (row_to_json_cols lib objects ts row cols) else none

    -- The reader holds the rows of the table that match, and no others.
    abbrev pub Shows : Table F → Client J → Type 0
    Shows t c = (k : Text) → c k ≡ visible (t k)

    abbrev settles : Delta F → Text → Option J → Option J
    settles out k j =
        settled lib objects ts cols (last_plus lib objects ts k out)
          (any_minus lib objects ts k out) j

    -- What the matching part of a delta of one or two rows makes of a key.
    settles_new :
        (new : Row F) (n k : Text) (j : Option J)
        → key_string lib ts new ≡ some n
        → settles (eval_standalone fault pred ((new, pos 1) ∷ [])) k j
          ≡ (if n == k then if matches fault pred new then visible (some new) else j else j)
    unfolding eval_standalone last_plus any_minus
    settles_new new n k j kn = elim (Bool-cases (matches fault pred new)) [
      | inl m ↦ rw m (rw kn (elim (Bool-cases (n == k)) [ inl e ↦ rw e refl | inr e ↦ rw e refl ]))
      | inr m ↦ rw m (elim (Bool-cases (n == k)) [ inl e ↦ rw e refl | inr e ↦ rw e refl ])
    ]

    settles_old :
        (old : Row F) (n k : Text) (j : Option J)
        → key_string lib ts old ≡ some n
        → settles (eval_standalone fault pred ((old, negsuc 0) ∷ [])) k j
          ≡ (if n == k then if matches fault pred old then none else j else j)
    unfolding eval_standalone last_plus any_minus
    settles_old old n k j ko = elim (Bool-cases (matches fault pred old)) [
      | inl m ↦ rw m (rw ko (elim (Bool-cases (n == k)) [ inl e ↦ rw e refl | inr e ↦ rw e refl ]))
      | inr m ↦ rw m (elim (Bool-cases (n == k)) [ inl e ↦ rw e refl | inr e ↦ rw e refl ])
    ]

    settles_both :
        (old new : Row F) (m n k : Text) (j : Option J)
        → key_string lib ts old ≡ some m
        → key_string lib ts new ≡ some n
        → settles (eval_standalone fault pred ((old, negsuc 0) ∷ (new, pos 1) ∷ [])) k j
          ≡ settles
              (eval_standalone fault pred ((new, pos 1) ∷ []))
              k
              (settles (eval_standalone fault pred ((old, negsuc 0) ∷ [])) k j)
    unfolding eval_standalone last_plus any_minus
    settles_both old new m n k j ko kn = elim (Bool-cases (matches fault pred old)) [
      | inl mo ↦ (elim (Bool-cases (matches fault pred new)) [
        | inl mn ↦ rw mo (
            rw mn (
              rw ko (
                rw kn (elim (Bool-cases (n == k)) [
                  | inl e ↦ rw e refl
                  | inr e ↦
                      rw e (elim (Bool-cases (m == k)) [ inl d ↦ rw d refl | inr d ↦ rw d refl ])
                ]))))
        | inr mn ↦ rw mo (rw mn refl)
      ])
      | inr mo ↦ rw mo refl
    ]

    -- Where the old row of the key is gone, the reader has nothing of the key.
    old_gone :
        (old : Row F) (t : Table F) (m k : Text)
        → t m ≡ some old
        → (m == k) ≡ true
        → (if matches fault pred old then none else visible (t k)) ≡ none
    old_gone old t m k was e = elim (Bool-cases (matches fault pred old)) [
      | inl mo ↦ rw mo refl
      | inr mo ↦ rw mo (ap (λ x. visible (t x)) (sym (==_eq m k e)) ∙ ap visible was ∙ rw mo refl)
    ]

    without_old :
        (old : Row F) (t : Table F) (m k : Text)
        → t m ≡ some old
        → (if m == k then if matches fault pred old then none else visible (t k) else visible (t k))
          ≡ visible (if m == k then none else t k)
    without_old old t m k was = elim (Bool-cases (m == k)) [
      | inl e ↦ rw e (old_gone old t m k was e)
      | inr e ↦ rw e refl
    ]

    with_new :
        (new : Row F) (n k : Text) (rest : Option (Row F))
        → ((n == k) ≡ true → visible rest ≡ none)
        → (if n == k
            then if matches fault pred new then visible (some new) else visible rest
            else visible rest)
          ≡ visible (if n == k then some new else rest)
    with_new new n k rest h = elim (Bool-cases (n == k)) [
      | inl e ↦ (elim (Bool-cases (matches fault pred new)) [
        | inl mn ↦ rw e (rw mn refl)
        | inr mn ↦ rw e (rw mn (h e))
      ])
      | inr e ↦ rw e refl
    ]

    settles-updated :
        (old new : Row F) (t t' : Table F) (k : Text)
        → Applies (updated old new) t t'
        → settles
            (eval_standalone fault pred ((old, negsuc 0) ∷ (new, pos 1) ∷ []))
            k
            (visible (t k))
          ≡ visible (t' k)
    settles-updated old new t t' k (n, m, kn, ko, was, free, after) =
        settles_both old new m n k (visible (t k)) ko kn
        ∙ ap (settles (eval_standalone fault pred ((new, pos 1) ∷ [])) k)
            (settles_old old m k (visible (t k)) ko ∙ without_old old t m k was)
        ∙ settles_new new n k (visible (if m == k then none else t k)) kn
        ∙ with_new new n k (if m == k then none else t k) (λ e. elim (Bool-cases (m == k)) [
          | inl d ↦ rw d refl
          | inr d ↦ rw d (elim free [
            | inl f ↦ ap (λ x. visible (t x)) (sym (==_eq n k e)) ∙ ap visible f
            | inr s ↦ absurd (true_false (ap (λ x. x == k) s ∙ e) d)
          ])
        ])
        ∙ ap visible (sym (after k))

    unchanged :
        (old new : Row F) (t t' : Table F) (k : Text)
        → old ≡ new
        → Applies (updated old new) t t'
        → settles (eval_standalone fault pred []) k (visible (t k)) ≡ visible (t' k)
    unfolding eval_standalone last_plus any_minus
    unchanged old new t t' k same (n, m, kn, ko, was, free, after) =
        let keys = some_inj (sym ko ∙ ap (key_string lib ts) same ∙ kn) in
        ap visible (
          (elim (Bool-cases (n == k)) [
            | inl e ↦ rw e (ap t (sym (keys ∙ ==_eq n k e)) ∙ was ∙ ap some same)
            | inr e ↦ rw e (rw (ap (λ x. x == k) keys ∙ e) refl)
          ])
          ∙ sym (after k))

    settles-visible :
        (ch : Change F) (t t' : Table F) (k : Text)
        → Applies ch t t'
        → settles (eval_standalone fault pred (change_delta ch)) k (visible (t k)) ≡ visible (t' k)
    unfolding eval_standalone last_plus any_minus
    settles-visible (inserted new) t t' k (j, kn, free, after) =
        settles_new new j k (visible (t k)) kn
        ∙ with_new new j k (t k)
            (λ e. ap (λ x. visible (t x)) (sym (==_eq j k e)) ∙ ap visible free)
        ∙ ap visible (sym (after k))
    settles-visible (updated old new) t t' k a = elim (Bool-cases (old == new)) [
      | inl e ↦ rw e (unchanged old new t t' k (==_eq old new e) a)
      | inr e ↦ rw e (settles-updated old new t t' k a)
    ]
    settles-visible (deleted old) t t' k (j, ko, was, after) =
        settles_old old j k (visible (t k)) ko
        ∙ without_old old t j k was
        ∙ ap visible (sym (after k))

    -- Where the JSON library behaves as documented and no fault is injected: if a reader holds
    -- exactly the rows of the table that match the predicate, and the change log has the envelope of
    -- a change of the table, then the envelope gives a delta, and after the envelopes that the delta
    -- comes to for the shape the reader holds exactly the rows of the changed table that match.
    pub stream-follows_table :
        (ch : Change F) (env : Envelope J) (t t' : Table F) (c : Client J) (txid lsn : Option Text)
        → JsonLaws lib
        → ObjectLaws objects
        → DistinctNames ts.columns
        → suppressed fault ≡ false
        → Describes ch env
        → Applies ch t t'
        → Shows t c
        → (delta : Delta F) × (apply_envelope lib objects ts env
            ≡ some (delta, env.headers.txid, env.headers.lsn))
          × Shows t' (
              replay
                (translate_output lib objects ts fault txid lsn cols
                  (eval_standalone fault pred delta))
                c)
    stream-follows_table ch env t t' c txid lsn laws object_laws distinct on described applied
          shows =
        (
          change_delta ch,
          apply_envelope-Describes ch env laws object_laws distinct described,
          λ k.
              translate_output-replay lib objects ts fault txid lsn cols
                (eval_standalone fault pred (change_delta ch)) c k on
              ∙ ap (settles (eval_standalone fault pred (change_delta ch)) k) (shows k)
              ∙ settles-visible ch t t' k applied,
        )
