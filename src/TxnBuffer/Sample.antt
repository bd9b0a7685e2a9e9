-- ===== src/TxnBuffer/Sample.antt =====
-- The serializer of the examples, for envelopes whose values are numbers: it writes each number as
-- a byte of its own, moved past the newline.
use electric_circuits.Prelude.{
  ℕ, zero, suc, ◌+◌, ◌-◌, ◌≡◌, ◌∙◌, ap, refl, sym, Bool, true, false, Option, none, some, List, [],
  ◌∷◌, ◌++◌, map, length, All, ◌==◌, nat_ord, arith, append_assoc, append_nil,
}
use electric_circuits.Value.{Text}
use electric_circuits.Envelope.{Envelope}
use electric_circuits.PgOutput.Decode.{Read, bind, take}
use electric_circuits.PgOutput.Fields.{step, take-append}
use electric_circuits.TxnBuffer.Wire.{Serde, Bytes, newline}

-- A value written as numbers, and read back with what follows it.
pub record Codec (A : Type 0) : Type 0 where
  pub put : A → List ℕ
  pub get : List ℕ → Read A
  pub get-put : (a : A) (rest : List ℕ) → get (put a ++ rest) ≡ some (a, rest)

abbrev get_text : List ℕ → Read Text
get_text [] = none
get_text (n ∷ bs) = take n bs

-- A text is preceded by its length.
abbrev text_codec : Codec Text
text_codec = record {
  put = λ t. length t ∷ t;
  get = get_text;
  get-put = λ t rest. take-append t rest;
}

abbrev get_nat : List ℕ → Read ℕ
get_nat [] = none
get_nat (n ∷ bs) = some (n, bs)

abbrev nat_codec : Codec ℕ
nat_codec = record { put = λ n. n ∷ []; get = get_nat; get-put = λ n rest. refl }

abbrev put_bool : Bool → List ℕ
put_bool false = 0 ∷ []
put_bool true = 1 ∷ []

abbrev get_bool : List ℕ → Read Bool
get_bool [] = none
get_bool (zero ∷ bs) = some (false, bs)
get_bool (suc n ∷ bs) = some (true, bs)

pub get_bool-put : (b : Bool) (rest : List ℕ) → get_bool (put_bool b ++ rest) ≡ some (b, rest)
get_bool-put true rest = refl
get_bool-put false rest = refl

abbrev bool_codec : Codec Bool
bool_codec = record { put = put_bool; get = get_bool; get-put = get_bool-put }

module _ {A : Type 0} (c : Codec A) where
  abbrev put_option : Option A → List ℕ
  put_option none = 0 ∷ []
  put_option (some a) = 1 ∷ c.put a

  abbrev get_option : List ℕ → Read (Option A)
  get_option [] = none
  get_option (zero ∷ bs) = some (none, bs)
  get_option (suc n ∷ bs) = bind (c.get bs) (λ a rest. some (some a, rest))

  pub get_option-put :
      (o : Option A) (rest : List ℕ) → get_option (put_option o ++ rest) ≡ some (o, rest)
  get_option-put none rest = refl
  get_option-put (some a) rest = step _ (c.get-put a rest) refl

  abbrev option_codec : Codec (Option A)
  option_codec = record { put = put_option; get = get_option; get-put = get_option-put }

-- Two values in a row.
module _ {A B : Type 0} (c : Codec A) (d : Codec B) where
  abbrev put_pair : A × B → List ℕ
  put_pair p = c.put p.0 ++ d.put p.1

  abbrev get_pair : List ℕ → Read (A × B)
  get_pair bs = bind (c.get bs) (λ a rest. bind (d.get rest) (λ b more. some ((a, b), more)))

  pub get_pair-put : (p : A × B) (rest : List ℕ) → get_pair (put_pair p ++ rest) ≡ some (p, rest)
  get_pair-put p rest =
      ap get_pair (append_assoc (c.put p.0) (d.put p.1) rest)
      ∙ step _ (c.get-put p.0 (d.put p.1 ++ rest)) (step _ (d.get-put p.1 rest) refl)

  abbrev pair_codec : Codec (A × B)
  pair_codec = record { put = put_pair; get = get_pair; get-put = get_pair-put }

abbrev Words : Type 0
Words = Option Text × (Option Text × (Option Text × (Option ℕ × Option Bool)))

abbrev Fields : Type 0
Fields = (Text × (Text × (Option ℕ × (Option ℕ × Text)))) × Words

abbrev words_codec : Codec Words
words_codec = pair_codec (option_codec text_codec) (
    pair_codec (option_codec text_codec) (
      pair_codec (option_codec text_codec)
        (pair_codec (option_codec nat_codec) (option_codec bool_codec))))

abbrev fields_codec : Codec Fields
fields_codec =
    pair_codec
      (pair_codec text_codec (
        pair_codec text_codec
          (pair_codec (option_codec nat_codec) (pair_codec (option_codec nat_codec) text_codec))))
      words_codec

abbrev fields_of : Envelope ℕ → Fields
fields_of e = (
  (e.type_, (e.key, (e.value, (e.old, e.headers.operation)))),
  (e.headers.txid, (e.headers.offset, (e.headers.lsn, (e.headers.seq, e.headers.last)))),
)

abbrev of_fields : Fields → Envelope ℕ
of_fields (a, b) = record {
  type_ = a.0;
  key = a.1.0;
  value = a.1.1.0;
  old = a.1.1.1.0;
  headers = record {
    operation = a.1.1.1.1;
    txid = b.0;
    offset = b.1.0;
    lsn = b.1.1.0;
    seq = b.1.1.1.0;
    last = b.1.1.1.1;
  };
}

abbrev shift : ℕ → ℕ
shift n = n + 11

abbrev unshift : ℕ → ℕ
unshift n = n - 11

unshift_one : (n : ℕ) → unshift (shift n) ≡ n
unshift_one n = omega arith

unshift-shift : (ns : List ℕ) → map unshift (map shift ns) ≡ ns
unshift-shift [] = refl
unshift-shift (n ∷ ns) =
    ap (◌∷ map unshift (map shift ns)) (unshift_one n) ∙ ap (n ∷◌) (unshift-shift ns)

pub shift_one_line : (ns : List ℕ) → All (λ c. (c == newline) ≡ false) (map shift ns)
shift_one_line [] = tt
shift_one_line (n ∷ ns) = (ground arith, shift_one_line ns)

abbrev parsed : Option (Fields × List ℕ) → Option (Envelope ℕ)
parsed none = none
parsed (some (fields, rest)) = some (of_fields fields)

abbrev bytes_of : Envelope ℕ → Bytes
bytes_of e = map shift (fields_codec.put (fields_of e))

abbrev parse : Bytes → Option (Envelope ℕ)
parse bs = parsed (fields_codec.get (map unshift bs))

pub parse-bytes_of : (e : Envelope ℕ) → parse (bytes_of e) ≡ some e
parse-bytes_of e =
    let fields = fields_of e in
    ap (λ ns. parsed (fields_codec.get ns))
      (unshift-shift (fields_codec.put fields) ∙ sym (append_nil (fields_codec.put fields)))
    ∙ ap parsed (fields_codec.get-put fields [])

abbrev pub a_serde : Serde ℕ
a_serde = record {
  to_vec = bytes_of;
  from_slice = parse;
  from_to = parse-bytes_of;
  one_line = λ e. shift_one_line (fields_codec.put (fields_of e));
  memory_bytes = λ e. 1;
}
