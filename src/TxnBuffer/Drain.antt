-- ===== src/TxnBuffer/Drain.antt =====
-- apps/engine/src/txn_buffer.rs, `TxnDrain`: the buffered envelopes in order, stamped and packed
-- into chunks. `none` is an error: a line of the file that does not parse, or no fuel.
use electric_circuits.Prelude.{
  ℕ, zero, suc, ◌+◌, Bool, true, false, Option, none, some, List, [], ◌∷◌, ◌++◌, length, ltb, ◌==◌,
  nat_ord, if◌then◌else◌,
}
use electric_circuits.Envelope.{Envelope}
use electric_circuits.TxnBuffer.Wire.{Serde, Bytes, newline}
use electric_circuits.TxnBuffer.Buffer.{Stamp, TxnBuffer}

abbrev pub stamp_bytes : ℕ
stamp_bytes = 96

-- What is left of the memory vector from `idx` on, or of the file behind the reader.
pub record TxnDrain (J : Type 0) : Type 0 where
  pub mem : List (Envelope J)
  pub reader : Option Bytes
  pub stamp : Stamp
  pub seq : ℕ
  pub budget : ℕ
  pub pending : Option (Envelope J × ℕ)
  pub exhausted : Bool

module _ {J : Type 0} where
  unfoldable pub drain : TxnBuffer J → Stamp → TxnDrain J
  drain buf stamp = record {
    mem = buf.mem;
    reader = elim buf.spill [ none ↦ none | some s ↦ some s.file ];
    stamp = stamp;
    seq = 0;
    budget = buf.cfg.append_bytes;
    pending = none;
    exhausted = false;
  }

  abbrev pub stamp_env : Stamp → ℕ → Envelope J → Envelope J
  stamp_env stamp seq e = record e {
    headers = record e.headers { lsn = some stamp.lsn; txid = some stamp.txid; seq = some seq };
  }

  abbrev pub set_last : Envelope J → Envelope J
  set_last e = record e { headers = record e.headers { last = some true } }

  -- `chunk.last_mut()`, marked.
  unfoldable pub mark_last : List (Envelope J) → List (Envelope J)
  mark_last [] = []
  mark_last (e ∷ []) = set_last e ∷ []
  mark_last (e ∷ e' ∷ es) = e ∷ mark_last (e' ∷ es)

-- `read_until(b'\n')` with the newline popped: a line, and what follows it.
unfoldable pub split_line : Bytes → Bytes × Bytes
split_line [] = ([], [])
split_line (c ∷ cs) =
    let (taken, rest) = split_line cs in if c == newline then ([], cs) else (c ∷ taken, rest)

abbrev pub is_empty {ℓ} : {A : Type ℓ} → List A → Bool
is_empty [] = true
is_empty (x ∷ xs) = false

-- What the drain reads: an envelope of the memory, or a line of the file.
pub data Raw (J : Type 0) : Type 0 where
  env : Envelope J → Raw J
  line : Bytes → Raw J

module _ {J : Type 0} (serde : Serde J) where
  abbrev pub read_raw : Bytes → TxnDrain J → Option (Raw J) × TxnDrain J
  read_raw [] d = (none, d)
  read_raw (c ∷ cs) d =
      let (taken, rest) = split_line (c ∷ cs) in
      (some (Raw.line taken), record d { reader = some rest })

  abbrev pub mem_raw : List (Envelope J) → TxnDrain J → Option (Raw J) × TxnDrain J
  mem_raw [] d = (none, d)
  mem_raw (e ∷ es) d = (some (Raw.env e), record d { mem = es })

  unfoldable pub next_raw : TxnDrain J → Option (Raw J) × TxnDrain J
  unfolding split_line
  next_raw d = elim d.reader [ some bytes ↦ read_raw bytes d | none ↦ mem_raw d.mem d ]

  -- The envelope and its serialized size.
  abbrev pub parse_raw : Raw J → Option (Envelope J × ℕ)
  parse_raw (Raw.env e) = some (e, length (serde.to_vec e))
  parse_raw (Raw.line bytes) = elim (serde.from_slice bytes) [
    | none ↦ none
    | some e ↦ some (e, length bytes)
  ]

  abbrev pub stamp_next :
      Option (Envelope J × ℕ) → TxnDrain J → Option (Option (Envelope J × ℕ) × TxnDrain J)
  stamp_next none d = none
  stamp_next (some (e, len)) d =
      some (some (stamp_env d.stamp d.seq e, len), record d { seq = d.seq + 1 })

  abbrev pub stamp_raw : Option (Raw J) × TxnDrain J → Option (Option (Envelope J × ℕ) × TxnDrain J)
  stamp_raw (none, d) = some (none, d)
  stamp_raw (some r, d) = stamp_next (parse_raw r) d

  unfoldable pub next_stamped : TxnDrain J → Option (Option (Envelope J × ℕ) × TxnDrain J)
  unfolding next_raw
  next_stamped d = stamp_raw (next_raw d)

  unfoldable pub take_item : TxnDrain J → Option (Option (Envelope J × ℕ) × TxnDrain J)
  unfolding next_stamped
  take_item d = elim d.pending [
    | some p ↦ some (some p, record d { pending = none })
    | none ↦ next_stamped d
  ]

  abbrev pub cost : List (Envelope J) → ℕ → ℕ
  cost chunk len = len + stamp_bytes + (if is_empty chunk then 0 else 1)

  -- The chunk is full: it holds something, and the next envelope would pass the budget.
  abbrev pub is_full : ℕ → ℕ → List (Envelope J) → ℕ → Bool
  is_full budget body chunk len =
      if is_empty chunk then false else ltb budget (body + cost chunk len)

  -- One round of the loop of `next_chunk`, on what `take_item` gave; `next` is the next round.
  abbrev pub fill_item :
      (TxnDrain J → List (Envelope J) → ℕ → Option (List (Envelope J) × TxnDrain J))
      → ℕ
      → List (Envelope J)
      → ℕ
      → Option (Option (Envelope J × ℕ) × TxnDrain J)
      → Option (List (Envelope J) × TxnDrain J)
  fill_item next budget chunk body none = none
  fill_item next budget chunk body (some (none, d)) = some (chunk, record d { exhausted = true })
  fill_item next budget chunk body (some (some (e, len), d)) =
      if is_full budget body chunk len
      then some (chunk, record d { pending = some (e, len) })
      else next d (chunk ++ e ∷ []) (body + cost chunk len)

  unfoldable pub fill :
      ℕ → TxnDrain J → List (Envelope J) → ℕ → Option (List (Envelope J) × TxnDrain J)
  unfolding take_item
  fill zero d chunk body = none
  fill (suc n) d chunk body = fill_item (fill n) d.budget chunk body (take_item d)

  abbrev pub remaining : TxnDrain J → ℕ
  remaining d = elim d.reader [ some bytes ↦ length bytes | none ↦ length d.mem ]

  abbrev pub finish :
      Option (List (Envelope J) × TxnDrain J) → Option (Option (List (Envelope J)) × TxnDrain J)
  finish none = none
  finish (some ([], d)) = some (none, d)
  finish (some (e ∷ es, d)) = some (some (if d.exhausted then mark_last (e ∷ es) else e ∷ es), d)

  -- The fuel: what is left to read, the pending envelope, and the end.
  unfoldable pub next_chunk : TxnDrain J → Option (Option (List (Envelope J)) × TxnDrain J)
  unfolding fill mark_last
  next_chunk d = finish (fill (suc (remaining d + 2)) d [] 2)

  abbrev pub chunk_item :
      (TxnDrain J → Option (List (List (Envelope J))))
      → Option (Option (List (Envelope J)) × TxnDrain J)
      → Option (List (List (Envelope J)))
  chunk_item next none = none
  chunk_item next (some (none, d)) = some []
  chunk_item next (some (some chunk, d)) = elim (next d) [
    | none ↦ none
    | some chunks ↦ some (chunk ∷ chunks)
  ]

  -- The loop of the caller, which appends each chunk until there is none.
  unfoldable pub drain_all : ℕ → TxnDrain J → Option (List (List (Envelope J)))
  unfolding next_chunk
  drain_all zero d = none
  drain_all (suc n) d = chunk_item (drain_all n) (next_chunk d)
