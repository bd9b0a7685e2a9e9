-- ===== src/TxnBuffer/Pushing.antt =====
-- apps/engine/src/txn_buffer.rs, `TxnBuffer::push`: what a buffer holds, in memory or spilled.
use electric_circuits.Prelude.{
  append_assoc, append_nil, ℕ, ◌+◌, ◌<◌, ◌≡◌, refl, ap, sym, subst, ◌∙◌, Bool, true, false, Option,
  none, some, List, [], ◌∷◌, ◌++◌, Bool-cases, length, arith, inl, inr, length-append,
}
use electric_circuits.Envelope.{Envelope}
use electric_circuits.TxnBuffer.Wire.{Serde, Bytes, newline}
use electric_circuits.TxnBuffer.Buffer.{
  TxnBuffer, TxnBufferConfig, Spill, new, push, push_all, push_next, push_to, settle, over_cap,
  hold, count_env, write_all, write_spilled, begin_spill,
}
use electric_circuits.TxnBuffer.Lines.{file_of, file_of-snoc, write_all-file}

module _ {J : Type 0} (serde : Serde J) where
  -- The measure of the memory that envelopes take.
  abbrev pub memory_of : List (Envelope J) → ℕ
  memory_of [] = 0
  memory_of (e ∷ es) = serde.memory_bytes e + memory_of es

  -- In memory, below the cap where there is one; or all of it in the file.
  abbrev pub Kept : Option Spill → TxnBuffer J → List (Envelope J) → Type 0
  Kept none buf es =
      (buf.mem ≡ es)
      × (buf.mem_bytes ≡ memory_of es)
      × (0 < buf.cfg.memory_bytes → buf.mem_bytes < buf.cfg.memory_bytes)
  Kept (some s) buf es =
      (buf.mem ≡ []) × (buf.mem_bytes ≡ 0) × (s.file ≡ file_of serde es) × (s.bytes ≡ length s.file)

  -- The buffer holds exactly the envelopes.
  abbrev pub Buffered : TxnBuffer J → List (Envelope J) → Type 0
  Buffered buf es =
      Kept buf.spill buf es × (buf.count ≡ length es) × (buf.buffered_bytes ≡ memory_of es)

  memory_of-snoc :
      (es : List (Envelope J)) (e : Envelope J)
      → memory_of (es ++ e ∷ []) ≡ memory_of es + serde.memory_bytes e
  memory_of-snoc [] e = omega arith
  memory_of-snoc (x ∷ xs) e = omega (arith, memory_of-snoc xs e)

  written :
      (bytes : Bytes) (s : Spill)
      → s.bytes ≡ length s.file
      → (write_spilled bytes s).bytes ≡ length (write_spilled bytes s).file
  written bytes s h =
      omega
        (arith, h, length-append s.file (bytes ++ newline ∷ []), length-append bytes (newline ∷ []))

  write_all-bytes :
      (es : List (Envelope J)) (s : Spill)
      → s.bytes ≡ length s.file
      → (write_all serde es s).bytes ≡ length (write_all serde es s).file
  unfolding write_all
  write_all-bytes [] s h = h
  write_all-bytes (e ∷ es) s h =
      write_all-bytes es (write_spilled (serde.to_vec e) s) (written (serde.to_vec e) s h)

  pub new-Buffered : (xid : ℕ) (cfg : TxnBufferConfig) → Buffered (new xid cfg) []
  unfolding new
  new-Buffered xid cfg = ((refl, refl, λ h. h), refl, refl)

  -- The buffer that a call gives, where it succeeds, holds the envelopes.
  abbrev pub After : Option (TxnBuffer J) → List (Envelope J) → Type 0
  After none es = Unit
  After (some buf) es = Buffered buf es

  under_cap :
      (buf : TxnBuffer J)
      → over_cap serde buf ≡ false
      → 0 < buf.cfg.memory_bytes
      → buf.mem_bytes < buf.cfg.memory_bytes
  under_cap buf h pos = ground arith

  begin_spill-After :
      (io : Bool) (buf : TxnBuffer J) (es : List (Envelope J))
      → buf.mem ≡ es
      → buf.count ≡ length es
      → buf.buffered_bytes ≡ memory_of es
      → After (begin_spill serde io buf) es
  unfolding begin_spill
  begin_spill-After false buf es hm hc hb = tt
  begin_spill-After true buf es hm hc hb = (
    (
      refl,
      refl,
      write_all-file serde buf.mem (record { file = []; bytes = 0 }) ∙ ap (file_of serde) hm,
      write_all-bytes buf.mem (record { file = []; bytes = 0 }) refl,
    ),
    hc,
    hb,
  )

  settle-After :
      (io : Bool) (buf : TxnBuffer J) (es : List (Envelope J))
      → buf.spill ≡ none
      → buf.mem ≡ es
      → buf.mem_bytes ≡ memory_of es
      → buf.count ≡ length es
      → buf.buffered_bytes ≡ memory_of es
      → After (settle serde io buf) es
  unfolding settle
  settle-After io buf es hs hm hk hc hb = elim (Bool-cases (over_cap serde buf)) [
    | inl over ↦ rw over (begin_spill-After io buf es hm hc hb)
    | inr under ↦ rw (under, hs) ((hm, hk, under_cap buf under), hc, hb)
  ]

  push_to-After :
      (io : Bool) (e : Envelope J) (raw_len : ℕ) (buf : TxnBuffer J) (es : List (Envelope J))
      (spill : Option Spill)
      → buf.spill ≡ spill
      → Kept spill buf es
      → buf.count ≡ length es
      → buf.buffered_bytes ≡ memory_of es
      → After (push_to serde io e (count_env serde e raw_len buf) spill) (es ++ e ∷ [])
  unfolding push_to
  push_to-After io e raw_len buf es none hs (hm, hk, hcap) hc hb =
      settle-After io (hold serde e (count_env serde e raw_len buf)) (es ++ e ∷ []) hs
        (ap (◌++ (e ∷ [])) hm) (omega (arith, memory_of-snoc es e))
        (omega (arith, length-append es (e ∷ []))) (omega (arith, memory_of-snoc es e))
  push_to-After false e raw_len buf es (some s) hs hk hc hb = tt
  push_to-After true e raw_len buf es (some s) hs (hm, hz, hf, hl) hc hb = (
    (
      hm,
      hz,
      ap (◌++ (serde.to_vec e ++ newline ∷ [])) hf ∙ sym (file_of-snoc serde es e),
      written (serde.to_vec e) s hl,
    ),
    omega (arith, length-append es (e ∷ [])),
    omega (arith, memory_of-snoc es e),
  )

  -- A push that succeeds appends the envelope to what the buffer holds.
  pub push-After :
      (io : Bool) (e : Envelope J) (raw_len : ℕ) (buf : TxnBuffer J) (es : List (Envelope J))
      → Buffered buf es
      → After (push serde io e raw_len buf) (es ++ e ∷ [])
  unfolding push
  push-After io e raw_len buf es (hk, hc, hb) =
      push_to-After io e raw_len buf es buf.spill refl hk hc hb

  abbrev pub envs_of : List (Bool × Envelope J × ℕ) → List (Envelope J)
  envs_of [] = []
  envs_of ((io, e, raw_len) ∷ calls) = e ∷ envs_of calls

  After-next :
      (next : TxnBuffer J → Option (TxnBuffer J)) (r : Option (TxnBuffer J))
      (es fs : List (Envelope J))
      → ((buf : TxnBuffer J) → Buffered buf es → After (next buf) fs)
      → After r es
      → After (push_next serde next r) fs
  After-next next none es fs f h = tt
  After-next next (some buf) es fs f h = f buf h

  pub push_all-After :
      (calls : List (Bool × Envelope J × ℕ)) (buf : TxnBuffer J) (es : List (Envelope J))
      → Buffered buf es
      → After (push_all serde calls buf) (es ++ envs_of calls)
  unfolding push_all
  push_all-After [] buf es h = rw (append_nil es) h
  push_all-After ((io, e, raw_len) ∷ calls) buf es h =
      After-next (push_all serde calls) (push serde io e raw_len buf) (es ++ e ∷ [])
        (es ++ e ∷ envs_of calls)
        (λ b hb.
          subst (After (push_all serde calls b)) (append_assoc es (e ∷ []) (envs_of calls))
            (push_all-After calls b (es ++ e ∷ []) hb))
        (push-After io e raw_len buf es h)

  -- After any run of pushes into a new buffer that succeeds, the buffer holds exactly the pushed
  -- envelopes in order: all in memory, with the measure of the memory exact and below the cap where
  -- there is one, or all in the file and none in memory; and the counts are exact.
  pub push_all-Buffered :
      (calls : List (Bool × Envelope J × ℕ)) (xid : ℕ) (cfg : TxnBufferConfig) (buf : TxnBuffer J)
      → push_all serde calls (new xid cfg) ≡ some buf
      → Buffered buf (envs_of calls)
  push_all-Buffered calls xid cfg buf h =
      subst (λ r. After r (envs_of calls)) h
        (push_all-After calls (new xid cfg) [] (new-Buffered xid cfg))

  begin_spill_total :
      (buf : TxnBuffer J) → (buf' : TxnBuffer J) × (begin_spill serde true buf ≡ some buf')
  unfolding begin_spill
  begin_spill_total buf = (_, refl)

  push_to_total :
      (e : Envelope J) (buf : TxnBuffer J) (spill : Option Spill)
      → (buf' : TxnBuffer J) × (push_to serde true e buf spill ≡ some buf')
  unfolding push_to settle
  push_to_total e buf (some s) = (_, refl)
  push_to_total e buf none = elim (Bool-cases (over_cap serde (hold serde e buf))) [
    | inl over ↦ rw over (begin_spill_total (hold serde e buf))
    | inr under ↦ rw under (hold serde e buf, refl)
  ]

  -- Where the file operations succeed, a push does.
  pub push_total :
      (e : Envelope J) (raw_len : ℕ) (buf : TxnBuffer J)
      → (buf' : TxnBuffer J) × (push serde true e raw_len buf ≡ some buf')
  unfolding push
  push_total e raw_len buf = push_to_total e (count_env serde e raw_len buf) buf.spill
