-- ===== src/TxnBuffer/Packing.antt =====
-- apps/engine/src/txn_buffer.rs, `TxnDrain::next_chunk`: the loop takes the longest group of the
-- remaining envelopes that the budget allows.
use electric_circuits.Prelude.{
  append_nil, append_assoc, ℕ, zero, suc, ◌+◌, ◌≤◌, ◌<◌, ◌≡◌, refl, ap, subst, ◌∙◌, true, false,
  Option, none, some, List, [], ◌∷◌, ◌++◌, Option-cases, length, map, All, ◌==◌, nat_ord, arith,
  ◌⊎◌, inl, inr, Bool-cases,
}
use electric_circuits.Envelope.{Envelope}
use electric_circuits.TxnBuffer.Wire.{Serde, Bytes, newline}
use electric_circuits.TxnBuffer.Buffer.{Stamp}
use electric_circuits.TxnBuffer.Lines.{file_of, split_line-append}
use electric_circuits.TxnBuffer.Drain.{
  TxnDrain, Raw, read_raw, stamp_env, next_raw, stamp_raw, stamp_next, parse_raw, mem_raw,
  next_stamped, take_item, fill, cost, is_full, is_empty, stamp_bytes, fill_item,
}

abbrev pub Item : Type 0 → Type 0
Item J = Envelope J × ℕ

module _ {J : Type 0} (serde : Serde J) where
  -- The envelopes, stamped in order from `seq` on, each with its serialized size.
  abbrev pub stamped : Stamp → ℕ → List (Envelope J) → List (Item J)
  stamped stamp seq [] = []
  stamped stamp seq (e ∷ es) =
      (stamp_env stamp seq e, length (serde.to_vec e)) ∷ stamped stamp (seq + 1) es

  -- What the memory or the file still holds.
  abbrev pub Stores : Option Bytes → List (Envelope J) → List (Envelope J) → Type 0
  Stores none mem es = mem ≡ es
  Stores (some bytes) mem es = bytes ≡ file_of serde es

  abbrev pub ahead : Option (Item J) → List (Item J)
  ahead none = []
  ahead (some p) = p ∷ []

  -- The items that the drain has yet to deliver.
  abbrev pub Ready : TxnDrain J → List (Item J) → Type 0
  Ready d items =
      (es : List (Envelope J)) × Stores d.reader d.mem es
      × (items ≡ ahead d.pending ++ stamped d.stamp d.seq es)

  abbrev pub Next : TxnDrain J → List (Item J) → Type 0
  Next d [] =
      (d' : TxnDrain J) × (take_item serde d ≡ some (none, d'))
      × Ready d' []
      × (d'.budget ≡ d.budget)
  Next d (p ∷ items) =
      (d' : TxnDrain J) × (take_item serde d ≡ some (some p, d'))
      × Ready d' items
      × (d'.pending ≡ none)
      × (d'.budget ≡ d.budget)
      × (d'.exhausted ≡ d.exhausted)

  read_raw-line :
      (taken rest : Bytes) (d : TxnDrain J)
      → All (λ c. (c == newline) ≡ false) taken
      → read_raw serde (taken ++ (newline ∷ rest)) d
        ≡ (some (Raw.line taken), record d { reader = some rest })
  read_raw-line [] rest d h = rw (split_line-append [] rest tt) refl
  read_raw-line (c ∷ cs) rest d h = rw (split_line-append (c ∷ cs) rest h) refl

  next_raw-line :
      (e : Envelope J) (es : List (Envelope J)) (d : TxnDrain J)
      → d.reader ≡ some (file_of serde (e ∷ es))
      → next_raw serde d
        ≡ (some (Raw.line (serde.to_vec e)), record d { reader = some (file_of serde es) })
  unfolding next_raw
  next_raw-line e es d hr = rw hr (
      read_raw-line (serde.to_vec e) (file_of serde es)
        (record d { reader = some (file_of serde (e ∷ es)) }) (serde.one_line e))

  raw_end : (d : TxnDrain J) → d.reader ≡ some [] → next_raw serde d ≡ (none, d)
  unfolding next_raw
  raw_end d hr = rw hr refl

  raw_mem :
      (es : List (Envelope J)) (d : TxnDrain J)
      → d.reader ≡ none
      → d.mem ≡ es
      → next_raw serde d ≡ mem_raw serde es d
  unfolding next_raw
  raw_mem es d hr hm = rw (hr, hm) refl

  take_none : (d : TxnDrain J) → d.pending ≡ none → take_item serde d ≡ next_stamped serde d
  unfolding take_item
  take_none d hp = rw hp refl

  take_raw :
      (d d' : TxnDrain J) (raw : Option (Raw J))
      → d.pending ≡ none
      → next_raw serde d ≡ (raw, d')
      → take_item serde d ≡ stamp_raw serde (raw, d')
  unfolding next_stamped
  take_raw d d' raw hp h = take_none d hp ∙ ap (stamp_raw serde) h

  parse_line :
      (e : Envelope J)
      → parse_raw serde (Raw.line (serde.to_vec e)) ≡ some (e, length (serde.to_vec e))
  parse_line e = rw (parse_raw, serde.from_to e) refl

  from_mem :
      (es : List (Envelope J)) (d : TxnDrain J)
      → d.reader ≡ none
      → d.pending ≡ none
      → d.mem ≡ es
      → Next d (stamped d.stamp d.seq es)
  from_mem [] d hr hp hm =
      (d, take_raw d d none hp (raw_mem [] d hr hm), ([], rw hr hm, rw hp refl), refl)
  from_mem (e ∷ es) d hr hp hm = (
    record d { mem = es; seq = d.seq + 1 },
    take_raw d (record d { mem = es }) (some (Raw.env e)) hp (raw_mem (e ∷ es) d hr hm),
    (es, rw hr refl, rw hp refl),
    hp,
    refl,
    refl,
  )

  from_file :
      (es : List (Envelope J)) (d : TxnDrain J)
      → d.reader ≡ some (file_of serde es)
      → d.pending ≡ none
      → Next d (stamped d.stamp d.seq es)
  from_file [] d hr hp =
      (d, take_raw d d none hp (raw_end d hr), ([], rw hr refl, rw hp refl), refl)
  from_file (e ∷ es) d hr hp = (
    record d { reader = some (file_of serde es); seq = d.seq + 1 },
    take_raw d (record d { reader = some (file_of serde es) }) (some (Raw.line (serde.to_vec e))) hp
          (next_raw-line e es d hr)
        ∙ ap (λ p. stamp_next serde p (record d { reader = some (file_of serde es) }))
            (parse_line e),
    (es, refl, rw hp refl),
    hp,
    refl,
    refl,
  )

  Next-subst :
      (d : TxnDrain J) (items rest : List (Item J)) → items ≡ rest → Next d rest → Next d items
  Next-subst d items rest e h = rw e h

  pub Next-item : (d : TxnDrain J) (items : List (Item J)) → Ready d items → Next d items
  unfolding take_item
  Next-item d items (es, hs, hi) = elim (Option-cases d.pending) [
    | inr (p, hp) ↦
        Next-subst d items (p ∷ stamped d.stamp d.seq es) (rw hi (rw hp refl))
          (record d { pending = none }, rw hp refl, (es, hs, refl), refl, refl, refl)
    | inl hp ↦
        Next-subst d items (stamped d.stamp d.seq es) (rw hi (rw hp refl))
          (elim (Option-cases d.reader) [
            | inl hr ↦ from_mem es d hr hp (subst (λ r. Stores r d.mem es) hr hs)
            | inr (bytes, hr) ↦
                from_file es d (hr ∙ ap some (subst (λ r. Stores r d.mem es) hr hs)) hp
          ])
  ]

  -- What the items add to a body that is not empty: each with its stamp and a comma.
  abbrev pub weight : List (Item J) → ℕ
  weight [] = 0
  weight (p ∷ items) = p.1 + stamp_bytes + 1 + weight items

  -- The loop went on from `chunk` with `taken`, and left `left`.
  abbrev pub Filled : ℕ → TxnDrain J → List (Envelope J) → ℕ → List (Item J) → Type 0
  Filled n d chunk body items =
      (taken left : List (Item J)) × (d' : TxnDrain J) × (fill serde n d chunk body
        ≡ some (chunk ++ map (λ p. p.0) taken, d'))
      × (items ≡ taken ++ left)
      × Ready d' left
      × (d'.exhausted ≡ is_empty left)
      × (d'.budget ≡ d.budget)
      × ((taken ≡ []) ⊎ (body + weight taken ≤ d.budget))

  is_empty-snoc : (chunk : List (Envelope J)) (e : Envelope J) → is_empty (chunk ++ e ∷ []) ≡ false
  is_empty-snoc [] e = refl
  is_empty-snoc (x ∷ xs) e = refl

  pub fill_end :
      (n : ℕ) (d d' : TxnDrain J) (chunk : List (Envelope J)) (body : ℕ)
      → take_item serde d ≡ some (none, d')
      → fill serde (suc n) d chunk body ≡ some (chunk ++ [], record d' { exhausted = true })
  unfolding fill
  fill_end n d d' chunk body ht =
      ap (fill_item serde (fill serde n) d.budget chunk body) ht ∙ rw (append_nil chunk) refl

  fill_full :
      (n : ℕ) (d d' : TxnDrain J) (chunk : List (Envelope J)) (body : ℕ) (p : Item J)
      → take_item serde d ≡ some (some p, d')
      → is_full serde d.budget body chunk p.1 ≡ true
      → fill serde (suc n) d chunk body ≡ some (chunk ++ [], record d' { pending = some p })
  unfolding fill
  fill_full n d d' chunk body p ht full =
      ap (fill_item serde (fill serde n) d.budget chunk body) ht ∙ rw (append_nil chunk, full) refl

  pub fill_more :
      (n : ℕ) (d d' : TxnDrain J) (chunk : List (Envelope J)) (body : ℕ) (p : Item J)
      → take_item serde d ≡ some (some p, d')
      → is_full serde d.budget body chunk p.1 ≡ false
      → fill serde (suc n) d chunk body
        ≡ fill serde n d' (chunk ++ p.0 ∷ []) (body + cost serde chunk p.1)
  unfolding fill
  fill_more n d d' chunk body p ht fits =
      ap (fill_item serde (fill serde n) d.budget chunk body) ht ∙ rw fits refl

  put_back :
      (d : TxnDrain J) (p : Item J) (items : List (Item J))
      → Ready d items
      → d.pending ≡ none
      → Ready (record d { pending = some p }) (p ∷ items)
  put_back d p items (es, hs, hi) hp = (es, hs, ap (p ∷◌) (hi ∙ rw hp refl))

  fits_le :
      (chunk : List (Envelope J)) (budget body : ℕ) (len : ℕ)
      → is_empty chunk ≡ false
      → is_full serde budget body chunk len ≡ false
      → (body + (len + stamp_bytes + 1) ≤ budget) × (cost serde chunk len ≡ len + stamp_bytes + 1)
  fits_le [] budget body len hc h = absurd (ground arith)
  fits_le (c ∷ cs) budget body len hc h = (ground arith, refl)

  weight_more :
      (chunk : List (Envelope J)) (budget body : ℕ) (p : Item J) (taken : List (Item J))
      → is_empty chunk ≡ false
      → is_full serde budget body chunk p.1 ≡ false
      → (taken ≡ []) ⊎ (body + cost serde chunk p.1 + weight taken ≤ budget)
      → body + weight (p ∷ taken) ≤ budget
  weight_more chunk budget body p taken hc fits (inl e) =
      let (h, hk) = fits_le chunk budget body p.1 hc fits in rw e (omega arith)
  weight_more chunk budget body p taken hc fits (inr h) =
      let (hb, hk) = fits_le chunk budget body p.1 hc fits in omega arith

  Filled-more :
      (n : ℕ) (d d' : TxnDrain J) (chunk : List (Envelope J)) (body : ℕ) (p : Item J)
      (items : List (Item J))
      → take_item serde d ≡ some (some p, d')
      → is_empty chunk ≡ false
      → is_full serde d.budget body chunk p.1 ≡ false
      → d'.budget ≡ d.budget
      → Filled n d' (chunk ++ p.0 ∷ []) (body + cost serde chunk p.1) items
      → Filled (suc n) d chunk body (p ∷ items)
  Filled-more n d d' chunk body p items ht hc fits hb (taken, left, d2, hf, hi, hr, hx, hb2, hw) = (
    p ∷ taken,
    left,
    d2,
    fill_more n d d' chunk body p ht fits
        ∙ hf
        ∙ ap (λ c. some (c, d2)) (append_assoc chunk (p.0 ∷ []) (map (λ q. q.0) taken)),
    ap (p ∷◌) hi,
    hr,
    hx,
    hb2 ∙ hb,
    inr (
        weight_more chunk d.budget body p taken hc fits
          (subst (λ b. (taken ≡ []) ⊎ (body + cost serde chunk p.1 + weight taken ≤ b)) hb hw)),
  )

  pub fill_lem :
      (items : List (Item J)) (n : ℕ) (d : TxnDrain J) (chunk : List (Envelope J)) (body : ℕ)
      → length items < n
      → Ready d items
      → d.exhausted ≡ false
      → is_empty chunk ≡ false
      → Filled n d chunk body items
  fill_lem items zero d chunk body hn hr he hc = absurd (omega arith)
  fill_lem [] (suc n) d chunk body hn hr he hc =
      let (d', ht, hr', hb) = Next-item d [] hr in
      (
        [],
        [],
        record d' { exhausted = true },
        fill_end n d d' chunk body ht,
        refl,
        hr',
        refl,
        hb,
        inl refl,
      )
  fill_lem (p ∷ items) (suc n) d chunk body hn hr he hc =
      let (d', ht, hr', hp, hb, hx) = Next-item d (p ∷ items) hr in
      elim (Bool-cases (is_full serde d.budget body chunk p.1)) [
        | inl full ↦ (
          [],
          p ∷ items,
          record d' { pending = some p },
          fill_full n d d' chunk body p ht full,
          refl,
          put_back d' p items hr' hp,
          hx ∙ he,
          hb,
          inl refl,
        )
        | inr fits ↦ Filled-more n d d' chunk body p items ht hc fits hb (
            fill_lem items n d' (chunk ++ p.0 ∷ []) (body + cost serde chunk p.1) (omega arith) hr'
              (hx ∙ he) (is_empty-snoc chunk p.0))
      ]
