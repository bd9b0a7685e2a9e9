-- ===== src/TxnBuffer/Delivery.antt =====
-- apps/engine/src/txn_buffer.rs, `TxnDrain`: the chunks that the drain of a buffer delivers.
use electric_circuits.Prelude.{
  ℕ, zero, suc, ◌+◌, ◌≤◌, ◌<◌, ◌≡◌, refl, ap, sym, subst, ◌∙◌, Bool, true, false, Option, none,
  some, List, [], ◌∷◌, ◌++◌, Option-cases, length, map, All, arith, ◌⊎◌, inl, inr, if◌then◌else◌,
  length-append,
}
use electric_circuits.Envelope.{Envelope}
use electric_circuits.TxnBuffer.Wire.{Serde, Bytes, newline}
use electric_circuits.TxnBuffer.Buffer.{Stamp}
use electric_circuits.TxnBuffer.Lines.{file_of}
use electric_circuits.TxnBuffer.Packing.{
  Item, Ready, Stores, ahead, stamped, Next-item, fill_lem, fill_end, fill_more, Filled, weight,
}
use electric_circuits.TxnBuffer.Drain.{
  TxnDrain, take_item, finish, remaining, next_chunk, drain_all, chunk_item, mark_last, is_empty,
  cost,
}

module _ {J : Type 0} (serde : Serde J) where
  pub length-stamped :
      (stamp : Stamp) (seq : ℕ) (es : List (Envelope J))
      → length (stamped serde stamp seq es) ≡ length es
  length-stamped stamp seq [] = refl
  length-stamped stamp seq (e ∷ es) = ap suc (length-stamped stamp (seq + 1) es)

  length-file_of : (es : List (Envelope J)) → length es ≤ length (file_of serde es)
  length-file_of [] = omega arith
  length-file_of (e ∷ es) =
      omega (arith, length-file_of es, length-append (serde.to_vec e) (newline ∷ file_of serde es))

  abbrev left_of : Option Bytes → List (Envelope J) → ℕ
  left_of none mem = length mem
  left_of (some bytes) mem = length bytes

  length-Stores :
      (reader : Option Bytes) (mem es : List (Envelope J))
      → Stores serde reader mem es
      → length es ≤ left_of reader mem
  length-Stores none mem es h = omega (arith, ap length h)
  length-Stores (some bytes) mem es h = omega (arith, ap length h, length-file_of es)

  length-ahead :
      (pending : Option (Item J)) (items : List (Item J))
      → length (ahead serde pending ++ items) ≤ 1 + length items
  length-ahead none items = omega arith
  length-ahead (some p) items = omega arith

  remaining-left_of : (d : TxnDrain J) → remaining serde d ≡ left_of d.reader d.mem
  remaining-left_of d = elim (Option-cases d.reader) [
    | inl hr ↦ rw hr refl
    | inr (b, hr) ↦ rw hr refl
  ]

  -- The fuel of `next_chunk` covers what is left.
  length-Ready :
      (d : TxnDrain J) (items : List (Item J))
      → Ready serde d items
      → length items < remaining serde d + 2
  length-Ready d items (es, hs, hi) = omega (
    arith,
    ap length hi,
    length-ahead d.pending (stamped serde d.stamp d.seq es),
    length-stamped d.stamp d.seq es,
    length-Stores d.reader d.mem es hs,
    remaining-left_of d,
  )

  -- A chunk holds something, and its body is within the budget unless it is one envelope.
  abbrev pub Fits : ℕ → List (Item J) → Type 0
  Fits budget group = (0 < length group) × ((length group ≡ 1) ⊎ (1 + weight serde group ≤ budget))

  abbrev pub envelopes : List (Item J) → List (Envelope J)
  envelopes group = map (λ p. p.0) group

  abbrev pub Chunk : TxnDrain J → List (Item J) → Type 0
  Chunk d items =
      (group left : List (Item J)) × (d' : TxnDrain J) × (next_chunk serde d
        ≡ some (some (if is_empty left then mark_last (envelopes group) else envelopes group), d'))
      × (items ≡ group ++ left)
      × Ready serde d' left
      × (d'.exhausted ≡ is_empty left)
      × (d'.budget ≡ d.budget)
      × Fits d.budget group

  next_none :
      (d : TxnDrain J)
      → Ready serde d []
      → (d' : TxnDrain J) × (next_chunk serde d ≡ some (none, d'))
  unfolding next_chunk
  next_none d hr =
      let (d', ht, hr', hb) = Next-item serde d [] hr in
      (
        record d' { exhausted = true },
        ap (finish serde) (fill_end serde (remaining serde d + 2) d d' [] 2 ht),
      )

  mark_end :
      (e : Envelope J) (es : List (Envelope J)) (d : TxnDrain J) (b : Bool)
      → d.exhausted ≡ b
      → finish serde (some (e ∷ es, d)) ≡ some (some (if b then mark_last (e ∷ es) else e ∷ es), d)
  mark_end e es d b h = ap (λ x. some (some (if x then mark_last (e ∷ es) else e ∷ es), d)) h

  fits_one :
      (p : Item J) (taken : List (Item J)) (budget : ℕ)
      → (taken ≡ []) ⊎ (2 + cost serde [] p.1 + weight serde taken ≤ budget)
      → (length (p ∷ taken) ≡ 1) ⊎ (1 + weight serde (p ∷ taken) ≤ budget)
  fits_one p taken budget (inl e) = inl (rw e refl)
  fits_one p taken budget (inr h) = inr (omega arith)

  Chunk-Filled :
      (d d' : TxnDrain J) (p : Item J) (items : List (Item J))
      → take_item serde d ≡ some (some p, d')
      → d'.budget ≡ d.budget
      → Filled serde (remaining serde d + 2) d' (p.0 ∷ []) (2 + cost serde [] p.1) items
      → Chunk d (p ∷ items)
  unfolding next_chunk
  Chunk-Filled d d' p items ht hb (taken, left, d2, hf, hi, hr, hx, hb2, hw) = (
    p ∷ taken,
    left,
    d2,
    ap (finish serde) (fill_more serde (remaining serde d + 2) d d' [] 2 p ht refl ∙ hf)
        ∙ mark_end p.0 (envelopes taken) d2 (is_empty left) hx,
    ap (p ∷◌) hi,
    hr,
    hx,
    hb2 ∙ hb,
    (
      omega arith,
      fits_one p taken d.budget
          (subst (λ b. (taken ≡ []) ⊎ (2 + cost serde [] p.1 + weight serde taken ≤ b)) hb hw),
    ),
  )

  next_some :
      (d : TxnDrain J) (p : Item J) (items : List (Item J))
      → Ready serde d (p ∷ items)
      → d.exhausted ≡ false
      → Chunk d (p ∷ items)
  next_some d p items hr he =
      let (d', ht, hr', hp, hb, hx) = Next-item serde d (p ∷ items) hr in
      Chunk-Filled d d' p items ht hb (
        fill_lem serde items (remaining serde d + 2) d' (p.0 ∷ []) (2 + cost serde [] p.1)
          (omega (arith, length-Ready d (p ∷ items) hr)) hr' (hx ∙ he) refl)

  abbrev pub concat {ℓ} : {A : Type ℓ} → List (List A) → List A
  concat [] = []
  concat (g ∷ gs) = g ++ concat gs

  -- The chunks of the groups, the last envelope of the last one marked.
  abbrev pub marked : List (List (Item J)) → List (List (Envelope J))
  marked [] = []
  marked (g ∷ []) = mark_last (envelopes g) ∷ []
  marked (g ∷ g' ∷ gs) = envelopes g ∷ marked (g' ∷ gs)

  marked-cons :
      (g : List (Item J)) (gs : List (List (Item J))) (left : List (Item J)) (budget : ℕ)
      → concat gs ≡ left
      → All (Fits budget) gs
      → marked (g ∷ gs)
        ≡ (if is_empty left then mark_last (envelopes g) else envelopes g) ∷ marked gs
  marked-cons g [] left budget h f = rw⁻¹ h refl
  marked-cons g ([] ∷ gs) left budget h f = absurd (omega (arith, f.0.0))
  marked-cons g ((p ∷ ps) ∷ gs) left budget h f = rw⁻¹ h refl

  abbrev pub Delivered : ℕ → TxnDrain J → List (Item J) → Type 0
  Delivered n d items =
      (groups : List (List (Item J))) × (drain_all serde n d ≡ some (marked groups))
      × (concat groups ≡ items)
      × All (Fits d.budget) groups

  abbrev pub Live : TxnDrain J → List (Item J) → Type 0
  Live d [] = Unit
  Live d (p ∷ items) = d.exhausted ≡ false

  Live-left : (d : TxnDrain J) (left : List (Item J)) → d.exhausted ≡ is_empty left → Live d left
  Live-left d [] h = tt
  Live-left d (p ∷ items) h = h

  keep_chunk :
      (n : ℕ) (d : TxnDrain J) (chunk : List (Envelope J)) (chunks : List (List (Envelope J)))
      → drain_all serde n d ≡ some chunks
      → chunk_item serde (drain_all serde n) (some (some chunk, d)) ≡ some (chunk ∷ chunks)
  keep_chunk n d chunk chunks h = rw (chunk_item, h) refl

  Delivered-chunk :
      (n : ℕ) (d d' : TxnDrain J) (items group left : List (Item J))
      → next_chunk serde d
        ≡ some (some (if is_empty left then mark_last (envelopes group) else envelopes group), d')
      → items ≡ group ++ left
      → d'.budget ≡ d.budget
      → Fits d.budget group
      → Delivered n d' left
      → Delivered (suc n) d items
  unfolding drain_all
  Delivered-chunk n d d' items group left hc hi hb hf (groups, hd, hg, fits) = (
    group ∷ groups,
    ap (chunk_item serde (drain_all serde n)) hc
        ∙ keep_chunk n d' (if is_empty left then mark_last (envelopes group) else envelopes group)
            (marked groups) hd
        ∙ ap some (sym (marked-cons group groups left d'.budget hg fits)),
    ap (group ++◌) hg ∙ sym hi,
    (hf, subst (λ b. All (Fits b) groups) hb fits),
  )

  shorter :
      (items group left : List (Item J)) (budget n : ℕ)
      → items ≡ group ++ left
      → Fits budget group
      → length items < suc n
      → length left < n
  shorter items group left budget n hi hf h =
      omega (arith, ap length hi, length-append group left, hf.0)

  pub deliver :
      (n : ℕ) (items : List (Item J)) (d : TxnDrain J)
      → length items < n
      → Ready serde d items
      → Live d items
      → Delivered n d items
  unfolding drain_all
  deliver zero items d h hr hl = absurd (omega arith)
  deliver (suc n) [] d h hr hl =
      let (d', hc) = next_none d hr in ([], ap (chunk_item serde (drain_all serde n)) hc, refl, tt)
  deliver (suc n) (p ∷ items) d h hr hl =
      let (group, left, d', hc, hi, hr', hx, hb, hf) = next_some d p items hr hl in
      Delivered-chunk n d d' (p ∷ items) group left hc hi hb hf (
        deliver n left d' (shorter (p ∷ items) group left d.budget n hi hf h) hr'
          (Live-left d' left hx))
