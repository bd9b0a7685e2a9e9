-- ===== src/TxnBuffer/Drained.antt =====
-- apps/engine/src/txn_buffer.rs: what the commit of a buffered transaction delivers as a whole.
use electric_circuits.Prelude.{
  append_nil, ℕ, ◌<◌, ◌≡◌, refl, ap, sym, ◌∙◌, Bool, Option, none, some, List, [], ◌∷◌, ◌++◌,
  length, All, arith,
}
use electric_circuits.Envelope.{Envelope}
use electric_circuits.TxnBuffer.Wire.{Serde}
use electric_circuits.TxnBuffer.Packing.{Item, Ready, Stores, stamped}
use electric_circuits.TxnBuffer.Delivery.{
  Fits, envelopes, marked, concat, deliver, Live, length-stamped,
}
use electric_circuits.TxnBuffer.Drain.{mark_last, drain, drain_all}
use electric_circuits.TxnBuffer.Buffer.{TxnBuffer, TxnBufferConfig, Stamp, Spill, new, push_all}
use electric_circuits.TxnBuffer.Pushing.{Buffered, Kept, envs_of, push_all-Buffered}

mark_last-append :
    {J : Type 0} (xs : List (Envelope J)) (y : Envelope J) (ys : List (Envelope J))
    → mark_last (xs ++ y ∷ ys) ≡ xs ++ mark_last (y ∷ ys)
unfolding mark_last
mark_last-append [] y ys = refl
mark_last-append (x ∷ []) y ys = refl
mark_last-append (x ∷ x' ∷ xs) y ys = ap (x ∷◌) (mark_last-append (x' ∷ xs) y ys)

module _ {J : Type 0} (serde : Serde J) where
  envelopes-append :
      (xs ys : List (Item J))
      → envelopes serde (xs ++ ys) ≡ envelopes serde xs ++ envelopes serde ys
  envelopes-append [] ys = refl
  envelopes-append (x ∷ xs) ys = ap (x.0 ∷◌) (envelopes-append xs ys)

  -- Marking the last chunk is marking the last envelope.
  marked-concat :
      (budget : ℕ) (groups : List (List (Item J)))
      → All (Fits serde budget) groups
      → concat serde (marked serde groups) ≡ mark_last (envelopes serde (concat serde groups))
  unfolding mark_last
  marked-concat budget [] h = refl
  marked-concat budget (g ∷ []) h =
      rw (append_nil g, append_nil (mark_last (envelopes serde g))) refl
  marked-concat budget (g ∷ [] ∷ gs) h = absurd (omega (arith, h.1.0.0))
  marked-concat budget (g ∷ (p ∷ ps) ∷ gs) h =
      rw
        (marked-concat budget ((p ∷ ps) ∷ gs) h.1, envelopes-append g (p ∷ (ps ++ concat serde gs)))
        (sym (mark_last-append (envelopes serde g) p.0 (envelopes serde (ps ++ concat serde gs))))

  Stores-Kept :
      (buf : TxnBuffer J) (spill : Option Spill) (es : List (Envelope J))
      → Kept serde spill buf es
      → Stores serde (elim spill [ none ↦ none | some s ↦ some s.file ]) buf.mem es
  Stores-Kept buf none es h = h.0
  Stores-Kept buf (some s) es h = h.2

  Ready-drain :
      (buf : TxnBuffer J) (stamp : Stamp) (es : List (Envelope J))
      → Buffered serde buf es
      → Ready serde (drain buf stamp) (stamped serde stamp 0 es)
  unfolding drain
  Ready-drain buf stamp es h = (es, Stores-Kept buf buf.spill es h.0, refl)

  Live-drain :
      (buf : TxnBuffer J) (stamp : Stamp) (items : List (Item J))
      → Live serde (drain buf stamp) items
  unfolding drain
  Live-drain buf stamp [] = tt
  Live-drain buf stamp (p ∷ items) = refl

  -- Where a buffer holds some envelopes and the loop has more fuel than there are, the drain yields
  -- the chunks of consecutive groups that make up all of them, stamped in order; each group holds
  -- something, and its body (the brackets, the commas, and each envelope with its stamp) is within
  -- the budget unless the group is one envelope.
  pub drain_all-chunks :
      (n : ℕ) (buf : TxnBuffer J) (stamp : Stamp) (es : List (Envelope J))
      → Buffered serde buf es
      → length es < n
      → (groups : List (List (Item J))) × (drain_all serde n (drain buf stamp)
          ≡ some (marked serde groups))
        × (concat serde groups ≡ stamped serde stamp 0 es)
        × All (Fits serde buf.cfg.append_bytes) groups
  unfolding drain
  drain_all-chunks n buf stamp es hb hn =
      deliver serde n (stamped serde stamp 0 es) (drain buf stamp)
        (omega (arith, length-stamped serde stamp 0 es)) (Ready-drain buf stamp es hb)
        (Live-drain buf stamp (stamped serde stamp 0 es))

  -- Where the envelopes of a transaction were all pushed into a new buffer, whether it spilled or not,
  -- and the loop has more fuel than there are envelopes, the drain yields chunks that end with no
  -- error; in a row they are the pushed envelopes, in order, each stamped with the commit and its
  -- place, the last one and no other marked as the last.
  pub drain_all-in_order :
      (calls : List (Bool × Envelope J × ℕ)) (xid : ℕ) (cfg : TxnBufferConfig) (buf : TxnBuffer J)
      (stamp : Stamp) (n : ℕ)
      → push_all serde calls (new xid cfg) ≡ some buf
      → length (envs_of serde calls) < n
      → (chunks : List (List (Envelope J))) × (drain_all serde n (drain buf stamp) ≡ some chunks)
        × (concat serde chunks
            ≡ mark_last (envelopes serde (stamped serde stamp 0 (envs_of serde calls))))
  drain_all-in_order calls xid cfg buf stamp n h hn =
      let (groups, hd, hg, fits) =
        drain_all-chunks n buf stamp (envs_of serde calls)
          (push_all-Buffered serde calls xid cfg buf h) hn in
      (
        marked serde groups,
        hd,
        marked-concat buf.cfg.append_bytes groups fits ∙ ap (λ g. mark_last (envelopes serde g)) hg,
      )
