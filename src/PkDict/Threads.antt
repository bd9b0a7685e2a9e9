-- ===== src/PkDict/Threads.antt =====
-- apps/engine/src/pk_dict.rs, `get_or_insert` by several threads: each section under a lock is one
-- step, and the steps of the threads interleave in any order.
use electric_circuits.Prelude.{
  ℕ, ◌≤◌, ◌≡◌, inl, inr, ap, sym, ◌∙◌, subst, none, some, length, get_elem?, nat_ord, list_ord,
  lookup, arith, some_inj, if◌then◌else◌, ◌==◌, Bool-cases, ◌↔◌,
}
use electric_circuits.Value.{Text}
use electric_circuits.PkDict.Intern.{PkDict, new, mint, try_read}
use electric_circuits.PkDict.Inverse.{Inverse, Extends, Minted, mint-Fits, mint-grows, new-Inverse}

-- Where a call of `get_or_insert` is: before its read, after a read that found nothing, or returned.
pub data Call : Type 0 where
  called : Text → Call
  missed : Text → Call
  returned : Text → ℕ → Call

-- The dictionary and the call of each thread.
pub record Shared : Type 0 where
  pub dict : PkDict
  pub calls : ℕ → Call

abbrev pub set_call : ℕ → Call → (ℕ → Call) → ℕ → Call
set_call t c calls u = if u == t then c else calls u

pub data Step : Shared → Shared → Type 0 where
  read_hit :
      {s : Shared} (t : ℕ) (pk : Text) (id : ℕ)
      → s.calls t ≡ called pk
      → try_read pk s.dict ≡ some id
      → Step s (record s { calls = set_call t (returned pk id) s.calls })
  read_miss :
      {s : Shared} (t : ℕ) (pk : Text)
      → s.calls t ≡ called pk
      → try_read pk s.dict ≡ none
      → Step s (record s { calls = set_call t (missed pk) s.calls })
  write :
      {s : Shared} (t : ℕ) (pk : Text)
      → s.calls t ≡ missed pk
      → Step s (record {
        dict = (mint pk s.dict).1;
        calls = set_call t (returned pk (mint pk s.dict).0) s.calls;
      })
  again :
      {s : Shared} (t : ℕ) (pk pk' : Text) (id : ℕ)
      → s.calls t ≡ returned pk id
      → Step s (record s { calls = set_call t (called pk') s.calls })

pub data Reach (s : Shared) : Shared → Type 0 where
  start : Reach s s
  next : {u v : Shared} → Reach s u → Step u v → Reach s v

-- Each id that a thread holds is the one of its key.
abbrev Holds : PkDict → Call → Type 0
Holds d (called pk) = Unit
Holds d (missed pk) = Unit
Holds d (returned pk id) = lookup pk d.forward ≡ some id

abbrev IsSound : Shared → Type 0
IsSound s = Inverse s.dict × ((t : ℕ) → Holds s.dict (s.calls t))

Holds-set_call :
    (d : PkDict) (t : ℕ) (c : Call) (calls : ℕ → Call)
    → Holds d c
    → ((u : ℕ) → Holds d (calls u))
    → (u : ℕ) → Holds d (set_call t c calls u)
Holds-set_call d t c calls hc h u = elim (Bool-cases (u == t)) [
  | inl e ↦ rw e hc
  | inr e ↦ rw e (h u)
]

Holds-Extends : (d e : PkDict) (c : Call) → Extends d e → Holds d c → Holds e c
Holds-Extends d e (called pk) ext h = tt
Holds-Extends d e (missed pk) ext h = tt
Holds-Extends d e (returned pk id) ext h = ext.0 pk id h

minted :
    (pk : Text) (d : PkDict) (r : ℕ × PkDict)
    → Minted pk d r
    → Inverse r.1 × Extends d r.1 × (lookup pk r.1.forward ≡ some r.0)
minted pk d (id, d') (hi, he, hl, hr) = (hi, he, hl)

Step-grows : {s u : Shared} → Step s u → length s.dict.reverse ≤ length u.dict.reverse
Step-grows (read_hit t pk id hc hr) = omega arith
Step-grows (read_miss t pk hc hr) = omega arith
Step-grows (write {s} t pk hc) = mint-grows pk s.dict
Step-grows (again t pk pk' id hc) = omega arith

Reach-grows : {s u : Shared} → Reach s u → length s.dict.reverse ≤ length u.dict.reverse
Reach-grows start = omega arith
Reach-grows (next r st) = omega (arith, Reach-grows r, Step-grows st)

Step-IsSound :
    {s u : Shared}
    → Step s u
    → length u.dict.reverse ≤ 4294967296
    → IsSound s
    → IsSound u × Extends s.dict u.dict
Step-IsSound (read_hit {s} t pk id hc hr) fits (inv, h) =
    ((inv, Holds-set_call s.dict t (returned pk id) s.calls hr h), (λ k i e. e, λ k i e. e))
Step-IsSound (read_miss {s} t pk hc hr) fits (inv, h) =
    ((inv, Holds-set_call s.dict t (missed pk) s.calls tt h), (λ k i e. e, λ k i e. e))
Step-IsSound (write {s} t pk hc) fits (inv, h) =
    let (hi, he, hl) = minted pk s.dict (mint pk s.dict) (mint-Fits pk s.dict fits inv) in
    (
      (
        hi,
        Holds-set_call (mint pk s.dict).1 t (returned pk (mint pk s.dict).0) s.calls hl
            (λ u. Holds-Extends s.dict (mint pk s.dict).1 (s.calls u) he (h u)),
      ),
      he,
    )
Step-IsSound (again {s} t pk pk' id hc) fits (inv, h) =
    ((inv, Holds-set_call s.dict t (called pk') s.calls tt h), (λ k i e. e, λ k i e. e))

Reach-IsSound :
    {s u : Shared}
    → Reach s u
    → length u.dict.reverse ≤ 4294967296
    → IsSound s
    → IsSound u × Extends s.dict u.dict
Reach-IsSound start fits h = (h, (λ k i e. e, λ k i e. e))
Reach-IsSound (next r st) fits h =
    let (hu, ext) = Reach-IsSound r (omega (arith, Step-grows st, fits)) h in
    let (hv, ext') = Step-IsSound st fits hu in
    (hv, (λ k i e. ext'.0 k i (ext.0 k i e), λ k i e. ext'.1 k i (ext.1 k i e)))

-- At the start the dictionary is new and no call has returned.
abbrev pub initial : (ℕ → Text) → Shared
initial keys = record { dict = new; calls = λ t. called (keys t) }

initial-IsSound : (keys : ℕ → Text) → IsSound (initial keys)
initial-IsSound keys = (new-Inverse, λ t. tt)

-- In every state with at most 2^32 interned keys that the threads can reach from a new dictionary,
-- two returned calls hold the same id exactly where they were for the same key.
pub returned_agree :
    (keys : ℕ → Text) (s : Shared) (t u : ℕ) (pk pk' : Text) (id id' : ℕ)
    → Reach (initial keys) s
    → s.calls t ≡ returned pk id
    → s.calls u ≡ returned pk' id'
    → length s.dict.reverse ≤ 4294967296
    → (pk ≡ pk') ↔ (id ≡ id')
returned_agree keys s t u pk pk' id id' r ht hu fits =
    let (sound, ext) = Reach-IsSound r fits (initial-IsSound keys) in
    let (inv, h) = sound in
    let hl = subst (Holds s.dict) ht (h t) in
    let hl' = subst (Holds s.dict) hu (h u) in
    (
      λ e. some_inj (sym hl ∙ ap (λ k. lookup k s.dict.forward) e ∙ hl'),
      λ e. some_inj (sym (inv.0 pk id hl) ∙ ap (get_elem? s.dict.reverse) e ∙ inv.0 pk' id' hl'),
    )

-- An id that a call returned resolves to its key in every state that is reached later and that has
-- at most 2^32 interned keys.
pub returned_resolves :
    (keys : ℕ → Text) (s later : Shared) (t : ℕ) (pk : Text) (id : ℕ)
    → Reach (initial keys) s
    → s.calls t ≡ returned pk id
    → Reach s later
    → length later.dict.reverse ≤ 4294967296
    → get_elem? later.dict.reverse id ≡ some pk
returned_resolves keys s later t pk id r ht r' fits =
    let (sound, ext) =
      Reach-IsSound r (omega (arith, Reach-grows r', fits)) (initial-IsSound keys) in
    let (sound', ext') = Reach-IsSound r' fits sound in
    ext'.1 pk id (sound.0.0 pk id (subst (Holds s.dict) ht (sound.1 t)))
