-- ===== src/ChangeLog/Sample.antt =====
-- A server that answers and never fails, as a map from segments to whether they are closed and what
-- they hold; the one of the examples.
use electric_circuits.Prelude.{
  ℕ, ◌≡◌, ◌≢◌, ◌⊎◌, inl, inr, ◌∙◌, ap, refl, sym, Bool, true, false, Option, none, some, List, [],
  ◌++◌, ◌==◌, ==_refl, ==_eq, nat_ord, if◌then◌else◌, arith, Bool-cases,
}
use electric_circuits.Value.{Text}
use electric_circuits.Envelope.{Envelope}
use electric_circuits.ChangeLog.Writer.{DsClient, Appended}
use electric_circuits.ChangeLog.Server.{Server}

abbrev pub Stream : Type 0
Stream = Option (Bool × List (Envelope ℕ))

abbrev pub Store : Type 0
Store = ℕ → Stream

abbrev put : ℕ → Stream → Store → Store
put n v s m = if m == n then v else s m

put_same : (n : ℕ) (v : Stream) (s : Store) → put n v s n ≡ v
put_same n v s = rw (==_refl n) refl

pub put_other : (n m : ℕ) (v : Stream) (s : Store) → m ≢ n → put n v s m ≡ s m
put_other n m v s ne = elim (Bool-cases (m == n)) [
  | inl e ↦ absurd (ne (==_eq m n e))
  | inr e ↦ rw e refl
]

abbrev closed_of : Stream → Option Bool
closed_of none = none
closed_of (some p) = some p.0

abbrev held_by : Stream → List (Envelope ℕ)
held_by none = []
held_by (some p) = p.1

abbrev opened : Stream → Stream
opened none = some (false, [])
opened (some p) = some p

abbrev grown : List (Envelope ℕ) → Stream → Stream
grown envs none = none
grown envs (some p) = some (p.0, p.1 ++ envs)

abbrev close : ℕ → Store → Stream → Bool × Store
close n s none = (false, s)
close n s (some p) = (true, put n (some (true, p.1)) s)

abbrev check : ℕ → List (Envelope ℕ) → Store → Stream → Option Appended × Store
check n envs s none = (some (Appended.retired 404), s)
check n envs s (some (true, held)) = (some (Appended.retired 409), s)
check n envs s (some (false, held)) =
    (some (Appended.ok none), put n (some (false, held ++ envs)) s)

abbrev pub client : DsClient Store ℕ
client = record {
  head = λ n s. some (closed_of (s n));
  ensure_stream = λ n s. (true, put n (opened (s n)) s);
  append = λ n envs s. (true, put n (grown envs (s n)) s);
  append_checked = λ n envs s. check n envs s (s n);
  close_stream = λ n s. close n s (s n);
  appended_bytes = λ n s. 0;
}

opened_same :
    (v : Stream)
    → (closed_of (opened v) ≡ closed_of v)
      ⊎ ((closed_of v ≡ none) × (closed_of (opened v) ≡ some false))
opened_same none = inr (refl, refl)
opened_same (some p) = inl refl

opened_done : (v : Stream) → (c : Bool) × (closed_of (opened v) ≡ some c)
opened_done none = (false, refl)
opened_done (some p) = (p.0, refl)

grown_closed : (envs : List (Envelope ℕ)) (v : Stream) → closed_of (grown envs v) ≡ closed_of v
grown_closed envs none = refl
grown_closed envs (some p) = refl

pub ensured :
    (n : ℕ) (s : Store)
    → (closed_of (put n (opened (s n)) s n) ≡ closed_of (s n))
      ⊎ ((closed_of (s n) ≡ none) × (closed_of (put n (opened (s n)) s n) ≡ some false))
ensured n s = rw (put_same n (opened (s n)) s) (opened_same (s n))

pub present : (n : ℕ) (s : Store) → (c : Bool) × (closed_of (put n (opened (s n)) s n) ≡ some c)
present n s = rw (put_same n (opened (s n)) s) (opened_done (s n))

pub grown_status :
    (n m : ℕ) (envs : List (Envelope ℕ)) (s : Store)
    → closed_of (put n (grown envs (s n)) s m) ≡ closed_of (s m)
grown_status n m envs s = elim (Bool-cases (m == n)) [
  | inr e ↦ rw e refl
  | inl e ↦ rw e (grown_closed envs (s n) ∙ ap (λ k. closed_of (s k)) (sym (==_eq m n e)))
]

pub close_other :
    (n m : ℕ) (s : Store) (v : Stream) → m ≢ n → closed_of ((close n s v).1 m) ≡ closed_of (s m)
close_other n m s none ne = refl
close_other n m s (some p) ne = ap closed_of (put_other n m (some (true, p.1)) s ne)

pub close_same :
    (n : ℕ) (s : Store) (v : Stream)
    → (closed_of ((close n s v).1 n) ≡ closed_of (s n))
      ⊎ (closed_of ((close n s v).1 n) ≡ some true)
close_same n s none = inl refl
close_same n s (some p) = inr (ap closed_of (put_same n (some (true, p.1)) s))

pub close_done :
    (n : ℕ) (s : Store) (v : Stream)
    → (close n s v).0 ≡ true
    → closed_of ((close n s v).1 n) ≡ some true
close_done n s none h = absurd (ground arith)
close_done n s (some p) h = ap closed_of (put_same n (some (true, p.1)) s)

pub check_status :
    (n m : ℕ) (envs : List (Envelope ℕ)) (s : Store) (v : Stream)
    → s n ≡ v
    → closed_of ((check n envs s v).1 m) ≡ closed_of (s m)
check_status n m envs s none h = refl
check_status n m envs s (some (true, held)) h = refl
check_status n m envs s (some (false, held)) h = elim (Bool-cases (m == n)) [
  | inr e ↦ rw e refl
  | inl e ↦ rw e (ap closed_of (sym h) ∙ ap (λ k. closed_of (s k)) (sym (==_eq m n e)))
]

pub check_open :
    (n : ℕ) (envs : List (Envelope ℕ)) (s : Store) (v : Stream) (next : Option Text)
    → s n ≡ v
    → (check n envs s v).0 ≡ some (Appended.ok next)
    → (closed_of (s n) ≡ some false) × (held_by ((check n envs s v).1 n) ≡ held_by (s n) ++ envs)
check_open n envs s none next h k = absurd (ground arith)
check_open n envs s (some (true, held)) next h k = absurd (ground arith)
check_open n envs s (some (false, held)) next h k = (
  ap closed_of h,
  ap held_by (put_same n (some (false, held ++ envs)) s) ∙ ap (λ v. held_by v ++ envs) (sym h),
)

pub check_other :
    (n m : ℕ) (envs : List (Envelope ℕ)) (s : Store) (v : Stream)
    → m ≢ n
    → held_by ((check n envs s v).1 m) ≡ held_by (s m)
check_other n m envs s none ne = refl
check_other n m envs s (some (true, held)) ne = refl
check_other n m envs s (some (false, held)) ne =
    ap held_by (put_other n m (some (false, held ++ envs)) s ne)

pub check_retired :
    (n m : ℕ) (envs : List (Envelope ℕ)) (s : Store) (v : Stream) (code : ℕ)
    → (check n envs s v).0 ≡ some (Appended.retired code)
    → held_by ((check n envs s v).1 m) ≡ held_by (s m)
check_retired n m envs s none code h = refl
check_retired n m envs s (some (true, held)) code h = refl
check_retired n m envs s (some (false, held)) code h = absurd (ground arith)

abbrev pub server : Server Store ℕ client
server = record {
  status = λ s n. closed_of (s n);
  contents = λ s n. held_by (s n);
  head_status = λ n s. inr refl;
  ensure_other = λ n m s ne. ap closed_of (put_other n m (opened (s n)) s ne);
  ensure_same = λ n s. ensured n s;
  ensure_done = λ n s h. present n s;
  append_status = grown_status;
  close_other = λ n m s ne. close_other n m s (s n) ne;
  close_same = λ n s. close_same n s (s n);
  close_done = λ n s h. close_done n s (s n) h;
  checked_status = λ n m envs s. check_status n m envs s (s n) refl;
  checked_open = λ n envs s next h. check_open n envs s (s n) next refl h;
  checked_other = λ n m envs s ne. check_other n m envs s (s n) ne;
  checked_retired = λ n m envs s code h. check_retired n m envs s (s n) code h;
}
