-- ===== src/ChangeLog/Server.antt =====
-- The durable-streams server as apps/engine/src/changelog.rs relies on it: what each call does to
-- the status of a stream (absent, open, or closed) and to its contents. A call that fails may or may
-- not have taken effect.
use electric_circuits.Prelude.{ℕ, ◌≡◌, ◌≢◌, ◌⊎◌, Bool, true, false, Option, none, some, List, ◌++◌}
use electric_circuits.Value.{Text}
use electric_circuits.Envelope.{Envelope}
use electric_circuits.ChangeLog.Writer.{DsClient, Appended}

pub record Server (S : Type 0) (J : Type 0) (ds : DsClient S J) : Type 0 where
  -- Whether the stream of a segment is closed, where there is one.
  pub status : S → ℕ → Option Bool
  pub contents : S → ℕ → List (Envelope J)
  pub head_status : (n : ℕ) (s : S) → (ds.head n s ≡ none) ⊎ (ds.head n s ≡ some (status s n))
  -- A stream that was there is left as it is.
  pub ensure_other : (n m : ℕ) (s : S) → m ≢ n → status (ds.ensure_stream n s).1 m ≡ status s m
  pub ensure_same :
      (n : ℕ) (s : S)
      → (status (ds.ensure_stream n s).1 n ≡ status s n)
        ⊎ ((status s n ≡ none) × (status (ds.ensure_stream n s).1 n ≡ some false))
  pub ensure_done :
      (n : ℕ) (s : S)
      → (ds.ensure_stream n s).0 ≡ true
      → (closed : Bool) × (status (ds.ensure_stream n s).1 n ≡ some closed)
  pub append_status :
      (n m : ℕ) (envs : List (Envelope J)) (s : S) → status (ds.append n envs s).1 m ≡ status s m
  pub close_other : (n m : ℕ) (s : S) → m ≢ n → status (ds.close_stream n s).1 m ≡ status s m
  pub close_same :
      (n : ℕ) (s : S)
      → (status (ds.close_stream n s).1 n ≡ status s n)
        ⊎ (status (ds.close_stream n s).1 n ≡ some true)
  pub close_done :
      (n : ℕ) (s : S)
      → (ds.close_stream n s).0 ≡ true
      → status (ds.close_stream n s).1 n ≡ some true
  -- An append that is accepted went to an open stream, and one that finds a retired stream did not
  -- take effect.
  pub checked_status :
      (n m : ℕ) (envs : List (Envelope J)) (s : S)
      → status (ds.append_checked n envs s).1 m ≡ status s m
  pub checked_open :
      (n : ℕ) (envs : List (Envelope J)) (s : S) (next : Option Text)
      → (ds.append_checked n envs s).0 ≡ some (Appended.ok next)
      → (status s n ≡ some false)
        × (contents (ds.append_checked n envs s).1 n ≡ contents s n ++ envs)
  pub checked_other :
      (n m : ℕ) (envs : List (Envelope J)) (s : S)
      → m ≢ n
      → contents (ds.append_checked n envs s).1 m ≡ contents s m
  pub checked_retired :
      (n m : ℕ) (envs : List (Envelope J)) (s : S) (code : ℕ)
      → (ds.append_checked n envs s).0 ≡ some (Appended.retired code)
      → contents (ds.append_checked n envs s).1 m ≡ contents s m
