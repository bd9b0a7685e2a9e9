-- ===== src/Envelope.antt =====
-- apps/engine/src/ds.rs: the envelope of a change. A JSON value is an element of the parameter `J`.
use electric_circuits.Prelude.{ℕ, Bool, Option}
use electric_circuits.Value.{Text}

pub record EnvelopeHeaders : Type 0 where
  pub operation : Text
  pub txid : Option Text
  pub offset : Option Text
  pub lsn : Option Text
  pub seq : Option ℕ
  pub last : Option Bool

pub record Envelope (J : Type 0) : Type 0 where
  pub type_ : Text
  pub key : Text
  pub value : Option J
  pub old : Option J
  pub headers : EnvelopeHeaders
