-- ===== src/Predicate.antt =====
-- apps/engine/src/predicate.rs: the compiled predicates, their three-valued evaluation and the
-- access structures read off them. `Ast` holds the data, `Like` the text matcher, `Eval` the
-- evaluator; the proofs stand in modules of their own.
pub mod Ast
pub mod Like
pub mod Eval
pub mod Compile
pub mod Kleene
pub mod Meaning
pub mod Access
pub mod Template
mod Examples
