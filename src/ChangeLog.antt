-- ===== src/ChangeLog.antt =====
-- apps/engine/src/changelog.rs: the segmented change log, its positions, its control envelopes, the
-- writer that rotates it and the planning of which segments a sweep deletes.
pub mod Position
pub mod Writer
pub mod Server
pub mod Walk
pub mod Rotation
pub mod Rotated
pub mod Appending
pub mod Deletion
pub mod Deletable
mod Sample
mod Examples
