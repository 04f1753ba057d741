-- ===== src/Crypto.antt =====
-- crates/fido-key-wrap/src/crypto.rs. The children model the primitives that it takes from other
-- crates (Suite), the transcripts that bind a recipient (Context), the keys (Keys), the wrapping of
-- the root (Wrap) and the mac of the envelope (Mac).
pub mod Suite
pub mod Context
pub mod Keys
pub mod Wrap
pub mod Mac
