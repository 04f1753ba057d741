-- ===== src/Ident.antt =====
-- crates/fido-key-wrap/src/id.rs: application and recipient identities (see the children).
pub mod Application
pub mod Recipient
