-- ===== src/Tool.antt =====
-- crates/fkw-tool: the command-line tool. The children model the container of an encrypted secret
-- (Container).
pub mod Container
