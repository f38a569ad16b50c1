-- ===== src/Codegen.antt =====
-- src/cc/codegen.c: the code of statements.
pub mod Switch
pub mod Tests
