-- ===== src/Cpp.antt =====
-- src/cpp/preprocessor.c: the preprocessor.
pub mod Conditional
