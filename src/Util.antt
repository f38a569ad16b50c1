-- ===== src/Util.antt =====
-- src/util/util.c and util.h: words, containers and text helpers.
pub mod Align
pub mod Vector
pub mod Strings
pub mod Buffer
