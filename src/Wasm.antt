-- ===== src/Wasm.antt =====
-- wasm/src: the byte storage and the numbers of the WebAssembly back end.
pub mod Storage
pub mod Leb
mod Tests
