-- ===== src/Ipc.antt =====
-- The package ipc: the event bus, the mux of methods and the dispatch of a request.
pub mod Bus
pub mod Mux
pub mod Params
pub mod Server
mod Samples
