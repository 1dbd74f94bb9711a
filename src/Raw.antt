-- ===== src/Raw.antt =====
-- internal/raw: the append-only archive of payloads.
mod Examples
pub mod Part
pub mod Writer
pub mod Durable
pub mod Safety
pub mod Lasting
pub mod Directory
