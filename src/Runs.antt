-- ===== src/Runs.antt =====
-- The theorems at concrete inputs.
mod Http
mod Bridge
mod Codec
mod Buffers
mod Fixtures
mod Server
mod Files
mod Streams
