-- ===== src/Video/Packetizer.antt =====
-- video/packetizer.rs: an encoded frame is cut into data shards, in at most four blocks, each with
-- parity shards of its own and, on demand, each shard encrypted.
-- fec_rs and aes_gcm are parameters, as a record of their operations. The machine is 64-bit and
-- arithmetic wraps, as in the release builds.
pub mod Layout
pub mod Shard
pub mod Crates
pub mod State
pub mod Block
pub mod Frame
