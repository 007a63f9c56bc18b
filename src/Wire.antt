-- ===== src/Wire.antt =====
-- The byte formats of app/services/decode.py. A `bytes` value is a list of numbers below 256, and
-- a position in it is the suffix that starts there.
pub mod Varint
pub mod Proto
