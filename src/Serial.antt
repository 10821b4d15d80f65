-- ===== src/Serial.antt =====
-- src/lib/middfs-serial.c: packets to bytes and back. `Writer` and `Reader` say how its functions
-- are composed; `Encode` and `Decode` are the functions; `Format` describes the bytes by
-- themselves; the children of `Encode` and `Decode` prove that the functions follow the format.
pub mod Writer
pub mod Format
pub mod Valid
pub mod Encode
pub mod Reader
pub mod Decode
pub mod RoundTrip
