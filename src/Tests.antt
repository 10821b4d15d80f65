-- ===== src/Tests.antt =====
-- Tests, and the theorems at concrete inputs.
pub mod Data
pub mod Library
pub mod Serial
pub mod Buf
pub mod Server
pub mod Client
pub mod System
pub mod Remote
pub mod Requests
pub mod Descriptors
pub mod Conf
pub mod Wire
