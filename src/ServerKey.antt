-- ===== src/ServerKey.antt =====
-- Package serverkey: profiles, key objects, their signatures and their verification, and the wrapping of
-- private keys.
pub mod Profile
pub mod Numbers
pub mod Object
pub mod Verify
pub mod PrivateKey
