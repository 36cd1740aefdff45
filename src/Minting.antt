-- ===== src/Minting.antt =====
-- src/krb5_token_service/minting.py: names and lifetimes that are accepted, the classification of a
-- child's errors, the buffers that hold secrets, and the three functions that start a child.
pub mod Names
pub mod Classify
pub mod Buffers
pub mod Child
pub mod Tickets
pub mod Written
pub mod Renewals
pub mod Keytabs
