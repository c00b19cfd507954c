-- ===== src/Tests.antt =====
-- The theorems of the library applied to concrete inputs.
mod Encoding
mod Transactions
mod Evaluation
mod Scripts
mod Spends
mod Addresses
mod Trees
mod Partial
