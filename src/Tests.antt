-- ===== src/Tests.antt =====
-- The theorems at concrete inputs.
mod Data
mod Keys
mod Wallets
mod Payments
mod Requests
mod Endpoint
mod Tokens
mod Announcements
mod Prices
mod Config
mod Operation
mod Logs
