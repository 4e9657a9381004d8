-- ===== src/Payment.antt =====
-- routstr/payment: what a request costs.
pub mod Cost
pub mod Helpers
pub mod Invoice
pub mod Lnurl
pub mod XCashu
