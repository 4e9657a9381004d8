-- ===== src/Auth.antt =====
-- routstr/auth.py. `Payment` has the reservation of a request's cost and its settlement; `Bearer`
-- has the keys and tokens that a request presents.
pub mod Payment
pub mod Bearer
