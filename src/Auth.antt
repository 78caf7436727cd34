-- ===== src/Auth.antt =====
-- shared/procuresignal/auth and api/dependencies.py: who is signed in.
pub mod Store
pub mod Access
pub mod Sessions
pub mod Registration
