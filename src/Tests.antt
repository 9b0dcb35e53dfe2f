-- ===== src/Tests.antt =====
-- Sample data, test runs and the theorems at concrete inputs.
mod Samples
mod Cart
mod Requests
mod Form
mod Grid
mod Server
mod Deployed
mod AuthSystem
mod Auth
mod AuthRefresh
mod Site
