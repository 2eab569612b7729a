-- ===== src/Vendor.antt =====
-- The local simulator, mock-vendor/server.js: the settlement book and the trade server (`Book`), the
-- vendor feed (`Script`, `Feed`), the routes of the upgrades (`Routes`), and all of it over one
-- shared state (`Simulator`).
pub mod Book
pub mod Script
pub mod Feed
pub mod Routes
pub mod Simulator
