-- ===== src/Client/Views.antt =====
-- What the components of web-interface-js/frontend/src/components and the pages render.
pub mod Matches
pub mod Tickets
pub mod Execution
pub mod Profit
pub mod Logs
pub mod Fit
pub mod Accuracy
