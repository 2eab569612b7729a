-- ===== src/Client.antt =====
-- The browser side, web-interface-js/frontend/src: the hooks that keep live state, their connection and
-- queues, the stored session and the login, the URLs, and the logic of the pages and panels.
pub mod Recent
pub mod Link
pub mod Dashboard
pub mod Signals
pub mod Session
pub mod Urls
pub mod Hook
pub mod Panels
pub mod Drawdown
pub mod Desk
pub mod Views
pub mod Commands
pub mod Login
pub mod Formats
