-- ===== src/Examples.antt =====
-- Concrete runs of the relay, the vendor and the hooks, over a small platform.
pub mod Toy
mod RelayRuns
mod VendorRuns
mod ClientRuns
mod HookRuns
mod SimulatorRuns
mod ViewRuns
pub mod RedisToy
mod HistoryRuns
mod PanelRuns
