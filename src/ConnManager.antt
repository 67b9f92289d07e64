-- ===== src/ConnManager.antt =====
-- The connection manager, include/connManager: what a connection is named by (`Info`), the message
-- bus (`Bus`), a pool of connections (`Pool`), the manager of the pools with the reports of their
-- connections (`Manager`), the service discovery (`Discovery`) as the manager uses it
-- (`Polling`), its timer (`DiscoveryTimer`), and runs of them (`Examples`).
pub mod Info
pub mod Bus
pub mod Pool
pub mod Manager
pub mod Discovery
pub mod Polling
pub mod DiscoveryTimer
mod Examples
