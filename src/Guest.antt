-- ===== src/Guest.antt =====
-- The parts of the guest daemon (fendd/src) beside its protocol: the monitors, the start of the
-- machine, and the connection of a command.
pub mod Subscribers
pub mod ProcNet
pub mod PortMonitor
pub mod NetworkMonitor
pub mod Connection
pub mod Init
