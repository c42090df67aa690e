-- ===== src/Tests.antt =====
-- Concrete connections, messages and lists on which the theorems of the library are applied.
pub mod Streams
pub mod Messages
pub mod Wire
pub mod Sockets
pub mod Calls
pub mod Cluster
pub mod Daemon
pub mod Pools
pub mod Monitors
pub mod Starting
pub mod Detaching
pub mod Joining
pub mod Opening
pub mod Machine
