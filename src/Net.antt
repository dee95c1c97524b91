-- ===== src/Net.antt =====
-- services/net, the network services.
pub mod Arp
pub mod Routes
pub mod Tcp
mod Examples
pub mod Checksum
