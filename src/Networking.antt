-- ===== src/Networking.antt =====
-- rust/filedrop-core/src/networking/: choosing a port, and finding an address of the local network. The
-- operating system's answers are arguments.
pub mod PortScan
pub mod LanAddress
pub mod Mode
mod Tests
