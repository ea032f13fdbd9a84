-- ===== src/Dhcpv4.antt =====
-- The DHCPv4 server of internal/dhcpv4: options, packets, relay information, address pools and the
-- handler of the messages.
pub mod Options
pub mod Packet
pub mod Relay
pub mod Reply
pub mod Pool
pub mod Handler
pub mod Tests
pub mod HandlerTests
