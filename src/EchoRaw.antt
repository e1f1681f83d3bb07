-- ===== src/EchoRaw.antt =====
-- The raw-socket echo service (echo_raw/): checksums, packets, the table of clients, the server
-- and the client.
pub mod Checksum
pub mod Packet
pub mod ClientTable
pub mod Server
pub mod Client
pub mod Host
pub mod Session
pub mod Start
