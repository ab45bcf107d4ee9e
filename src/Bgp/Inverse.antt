-- ===== src/Bgp/Inverse.antt =====
-- What is written to a packet is read back: writing (Write, Put, Session), reading (Fields, Start, Read,
-- Load, Receive), both (RoundTrip), and the same for open messages (Open).
pub mod Write
pub mod Put
pub mod Read
pub mod Fields
pub mod Start
pub mod Session
pub mod Load
pub mod Receive
pub mod RoundTrip
pub mod Open
