-- ===== src/Cannelloni.antt =====
-- The Cannelloni client, j2534_OverIP/j2534cannelloniclient.{h,cpp}: CAN frames over UDP.
pub mod Packet
pub mod Receive
pub mod Client
pub mod System
pub mod Memory
pub mod Calls
pub mod Methods
pub mod Sessions
pub mod Runs
pub mod Refused
pub mod Delivery
