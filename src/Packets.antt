-- ===== src/Packets.antt =====
-- The package `packets`: the binary wire format and the seven packet types.
pub mod Io
pub mod VarInt
pub mod Wire
pub mod Address
pub mod Options
pub mod Packet
mod Tests
