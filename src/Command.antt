-- ===== src/Command.antt =====
-- The commands of cmd/: `Set` is cmd/set.go, `Register` cmd/register.go, `Watch` cmd/watch.go,
-- `Emulator` cmd/emulator.go, `Decode` and `Packets` cmd/hex.go, cmd/file.go and cmd/pcap.go, and
-- `StartUp` how they start, with cmd/root.go.
pub mod Decode
pub mod Packets
pub mod Emulator
pub mod Register
pub mod Set
pub mod StartUp
pub mod Watch
