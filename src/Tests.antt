-- ===== src/Tests.antt =====
-- The theorems at concrete inputs: `Data` holds the inputs, and the others use them.
mod Data
mod Commands
mod Keys
mod Frames
mod Gateways
mod Messages
mod Streams
mod Registers
mod Sessions
mod Runs
mod Clients
mod Bridges
mod Emulators
mod Exchanges
mod Cars
