-- ===== src/Emulator.antt =====
-- Package emulator (emulator/car.go, emulator/connection.go, emulator/state_machine.go): the car's
-- registers and settings, and the connection that serves them to a client.
pub mod Car
pub mod Connection
pub mod Handshake
pub mod Exchange
