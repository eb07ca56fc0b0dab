-- ===== src/Mqtt.antt =====
-- The MQTT bridge of cmd/mqtt.go: `Climate` is its climate state, `Publish` what it publishes of
-- the registers that it receives, `Incoming` its handler of topics, `Session` one connection to the
-- car, `Run` one connection after another, and `Discovery` the texts for Home Assistant.
pub mod Climate
pub mod Discovery
pub mod Incoming
pub mod Publish
pub mod Session
pub mod Run
