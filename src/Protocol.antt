-- ===== src/Protocol.antt =====
-- Package protocol (protocol/raw.go, protocol/message.go, protocol/settings.go): the session
-- keys, the framing of messages, the registers that messages carry, and the vehicle settings.
pub mod SecurityKey
pub mod Frame
pub mod Constants
pub mod Types
pub mod Register
pub mod Message
pub mod Stream
pub mod Settings
