-- ===== src/Client.antt =====
-- Package client (client/client.go): the listeners of a client, its connection state and the
-- handlers of its goroutines. A buffered channel is the list of the messages in it.
pub mod Listener
pub mod State
pub mod SetRegister
pub mod Loops
pub mod Threads
pub mod Waits
