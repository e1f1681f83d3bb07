-- ===== src/MessageQueues.antt =====
-- The programs of `message_queues`: the server and the client of the chat.
pub mod ChatServer
pub mod ChatClient
pub mod Sysv
pub mod Posix
