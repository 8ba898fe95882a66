-- ===== src/Tests.antt =====
-- The theorems at concrete inputs, and runs of the definitions.
mod Urls
mod Servers
mod Connections
mod Sockets
mod Replies
mod Channels
mod Logs
