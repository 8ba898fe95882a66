-- ===== src/Signal.antt =====
-- Signal.cpp: the connection to the signaling server and the requests that it carries.
pub mod Config
pub mod Race
pub mod Request
pub mod State
pub mod Links
pub mod Send
pub mod Builders
pub mod NodeRtts
pub mod Connection
pub mod Connect
pub mod Settings
pub mod Response
pub mod Receive
