-- ===== src/Tests.antt =====
-- Runs of the models on concrete inputs, and the theorems applied to such inputs.
pub mod Sending
pub mod Chat
pub mod Capture
pub mod Network
pub mod Asio
pub mod Sniffer
pub mod Ssl
pub mod Http
pub mod Files
pub mod Tcp
pub mod Udp
pub mod Qnet
pub mod Lifetime
pub mod Window
pub mod Session
