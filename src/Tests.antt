-- ===== src/Tests.antt =====
-- Concrete runs of the code, and instances of the parameters it takes.
mod Library
mod Tcp
mod Transfer
mod Agent
mod Config
mod Ntp
mod Delivery
mod Writer
mod Daemon
mod Sessions
