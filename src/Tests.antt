-- ===== src/Tests.antt =====
-- Concrete instances of what the development takes as parameters, and runs of the code on them.
pub mod Toy
mod Core
mod Tls
mod Engine
mod Shake
mod Fields
mod Events
pub mod Sockets
mod Streams
mod Tasks
mod Addresses
mod Owners
mod Texts
mod Programs
mod Kernels
