-- ===== src/Tests.antt =====
-- Concrete histories of the components: the theorems at inputs on which they say something.
mod Toy
mod Handles
mod Programs
mod Timers
mod Pools
mod Scripts
mod Ends
mod Requests
mod Builders
mod Streams
mod Jsons
mod Sockets
mod Systems
