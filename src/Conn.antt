-- ===== src/Conn.antt =====
-- The connection server, conn/*.c: its state, and the module's parts.
pub mod Hash
pub mod State
pub mod Send
pub mod Commands
pub mod Replies
pub mod Events
pub mod Routes
pub mod Gate
pub mod Delivery
pub mod Offline
pub mod Sockets
pub mod Start
pub mod Live
pub mod Safety
pub mod Faults
pub mod Closing
pub mod Relogin
pub mod Sweeping
pub mod Timeout
pub mod Expiry
pub mod Loop
pub mod Writing
pub mod Flushing
pub mod Draining
pub mod Serving
pub mod Reading
mod Tests
mod EventTests
mod ExpiryTests
mod LinkTests
