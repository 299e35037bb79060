-- ===== src/Tests.antt =====
-- The theorems at concrete inputs, and the definitions run on them.
pub mod Wire
pub mod Program
pub mod Messages
pub mod Streams
pub mod Clients
pub mod Requests
pub mod Upstream
pub mod Exchange
pub mod Serving
pub mod Tracks
