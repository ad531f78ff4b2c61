-- ===== src/Memcached.antt =====
-- memcached/server/: items, the sharded store, the command tokens, and the session protocol.
pub mod Item
pub mod Server
pub mod Store
pub mod Tokens
pub mod Words
pub mod Commands
pub mod Conversation
pub mod RoundTrip
pub mod Threads
pub mod Linear
mod Tests
mod ThreadTests
pub mod Session
pub mod Loop
pub mod Ends
pub mod SplitLine
