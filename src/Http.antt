-- ===== src/Http.antt =====
-- http/: the request, the incremental request parser, and the response.
pub mod StdMap
pub mod Request
pub mod Context
pub mod FirstLine
pub mod Message
pub mod Rounds
pub mod Body
pub mod Response
pub mod Frame
mod Tests
