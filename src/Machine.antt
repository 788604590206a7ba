-- ===== src/Machine.antt =====
-- The machine under the ARM code. A run extends a trace of events, newest first. The board, which
-- is any function, answers each event from the whole trace, so that every deterministic device and
-- every behaviour of the outside world along a run is some board.
mod Events
mod State
mod Ops
pub mod Ends
pub mod Calm
pub use Events.{Event, load, store, call, Width, byte, half, word, Call}
pub use State.*
unfoldable pub use Ops.*
