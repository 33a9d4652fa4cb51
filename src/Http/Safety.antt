-- ===== src/Http/Safety.antt =====
-- The endpoint never follows a pointer that is null or of another type: the invariant behind it, and
-- its preservation by every event and every call of a user.
pub mod Valid
pub mod Maps
pub mod Inv
pub mod Users
pub mod Serving
pub mod Wakeup
pub mod Message
pub mod Pointers
pub mod Poll
pub mod PollReplies
pub mod Refusal
pub mod Loops
pub mod Close
pub mod Events
pub mod Setups
pub mod Reach
pub mod Closing
pub mod Failures
pub mod Backpressure
