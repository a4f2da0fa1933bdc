-- ===== src/Invariant.antt =====
-- What is to hold of the store between two operations, and the operations against it.
pub mod Post
pub mod Neighbours
pub mod Graph
pub mod Link
pub mod Newcomer
pub mod Unlink
pub mod Frames
pub mod Stop
pub mod Paced
pub mod Attempt
pub mod Start
pub mod Quiet
pub mod Supply
pub mod Runs
pub mod Switch
pub mod Calls
pub mod Managing
pub mod Manager
pub mod Shutdown
pub mod Property
pub mod Tracked
pub mod Outcomes
pub mod Serials
pub mod Handed
pub mod Answered
pub mod Joined
