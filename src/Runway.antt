-- ===== src/Runway.antt =====
-- runway_hook.c: the JSON that it writes and reads, its command line, and the loop that polls a task.
pub mod Json
pub mod Task
pub mod Submit
mod Tests
