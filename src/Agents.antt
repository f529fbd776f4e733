-- ===== src/Agents.antt =====
-- The agent: what the model's output is read as, the loop of tool calls, and the bubbles of a turn.
pub mod Output
pub mod Runner
pub mod Bubbles
mod Tests
mod BubbleTests
