-- ===== src/Tests.antt =====
-- Runs of the model against a small server and small JSON parsers, and every theorem at a concrete
-- input.
pub mod Server
pub mod Pushed
pub mod Commands
pub mod Operations
pub mod Requests
pub mod Sending
pub mod Conditioner
pub mod Sample
pub mod Environment
pub mod Board
pub mod Network
