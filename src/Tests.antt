-- ===== src/Tests.antt =====
-- Concrete inputs for the theorems, and tests of the definitions on them.
mod Configs
mod Accounts
mod Streams
mod Hosts
mod Streaming
mod Uploads
mod Calling
mod Preparing
mod Building
mod Fallbacks
mod Serving
mod Started
mod Shapes
mod Turns
mod Rewrites
mod Histories
