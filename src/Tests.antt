-- ===== src/Tests.antt =====
-- Concrete inputs: a grammar library, headers, and the theorems applied to them.
mod Samples
mod Metadata
mod Handlers
mod Containers
mod Quoted
mod Blocks
mod Streams
mod Parsers
mod Numbers
mod Names
mod Headers
mod Setters
mod Copies
