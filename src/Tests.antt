-- ===== src/Tests.antt =====
-- Runs of the model at concrete inputs, and the theorems at inputs that meet their hypotheses.
mod Arrays
mod Pools
mod Building
mod Hosts
mod Tasks
mod Requests
mod Parsing
mod Responses
mod Sockets
mod Files
mod Forms
mod Scheduling
mod Ranges
mod Programs
mod Instances
mod Streams
mod Errors
mod Pointers
mod Ports
