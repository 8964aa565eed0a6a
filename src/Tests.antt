-- ===== src/Tests.antt =====
-- Concrete environments and messages, runs of the model, and the theorems at concrete inputs.
mod Fixtures
mod Boards
mod Breakers
mod Clients
mod Messages
mod Batches
mod Entry
mod Handling
mod Outages
mod Published
mod Logs
mod Containers
mod Healthy
mod Queues
mod Replaying
