-- ===== src/Example.antt =====
-- Concrete runs of the model, and the theorems at concrete inputs.
mod Tally
mod Messages
mod Books
mod Stores
mod Clients
mod Orders
mod Services
mod Ingest
mod Workers
mod Fanout
mod Events
mod Refreshes
mod Submissions
