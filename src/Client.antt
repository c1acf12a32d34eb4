-- ===== src/Client.antt =====
-- The runtime client, src/pyhems/runtime.py.
pub mod GetBatches
pub mod RequestQueue
pub mod TransactionId
pub mod Replies
pub mod Discovery
pub mod Routing
pub mod Reads
pub mod Sending
