-- ===== src/Session.antt =====
-- elliptics/session.go and elliptics/callback.go: requests, the callbacks of the C library, and the
-- channels on which a caller reads the answers.
pub mod Results
pub mod Interfaces
pub mod World
pub mod Chunks
pub mod Callback
pub mod Arrival
pub mod Requests
pub mod Writes
pub mod Uploads
pub mod Stream
pub mod Bulk
pub mod Statistics
pub mod Settings
pub mod Ledger
pub mod Keys
pub mod Located
pub mod Backends
pub mod Delivery
