-- ===== src/Tests.antt =====
-- Runs of the model on concrete libraries, and the theorems at concrete inputs.
pub mod Libraries
pub mod Content
pub mod Keys
pub mod Uploads
pub mod Objects
pub mod Files
pub mod Exchanges
pub mod Clients
pub mod Service
pub mod Client
pub mod ClientReturns
pub mod Lines
pub mod Fetches
