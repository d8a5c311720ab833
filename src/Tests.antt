-- ===== src/Tests.antt =====
-- Runs of the model at concrete inputs: `Samples` has a gateway with one provider that keeps a list
-- of memories; the other modules apply the results to it.
pub mod Samples
pub mod OfCatalog
pub mod OfCore
pub mod OfServer
pub mod OfPgvector
pub mod OfAdapters
pub mod OfSettings
