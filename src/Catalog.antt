-- ===== src/Catalog.antt =====
-- src/memgw/catalog.py: the gateway's own tables. `Schema` has the rows, `Store` the state and the
-- environment, `Index`, `Bindings` and `Journal` the operations on the three tables; the other
-- modules hold proofs about these.
pub mod Schema
pub mod Lifecycle
pub mod Store
pub mod Index
pub mod Lookup
pub mod Keys
pub mod Revival
pub mod Mapping
pub mod Answer
pub mod MapLaws
pub mod MapState
pub mod Others
pub mod Resolve
pub mod Insertion
pub mod MapReturns
pub mod Rows
pub mod Bindings
pub mod Journal
pub mod RowLaws
pub mod BindingLaws
pub mod JournalLaws
