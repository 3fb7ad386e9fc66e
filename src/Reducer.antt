-- ===== src/Reducer.antt =====
-- The reducer, the single writer of the server's database: go/internal/reducer.
pub mod Lease
pub mod Admission
pub mod JobAsset
pub mod JobEvents
pub mod Apply
