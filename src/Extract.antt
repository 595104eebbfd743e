-- ===== src/Extract.antt =====
-- backfill/extract.go: one archived transaction becomes a landing row.
pub mod Chain
pub mod Wsol
pub mod Conservation
pub mod Programs
pub mod Balance
pub mod Build
pub mod TipLoop
pub mod TipGains
pub mod TipLaws
pub mod ProgramLaws
pub mod Laws
pub mod Position
pub mod DeltaLaws
