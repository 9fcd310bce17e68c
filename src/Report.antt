-- ===== src/Report.antt =====
-- The report package: what a benchmark is turned into and how it is written. The JSON form is not
-- modelled.
pub mod Parts
pub mod Averages
pub mod Text
pub mod Json
pub mod Print
pub mod Secrets
pub mod Aligned
