-- ===== src/Etl.antt =====
-- src/cli/etl: the backfill of a directory of stream files. The directory and the Parquet files are
-- interfaces; the workers' results and the order of the files are modelled.
pub mod Types
pub mod Workers
pub mod Records
pub mod Blocks
pub mod Parquet
pub mod Directory
