-- ===== src/Lib.antt =====
-- Verification library of hiero-streams-rs, a parser and verifier of Hedera's consensus streams.
--
-- The program. A stream file is inflated and its era detected (src/lib.rs). A v6 record file is parsed
-- by src/record/mod.rs and verified by src/record/verify.rs: its hash, the nodes' signatures, the
-- chain of running hashes. A block is parsed by src/block/mod.rs; src/block/material.rs recomputes its
-- merkle root from the items that src/block/wire.rs scans, with the trees of src/block/merkle.rs, and
-- makes inclusion witnesses of its transactions. Both parsers produce the transactions of
-- src/transaction.rs. src/block/proof verifies the network's proof over a block's root, and
-- src/cli/sentinel.rs follows the live stream with both, block by block; src/cli/etl turns a directory
-- of files into rows by day, and can check the chain of the files on the way.
--
-- The files.
--   Prelude, Prelude/*   shared names, Boolean tests, lists over the native numbers, bits, integers
--   Result               src/lib.rs: `Error`; the outcomes of a call
--   Text                 formatted text: a list of code points
--   Hapi, Proto          the messages of the two protobuf namespaces, as far as fields are read, and
--                        the generated decoders, as the interfaces `Prost` and `Proto`
--   Stream, Stream/*     src/lib.rs: `inflate`, `detect_format`
--   Transaction          src/transaction.rs, `debug_variant_camel` of src/lib.rs, and the conversions
--                        that src/block/mod.rs and src/record/mod.rs both hold
--   Transaction/Calendar src/transaction.rs: `day_from_seconds`; `day_of` in DayOf
--   Record, Record/Parse src/record/mod.rs
--   Record/Verify        src/record/verify.rs
--   Block/Wire           src/block/wire.rs
--   Block/Merkle         src/block/merkle.rs
--   Block/Material       src/block/material.rs; Block/Material/Inclusion has the inclusion witness
--   Block/Parser         src/block/mod.rs
--   Block/Proof          src/block/proof/mod.rs in Verify, schnorr.rs, hints.rs, wraps.rs and
--                        poseidon.rs in the files of their names; the curves as interfaces in Curves
--   Sentinel, Sentinel/* src/cli/sentinel.rs: one block's checks, and in Newest the search for the
--                        newest block, in Batches the loop, in Window a whole run, in
--                        StateFile the fields of the state file
--   Etl, Etl/*           src/cli/etl: mod.rs in Directory, record.rs in Records, block.rs in Blocks, the
--                        parse threads of both in Workers, the rows of parquet.rs in Parquet
--   Json, Json/*         src/json.rs; the JSON of a block proof's outcome in Proof; a reader by
--                        keys in ReadBack, with Access and Decimal
--   Hex                  the `hex` crate, as the interface `Hex`
--   Examples             instances of the interfaces, and an example for each theorem
--
-- Conventions. A function keeps its name. A byte slice is a list of numbers; `u64` and `usize` are
-- natural numbers with the wrap-around or the check of the source written out, for 64-bit targets;
-- `i64` and `i32` are the integers of Prelude/Int. A text of an error is a constructor with its values.
-- `Result` has `ok` and `err`, `panic` for an index or an `expect` that fails, and `stuck` for a loop
-- of the model that runs out of fuel. The loops over a byte offset run on as much fuel as there are
-- bytes, since a round passes one at least; the loops that halve a level of a tree run on the
-- level's length; the theorems that say that a call returns exclude both. A `BTreeMap` is an
-- association list, kept in the order of its keys for the days of the ETL, which are read in order.
--
-- Other crates enter as interfaces, passed as instances: `Sha384` (sha2), `Gzip` (flate2), `Prost` and
-- `Proto` (generated by prost), `Rsa` (rsa, pkcs8, hex), `Hex` (hex), `Bls`, `Jubjub` and `Bn254` (arkworks,
-- blake2), `Sha256` (sha2). A variant's name is lowercased as ASCII. Sums and products that the source
-- does not check wrap around, as in a release build, but for the event counts of `block_activity`, which
-- are exact: a file in memory has fewer than 2 ^ 64 events. The sentinel's search doubles and halves at most
-- 64 times each, which a step of a u64 allows no more than; its loop takes a round for every block.
-- A `Source` of the sentinel answers the same during one run; so does the ETL's `Files`, which reads a
-- file and writes a day of rows. The parse threads share nothing and are joined in order, so they are
-- a traversal of the chunks. File names are ASCII.
--
-- Not modelled: the arguments and messages of the commands, `attest`, the Parquet columns, the
-- sentinel's URLs, token and clock, the Node binding, and the build script.
pub mod Prelude
pub mod Result
pub mod Text
pub mod Hapi
pub mod Stream
pub mod Proto
pub mod Transaction
pub mod Record
pub mod Sentinel
pub mod Etl
pub mod Block
pub mod Hex
pub mod Json
pub mod Examples
