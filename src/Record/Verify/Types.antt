-- ===== src/Record/Verify/Types.antt =====
-- The types of src/record/verify.rs, and the interface to the `rsa`, `pkcs8` and `hex` crates.
use hiero_streams_rs.Prelude.{ℕ, Bool, Option, List, Bytes}
use hiero_streams_rs.Prelude.Int.{ℤ}
use hiero_streams_rs.Text.{Text}
use hiero_streams_rs.Hapi.{Decoded}

-- `hex::decode`, the parser of a DER public key and of a signature, and the signature check.
pub record Rsa : Type 1 where
  pub PublicKey : Type 0
  pub Signature : Type 0
  pub hex_decode : Text → Decoded Bytes
  pub from_public_key_der : Bytes → Decoded PublicKey
  pub signature_try_from : Bytes → Option Signature
  pub verify : PublicKey → Bytes → Signature → Bool

pub record ParsedSignatureFile : Type 0 where
  pub version : ℕ
  pub file_hash : Bytes
  pub file_signature : Bytes
  pub metadata_hash : Option Bytes
  pub metadata_signature : Option Bytes

-- A `BTreeMap` from node ids to keys, which no code reads in its order.
abbrev pub AddressBook : Type 0
AddressBook = List (Text × Text)

pub data BreakReason : Type 0 where
  running_hash_mismatch : BreakReason
  block_number_gap : ℤ → ℤ → BreakReason

pub record ChainBreak : Type 0 where
  pub index : ℕ
  pub reason : BreakReason

pub record NodeSignature : Type 0 where
  pub node : Text
  pub signature_file : Bytes

pub record VerifyResult : Type 0 where
  pub hash : Bytes
  pub valid : List Text
  pub invalid : List Text
  pub unknown : List Text
  pub node_count : ℕ
  pub attested : Bool

-- The three lists of the loop of `verify_record_file`.
pub record Tally : Type 0 where
  pub valid : List Text
  pub invalid : List Text
  pub unknown : List Text
