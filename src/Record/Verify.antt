-- ===== src/Record/Verify.antt =====
-- src/record/verify.rs: signature files, the address book, the running-hash chain, and the
-- attestation of a record file. The `rsa`, `pkcs8` and `hex` crates enter as the interface `Rsa`.
mod Types
pub mod Chain
pub mod Attested
pub mod Keys
pub mod Entries
pub mod Book
pub use Types.*
use Prim.Native.String.{String}
use hiero_streams_rs.Prelude.{
  ℕ, zero, suc, ◌+◌, ◌-◌, ◌*◌, ◌/◌, ◌%◌, ◌^◌, Bool, true, false, not, ◌&&◌, Option, none, some,
  List, [], ◌∷◌, ◌++◌, ltb, leb, ◌==◌, if◌then◌else◌, length, Bytes, bytes_eq,
}
use hiero_streams_rs.Prelude.Encode.{be_bytes}
use hiero_streams_rs.Prelude.Int.{ℤ, pos, negsuc, ◌+ℤ◌, eqb_ℤ}
use hiero_streams_rs.Result.{
  Result, ok, err, ◌>>=◌, ok_or, too_short, unsupported_version, unsupported_signature_version,
  missing_file_signature, key,
}
use hiero_streams_rs.Text.{Text}
use hiero_streams_rs.Stream.{Gzip, inflate}
use hiero_streams_rs.Hapi
use hiero_streams_rs.Hapi.{Decoded, value, failure, or_decode_error}
use hiero_streams_rs.Proto
use hiero_streams_rs.Proto.{
  HashObject, SignatureObject, SignatureFile, NodeAddress, NodeAddressBook,
}
use hiero_streams_rs.Block.Merkle.{Sha384}
use hiero_streams_rs.Transaction.{dotted}
use hiero_streams_rs.Record.{ParsedRecordFile, version_or_default, hash_or_default, split_header}

-- A hash object's hash, where it is not empty.
unfoldable pub nonempty_hash : Option HashObject → Option Bytes
nonempty_hash none = none
nonempty_hash (some h) = elim h.hash [ [] ↦ none | b ∷ bs ↦ some (b ∷ bs) ]

unfoldable pub metadata_hash_of : Option SignatureObject → Option Bytes
metadata_hash_of none = none
metadata_hash_of (some m) = elim m.hash_object [ none ↦ none | some h ↦ some h.hash ]

unfoldable pub metadata_signature_of : Option SignatureObject → Option Bytes
metadata_signature_of none = none
metadata_signature_of (some m) = some m.signature

unfoldable pub signature_file_of : ℕ → SignatureFile → Result ParsedSignatureFile
signature_file_of version file = do
  file_sig ← ok_or file.file_signature missing_file_signature
  file_hash ← ok_or (nonempty_hash file_sig.hash_object) missing_file_signature
  if length file_sig.signature == 0
      then err missing_file_signature
      else ok (record {
        version = version;
        file_hash = file_hash;
        file_signature = file_sig.signature;
        metadata_hash = metadata_hash_of file.metadata_signature;
        metadata_signature = metadata_signature_of file.metadata_signature;
      })

-- `trim_start_matches("0x")`, which drops every leading "0x".
unfoldable pub trim_0x : Text → Text
trim_0x (a ∷ (b ∷ rest)) =
    let more = trim_0x rest in if (a == b'0') && (b == b'x') then more else a ∷ (b ∷ rest)
trim_0x t = t

unfoldable pub or_key_error {ℓ} : {A : Type ℓ} → Decoded A → Result A
or_key_error (value a) = ok a
or_key_error (failure t) = err (key t)

unfoldable pub insert : Text → Text → AddressBook → AddressBook
insert k v [] = (k, v) ∷ []
insert k v ((k', v') ∷ book) =
    let rest = insert k v book in if bytes_eq k k' then (k, v) ∷ book else (k', v') ∷ rest

unfoldable pub get : Text → AddressBook → Option Text
get k [] = none
get k ((k', v') ∷ book) = let rest = get k book in if bytes_eq k k' then some v' else rest

-- The round of the loop of `parse_address_book` for one node.
unfoldable pub add_node : AddressBook → NodeAddress → AddressBook
add_node entries node = elim node.node_account_id [
  | none ↦ entries
  | some id ↦ if length node.rsa_pub_key == 0 then entries else elim id.account [
    | some (Hapi.Account.account_num n) ↦
        insert (dotted id.shard_num id.realm_num n) node.rsa_pub_key entries
    | _ ↦ entries
  ]
]

unfoldable pub add_nodes : AddressBook → List NodeAddress → AddressBook
add_nodes entries [] = entries
add_nodes entries (node ∷ nodes) = add_nodes (add_node entries node) nodes

-- `to_be_bytes` of an `i32` and an `i64`.
pub twos_complement : ℕ → ℤ → ℕ
twos_complement bits (pos n) = n
twos_complement bits (negsuc n) = 2 ^ bits - 1 - n

pub i32_to_be_bytes : ℤ → Bytes
i32_to_be_bytes z = be_bytes 4 (twos_complement 32 z)

pub i64_to_be_bytes : ℤ → Bytes
i64_to_be_bytes z = be_bytes 8 (twos_complement 64 z)

abbrev pub i64_max : ℤ
i64_max = pos (2 ^ 63 - 1)

-- `checked_add(1)` on an `i64`.
unfoldable pub checked_suc : ℤ → Option ℤ
checked_suc z = if eqb_ℤ z i64_max then none else some (z +ℤ pos 1)

-- `Some(next) != previous.checked_add(1)`, negated.
unfoldable pub follows : ℤ → ℤ → Bool
follows next previous = elim (checked_suc previous) [ none ↦ false | some n ↦ eqb_ℤ next n ]

-- The windows of two files from the one before index `i`; `none` is `Ok(())`.
unfoldable pub chain_from : ℕ → ParsedRecordFile → List ParsedRecordFile → Option ChainBreak
chain_from i prev [] = none
chain_from i prev (next ∷ files) =
    let rest = chain_from (suc i) next files in
    if not (bytes_eq next.start_running_hash prev.end_running_hash)
    then some (record { index = i; reason = running_hash_mismatch })
    else if not (follows next.block_number prev.block_number)
    then some (record { index = i; reason = block_number_gap next.block_number prev.block_number })
    else rest

unfoldable pub verify_running_hash_chain : List ParsedRecordFile → Option ChainBreak
verify_running_hash_chain [] = none
verify_running_hash_chain (file ∷ files) = chain_from 1 file files

-- `unwrap_or(false)`
unfoldable pub unwrap_or_false : Result Bool → Bool
unwrap_or_false (ok b) = b
unwrap_or_false _ = false

module _ ⦃pr : Proto.Proto⦄ where
  unfoldable pub parse_signature_file : Bytes → Result ParsedSignatureFile
  parse_signature_file (version ∷ (b ∷ rest)) =
      if not (version == 6) then err (unsupported_signature_version version) else (do
        file ← or_decode_error (pr.decode_signature_file (b ∷ rest))
        signature_file_of version file)
  parse_signature_file _ = err too_short

  unfoldable pub parse_address_book : Bytes → Result AddressBook
  parse_address_book bytes = do
    book ← or_decode_error (pr.decode_node_address_book bytes)
    ok (add_nodes [] book.node_address)

module _ ⦃rsa : Rsa⦄ where
  unfoldable pub verify_node_signature : Bytes → Bytes → Text → Result Bool
  verify_node_signature file_hash signature public_key_hex = do
    der ← or_key_error (rsa.hex_decode (trim_0x public_key_hex))
    k ← or_key_error (rsa.from_public_key_der der)
    ok (elim (rsa.signature_try_from signature) [
      | none ↦ false
      | some sig ↦ rsa.verify k file_hash sig
    ])

unfoldable pub metadata_of : ℤ → Proto.RecordStreamFile → Bytes
metadata_of version file =
    let v = version_or_default file.hapi_proto_version in
    i32_to_be_bytes version
    ++ (i32_to_be_bytes v.major
        ++ (i32_to_be_bytes v.minor
            ++ (i32_to_be_bytes v.patch
                ++ (hash_or_default file.start_object_running_hash
                    ++ (hash_or_default file.end_object_running_hash
                        ++ i64_to_be_bytes file.block_number)))))

module _ ⦃pr : Proto.Proto⦄ ⦃rsa : Rsa⦄ where
  -- Whether a node's signature file signs `hash` with `public_key`; every error counts as no.
  unfoldable pub signs : Bytes → NodeSignature → Text → Bool
  signs hash sig public_key = unwrap_or_false (do
    parsed ← parse_signature_file sig.signature_file
    verify_node_signature hash parsed.file_signature public_key)

  unfoldable pub tally_one : Bytes → AddressBook → Tally → NodeSignature → Tally
  tally_one hash address_book t sig = elim (get sig.node address_book) [
    | none ↦ record t { unknown = t.unknown ++ (sig.node ∷ []) }
    | some public_key ↦
        if signs hash sig public_key
        then record t { valid = t.valid ++ (sig.node ∷ []) }
        else record t { invalid = t.invalid ++ (sig.node ∷ []) }
  ]

  unfoldable pub tally_all : Bytes → AddressBook → Tally → List NodeSignature → Tally
  tally_all hash address_book t [] = t
  tally_all hash address_book t (sig ∷ sigs) =
      tally_all hash address_book (tally_one hash address_book t sig) sigs

module _ ⦃gz : Gzip⦄ ⦃sha : Sha384⦄ where
  unfoldable pub record_file_hash : Bytes → Result Bytes
  record_file_hash record_file_bytes = do raw ← inflate record_file_bytes; ok (sha.digest raw)

  module _ ⦃pr : Proto.Proto⦄ where
    unfoldable pub record_file_metadata_hash : Bytes → Result Bytes
    record_file_metadata_hash record_file_bytes = do
      bytes ← inflate record_file_bytes
      (version, message) ← split_header bytes
      if not (eqb_ℤ version (pos 6)) then err (unsupported_version version) else (do
        file ← or_decode_error (pr.decode_record_stream_file message)
        ok (sha.digest (metadata_of version file)))

    module _ ⦃rsa : Rsa⦄ where
      pub verify_metadata_signature : Bytes → Bytes → Text → Result Bool
      verify_metadata_signature record_file_bytes signature_file_bytes public_key_hex = do
        hash ← record_file_metadata_hash record_file_bytes
        sig ← parse_signature_file signature_file_bytes
        elim sig.metadata_signature [
          | none ↦ ok false
          | some metadata_signature ↦ verify_node_signature hash metadata_signature public_key_hex
        ]

      unfoldable pub verify_record_file :
          Bytes → List NodeSignature → AddressBook → Result VerifyResult
      verify_record_file record_file_bytes signatures address_book = do
        hash ← record_file_hash record_file_bytes
        let t =
            tally_all hash address_book (record { valid = []; invalid = []; unknown = [] })
              signatures
        let node_count = length address_book
        ok (record {
          hash = hash;
          valid = t.valid;
          invalid = t.invalid;
          unknown = t.unknown;
          node_count = node_count;
          attested = ltb 0 node_count && leb node_count (length t.valid * 3);
        })
