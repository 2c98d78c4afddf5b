-- ===== src/Examples/Records.antt =====
-- Examples for the record files and their verification.
use hiero_streams_rs.Prelude.{
  ℕ, ◌≡◌, refl, ◌↔◌, true, none, some, List, [], ◌∷◌, ◌++◌, replicate, length, Bytes,
}
use hiero_streams_rs.Prelude.Int.{pos}
use hiero_streams_rs.Result.{ok}
use hiero_streams_rs.Text.{Text, codes}
use hiero_streams_rs.Hapi.{SemanticVersion}
use hiero_streams_rs.Stream.{
  inflate, has_gzip_magic, detect_format, i32_from_be_bytes, record_file_v6,
}
use hiero_streams_rs.Transaction.{dotted}
use hiero_streams_rs.Record.{
  ParsedRecordFile, parse_record_file, parsed_file, split_header, filter_map, version_or_default,
  hash_or_default,
}
use hiero_streams_rs.Record.Parse.{
  parse_record_file-detect_format, record_file_metadata_hash-parse_record_file,
}
use hiero_streams_rs.Record.Verify.{
  parse_address_book, running_hash_mismatch, verify_running_hash_chain, chain_from, NodeSignature,
  VerifyResult, AddressBook, verify_record_file, record_file_hash, tally_all, tally_one, signs,
  unwrap_or_false, parse_signature_file, signature_file_of, nonempty_hash, metadata_hash_of,
  metadata_signature_of, verify_node_signature, or_key_error, trim_0x, get,
  record_file_metadata_hash, i32_to_be_bytes, i64_to_be_bytes,
}
use hiero_streams_rs.Record.Verify.Chain.{
  IsChain, BreaksAt, verify_running_hash_chain-IsChain, verify_running_hash_chain-BreaksAt,
}
use hiero_streams_rs.Record.Verify.Attested.{NoDup, Report, verify_record_file-Report}
use hiero_streams_rs.Record.Verify.Keys.{keys}
use hiero_streams_rs.Record.Verify.Entries.{LastKey}
use hiero_streams_rs.Record.Verify.Book.{parse_address_book-get}
use hiero_streams_rs.Examples.{
  length_sha, stored, by_number, fixed_proto, byte_rsa, sample_address_book,
}

abbrev v6_bytes : Bytes
v6_bytes = 0 ∷ (0 ∷ (0 ∷ (6 ∷ (1 ∷ []))))

abbrev file : ℕ → Bytes → Bytes → ParsedRecordFile
file number start end = record {
  version = pos 6;
  block_number = pos number;
  start_running_hash = start;
  end_running_hash = end;
  hapi_version = dotted (pos 0) (pos 47) (pos 0);
  transactions = [];
}

abbrev parsed : ParsedRecordFile
parsed = file 7 (1 ∷ (2 ∷ [])) (3 ∷ (4 ∷ []))

parse_record_file-detect_format_example : detect_format ⦃gz = stored⦄ v6_bytes ≡ ok record_file_v6
unfolding parse_record_file parsed_file split_header filter_map version_or_default hash_or_default
    inflate has_gzip_magic i32_from_be_bytes
parse_record_file-detect_format_example =
    parse_record_file-detect_format ⦃gz = stored⦄ ⦃pr = fixed_proto⦄ ⦃pb = by_number⦄ v6_bytes
      parsed refl

record_file_metadata_hash-parse_record_file_example :
    (v : SemanticVersion) × (parsed.hapi_version ≡ dotted v.major v.minor v.patch)
    × (record_file_metadata_hash ⦃gz = stored⦄ ⦃sha = length_sha⦄ ⦃pr = fixed_proto⦄ v6_bytes
        ≡ ok (
            replicate 48 (
              length (
                i32_to_be_bytes parsed.version
                ++ (i32_to_be_bytes v.major
                    ++ (i32_to_be_bytes v.minor
                        ++ (i32_to_be_bytes v.patch
                            ++ (parsed.start_running_hash
                                ++ (parsed.end_running_hash
                                    ++ i64_to_be_bytes parsed.block_number)))))))))
unfolding parse_record_file parsed_file split_header filter_map version_or_default hash_or_default
    inflate has_gzip_magic i32_from_be_bytes
record_file_metadata_hash-parse_record_file_example =
    record_file_metadata_hash-parse_record_file ⦃gz = stored⦄ ⦃pr = fixed_proto⦄ ⦃pb = by_number⦄
      ⦃sha = length_sha⦄ v6_bytes parsed refl

abbrev two_files : List ParsedRecordFile
two_files = file 7 (1 ∷ []) (2 ∷ []) ∷ (file 8 (2 ∷ []) (3 ∷ []) ∷ [])

verify_running_hash_chain-IsChain_example :
    (verify_running_hash_chain two_files ≡ none) ↔ IsChain two_files
verify_running_hash_chain-IsChain_example = verify_running_hash_chain-IsChain two_files

abbrev broken_files : List ParsedRecordFile
broken_files = file 7 (1 ∷ []) (2 ∷ []) ∷ (file 8 (9 ∷ []) (3 ∷ []) ∷ [])

verify_running_hash_chain-BreaksAt_example :
    BreaksAt 1 broken_files (record { index = 1; reason = running_hash_mismatch })
unfolding verify_running_hash_chain chain_from
verify_running_hash_chain-BreaksAt_example =
    verify_running_hash_chain-BreaksAt broken_files
      (record { index = 1; reason = running_hash_mismatch }) refl

abbrev book : AddressBook
book = (codes "0.0.3", 1 ∷ []) ∷ ((codes "0.0.4", 1 ∷ (1 ∷ [])) ∷ [])

-- One file of a node of the book, whose signature is one byte, and one of a node outside it.
abbrev signature_files : List NodeSignature
signature_files =
    record { node = codes "0.0.3"; signature_file = 6 ∷ (1 ∷ []) }
    ∷ (record { node = codes "0.0.9"; signature_file = 6 ∷ (1 ∷ []) } ∷ [])

abbrev verified : VerifyResult
verified = record {
  hash = replicate 48 5;
  valid = codes "0.0.3" ∷ [];
  invalid = [];
  unknown = codes "0.0.9" ∷ [];
  node_count = 2;
  attested = true;
}

verify_record_file-Report_example :
    Report ⦃gz = stored⦄ ⦃sha = length_sha⦄ ⦃pr = fixed_proto⦄ ⦃rsa = byte_rsa⦄ v6_bytes
      signature_files book verified
unfolding verify_record_file record_file_hash tally_all tally_one signs unwrap_or_false
    parse_signature_file signature_file_of nonempty_hash metadata_hash_of metadata_signature_of
    verify_node_signature or_key_error trim_0x get inflate has_gzip_magic
verify_record_file-Report_example =
    verify_record_file-Report ⦃gz = stored⦄ ⦃sha = length_sha⦄ ⦃pr = fixed_proto⦄ ⦃rsa = byte_rsa⦄
      v6_bytes signature_files book verified refl

-- The later of the two keys stays.
parse_address_book-get_example :
    (book : AddressBook) × (parse_address_book ⦃pr = fixed_proto⦄ (1 ∷ []) ≡ ok book)
    × NoDup (keys book)
    × ((name key : Text)
        → (get name book ≡ some key) ↔ LastKey name key sample_address_book.node_address)
parse_address_book-get_example =
    parse_address_book-get ⦃pr = fixed_proto⦄ (1 ∷ []) sample_address_book refl
