-- ===== src/Record/Parse.antt =====
-- The parser of src/record/mod.rs against the format detection of src/lib.rs and the signed metadata
-- of src/record/verify.rs.
use hiero_streams_rs.Prelude.{
  ◌≡◌, refl, ap, ◌∙◌, inl, inr, true, [], ◌∷◌, ◌++◌, arith, Bytes, Bool-cases,
}
use hiero_streams_rs.Prelude.Int.{ℤ, pos, negsuc, eqb_ℤ}
use hiero_streams_rs.Result.{ok, >>=-eq-ok, ok_injective}
use hiero_streams_rs.Stream.{
  Gzip, inflate, detect_format, format_of_header, route, i32_from_be_bytes, record_file_v6,
}
use hiero_streams_rs.Stream.Detect.{detect_format-inflate}
use hiero_streams_rs.Hapi.{Prost, SemanticVersion, or_decode_error}
use hiero_streams_rs.Proto
use hiero_streams_rs.Block.Merkle.{Sha384}
use hiero_streams_rs.Transaction.{dotted}
use hiero_streams_rs.Record.{
  ParsedRecordFile, parse_record_file, parsed_file, split_header, version_or_default,
}
use hiero_streams_rs.Record.Verify.{
  record_file_metadata_hash, metadata_of, i32_to_be_bytes, i64_to_be_bytes,
}

header_route :
    (buf message : Bytes) (version : ℤ)
    → split_header buf ≡ ok (version, message)
    → eqb_ℤ version (pos 6) ≡ true
    → format_of_header buf ≡ ok record_file_v6
unfolding split_header format_of_header route
header_route [] message version e six = cc
header_route (a ∷ []) message version e six = cc
header_route (a ∷ (b ∷ [])) message version e six = cc
header_route (a ∷ (b ∷ (c ∷ []))) message version e six = cc
header_route (a ∷ (b ∷ (c ∷ (d ∷ rest)))) message version e six =
    let same : i32_from_be_bytes a b c d ≡ version = ap (λ p. p.0) (ok_injective e) in
    rw (same, six) refl

eqb_ℤ-6 : (z : ℤ) → eqb_ℤ z (pos 6) ≡ true → z ≡ pos 6
eqb_ℤ-6 (pos n) h = ap pos (ground arith)
eqb_ℤ-6 (negsuc n) h = cc

-- What a successful parse has read.
record ParsedFrom ⦃gz : Gzip⦄ ⦃pr : Proto.Proto⦄ ⦃pb : Prost⦄ (bytes : Bytes) (p : ParsedRecordFile)
    : Type 0 where
  buf : Bytes
  message : Bytes
  version : ℤ
  file : Proto.RecordStreamFile
  inflated : inflate bytes ≡ ok buf
  split : split_header buf ≡ ok (version, message)
  six : eqb_ℤ version (pos 6) ≡ true
  decoded : or_decode_error (pr.decode_record_stream_file message) ≡ ok file
  parsed : parsed_file version file ≡ p

module _ ⦃gz : Gzip⦄ ⦃pr : Proto.Proto⦄ ⦃pb : Prost⦄ where
  parse_record_file-ParsedFrom :
      (bytes : Bytes) (p : ParsedRecordFile) → parse_record_file bytes ≡ ok p → ParsedFrom bytes p
  unfolding parse_record_file
  parse_record_file-ParsedFrom bytes p e =
      let (buf, i, e₁) = >>=-eq-ok (inflate bytes) _ e in
      let ((version, message), s, e₂) = >>=-eq-ok (split_header buf) _ e₁ in
      elim (Bool-cases (eqb_ℤ version (pos 6))) [
        | inr other ↦ absurd (cc (rw other at e₂))
        | inl six ↦
            let (file, d, e₃) =
              >>=-eq-ok (or_decode_error (pr.decode_record_stream_file message)) _ (rw six at e₂) in
            record {
              buf = buf;
              message = message;
              version = version;
              file = file;
              inflated = i;
              split = s;
              six = six;
              decoded = d;
              parsed = ok_injective e₃;
            }
      ]

  -- A file that `parse_record_file` accepts is one that `detect_format` calls a v6 record file.
  pub parse_record_file-detect_format :
      (bytes : Bytes) (p : ParsedRecordFile)
      → parse_record_file bytes ≡ ok p
      → detect_format bytes ≡ ok record_file_v6
  parse_record_file-detect_format bytes p e =
      let f = parse_record_file-ParsedFrom bytes p e in
      (detect_format-inflate bytes f.buf f.inflated).0
      ∙ header_route f.buf f.message f.version f.split f.six

  module _ ⦃sha : Sha384⦄ where
    -- For a file that `parse_record_file` accepts, `record_file_metadata_hash` succeeds, and the
    -- hash that the nodes sign is SHA-384 of the fields that the parser returned: version, the
    -- version triple that `hapi_version` shows, both running hashes and the block number.
    pub record_file_metadata_hash-parse_record_file :
        (bytes : Bytes) (p : ParsedRecordFile)
        → parse_record_file bytes ≡ ok p
        → (v : SemanticVersion) × (p.hapi_version ≡ dotted v.major v.minor v.patch)
          × (record_file_metadata_hash bytes
              ≡ ok (
                  sha.digest (
                    i32_to_be_bytes p.version
                    ++ (i32_to_be_bytes v.major
                        ++ (i32_to_be_bytes v.minor
                            ++ (i32_to_be_bytes v.patch
                                ++ (p.start_running_hash
                                    ++ (p.end_running_hash ++ i64_to_be_bytes p.block_number))))))))
    unfolding record_file_metadata_hash metadata_of parsed_file
    record_file_metadata_hash-parse_record_file bytes p e =
        let f = parse_record_file-ParsedFrom bytes p e in
        (
          version_or_default f.file.hapi_proto_version,
          rw (← f.parsed) refl,
          rw (f.inflated, f.split, f.six, f.decoded, ← f.parsed) refl,
        )
