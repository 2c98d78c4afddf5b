-- ===== src/Examples.antt =====
-- Concrete instances of the interfaces, for the examples.
pub mod Trees
pub mod Streams
pub mod Json
pub mod Records
pub mod Curves
pub mod Proofs
pub mod Verified
pub mod Sentinel
pub mod Etl
use Prim.Native.String.{String}
use hiero_streams_rs.Prelude.{
  ℕ, zero, suc, ◌+◌, ◌≤◌, ◌≡◌, refl, ap, ◌∙◌, Bool, true, false, Option, none, some, List, [], ◌∷◌,
  ◌++◌, arith, ltb, leb, ◌==◌, if◌then◌else◌, length, take, drop, replicate, Bytes, Bool-cases, inl,
  inr,
}
use hiero_streams_rs.Prelude.Int.{ℤ, pos}
use hiero_streams_rs.Result.{Result, ok, err, panic, stuck}
use hiero_streams_rs.Hex.{Hex}
use hiero_streams_rs.Text.{Text}
use hiero_streams_rs.Stream.{Gzip, Read, bytes, failed}
use hiero_streams_rs.Hapi
use hiero_streams_rs.Hapi.{Prost, Item, value, failure, Decoded}
use hiero_streams_rs.Proto
use hiero_streams_rs.Block.Wire.{scan_item_kind}
use hiero_streams_rs.Block.Wire.Field
use hiero_streams_rs.Block.Merkle.{Sha384}
use hiero_streams_rs.Record.Verify.{Rsa}

-- A digest of 48 bytes that shows the input's length.
abbrev pub length_sha : Sha384
length_sha = record { digest = λ b. replicate 48 (length b); length-digest = λ b. refl }

-- A gzip format whose data follow the two magic bytes as they are.
unfoldable pub stored_to_end : Bytes → ℕ → Read
stored_to_end b limit =
    if ltb limit (length (drop 2 b)) then failed "too long" else bytes (drop 2 b)

pub stored_to_end-ok :
    (b : Bytes) (limit : ℕ) (out : Bytes)
    → stored_to_end b limit ≡ bytes out
    → (drop 2 b ≡ out) × (length out ≤ limit)
unfolding stored_to_end
stored_to_end-ok b limit out e = elim (Bool-cases (ltb limit (length (drop 2 b)))) [
  | inl long ↦ absurd (cc (rw long at e))
  | inr fits ↦
      let same : drop 2 b ≡ out = cc (rw fits at e) in (same, ground (arith, ap length same))
]

abbrev pub stored : Gzip
stored = record {
  read_to_end = stored_to_end;
  read_exact = λ b n. if leb n (length (drop 2 b)) then some (take n (drop 2 b)) else none;
  at_most_limit = λ b limit out e. (stored_to_end-ok b limit out e).1;
  same_start = λ b limit n out e h. rw (stored_to_end-ok b limit out e).0 refl;
}

abbrev pub epoch : Hapi.Timestamp
epoch = record { seconds = pos 1700000000; nanos = pos 5 }

abbrev pub sample_header : Hapi.BlockHeader
sample_header = record { hapi_proto_version = none; number = 7; block_timestamp = some epoch }

abbrev pub sample_footer : Hapi.BlockFooter
sample_footer = record {
  previous_block_root_hash = replicate 48 1;
  root_hash_of_all_block_hashes_tree = replicate 48 2;
  start_of_block_state_root_hash = [];
}

abbrev pub sample_result : Hapi.TransactionResult
sample_result = record {
  status = pos 22;
  consensus_timestamp = some epoch;
  transaction_fee_charged = 100;
  transfer_list = none;
  token_transfer_lists = [];
}

abbrev pub item_of_kind : ℕ → Item
item_of_kind kind =
    if kind == Field.block_header
    then Item.block_header sample_header
    else if kind == Field.block_footer
    then Item.block_footer sample_footer
    else if kind == Field.block_proof
    then Item.block_proof (record { proof = some (Hapi.Proof.signed_block_proof []) })
    else Item.other_item kind

-- A decoder that goes by the field's number alone.
abbrev pub decoded_kind : Result ℕ → Decoded (Option Item)
decoded_kind (ok kind) = value (some (item_of_kind kind))
decoded_kind _ = failure "wire"

abbrev pub decode_item : Bytes → Decoded (Option Item)
decode_item b = decoded_kind (scan_item_kind b)

abbrev pub sample_items : List (Option Item)
sample_items =
    some (Item.block_header sample_header)
    ∷ (some (Item.signed_transaction (1 ∷ []))
        ∷ (some (Item.event_header (record { creator_node_id = some (pos 3) }))
            ∷ (some (Item.transaction_result sample_result) ∷ [])))

abbrev pub by_number : Prost
by_number = record {
  decode_block = λ b. value sample_items;
  decode_block_item = decode_item;
  decode_signed_transaction = λ b. value (record { body_bytes = b });
  decode_transaction_body = λ b. value (record { transaction_id = none; body_data = none });
  encode_timestamp = λ t. 8 ∷ (1 ∷ []);
  response_code = λ c. none;
}

abbrev pub sample_signature_file : Proto.SignatureFile
sample_signature_file = record {
  file_signature =
      some (record { hash_object = some (record { hash = 1 ∷ [] }); signature = 2 ∷ [] });
  metadata_signature = none;
}

abbrev pub sample_record_file : Proto.RecordStreamFile
sample_record_file = record {
  hapi_proto_version = some (record { major = pos 0; minor = pos 47; patch = pos 0 });
  start_object_running_hash = some (record { hash = 1 ∷ (2 ∷ []) });
  record_stream_items = [];
  end_object_running_hash = some (record { hash = 3 ∷ (4 ∷ []) });
  block_number = pos 7;
}

-- Two entries of one node.
abbrev pub sample_node : Text → Proto.NodeAddress
sample_node key = record {
  node_account_id = some (record {
    shard_num = pos 0;
    realm_num = pos 0;
    account = some (Hapi.Account.account_num (pos 3));
  });
  rsa_pub_key = key;
}

abbrev pub sample_address_book : Proto.NodeAddressBook
sample_address_book = record { node_address = sample_node (1 ∷ []) ∷ (sample_node (2 ∷ []) ∷ []) }

abbrev pub fixed_proto : Proto.Proto
fixed_proto = record {
  decode_signature_file = λ b. value sample_signature_file;
  decode_node_address_book = λ b. value sample_address_book;
  decode_record_stream_file = λ b. value sample_record_file;
  decode_signed_transaction = λ b. failure "none";
  decode_transaction_body = λ b. failure "none";
  response_code = λ c. none;
}

-- A scheme whose signature is one byte, valid under the key that is that byte.
abbrev pub byte_rsa : Rsa
byte_rsa = record {
  PublicKey = Bytes;
  Signature = Bytes;
  hex_decode = λ t. value t;
  from_public_key_der = λ b. value b;
  signature_try_from = λ b. some b;
  verify = λ k h s. length k == length s;
}

-- An encoding that keeps the bytes.
abbrev pub raw_hex : Hex
raw_hex = record { encode = λ b. b; encode_injective = λ a b e. e }
