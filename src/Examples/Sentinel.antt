-- ===== src/Examples/Sentinel.antt =====
-- Examples for the sentinel: blocks 2 and 3, which are numbered by the length of their headers, are
-- linked, and carry no TSS proof.
use hiero_streams_rs.Prelude.{
  ℕ, ◌≡◌, ◌≤◌, refl, true, false, Option, none, some, [], ◌∷◌, arith, leb, ◌==◌, if◌then◌else◌,
  length, replicate, Bytes, u64_mod, ◌+◌,
}
use hiero_streams_rs.Text.{Text}
use hiero_streams_rs.Result.{Result, ok, map_result}
use hiero_streams_rs.Stream.{inflate, has_gzip_magic}
use hiero_streams_rs.Hapi
use hiero_streams_rs.Hapi.{Prost, Item, Decoded, value, failure}
use hiero_streams_rs.Block.Wire.{
  read_varint, varint_loop, read_length_delimited, scan_block_items, items_loop, push_item,
  scan_item_kind, kind_loop,
}
use hiero_streams_rs.Block.Wire.Field
use hiero_streams_rs.Block.Merkle.{
  root, add_leaf, fold_up, hash_leaf, hash_internal, hash_internal_single_child, wrap_left,
}
use hiero_streams_rs.Block.Material.{
  scan_block, scan_items, scan_item, finish_scan, tree_of, hash_into, hash_input, view_item, view,
  is_viewed, block_root_of, unknown_path, state_root_of, timestamp_bytes_of, extract_proof_material,
  classify_layout, signed_block_signature,
}
use hiero_streams_rs.Sentinel
use hiero_streams_rs.Sentinel.StateFile
use hiero_streams_rs.Sentinel.{check_fetched}
use hiero_streams_rs.Sentinel.Types.{State, Source, done, done_injective}
use hiero_streams_rs.Sentinel.Newest.{newest, newest_in_directory, newest_in_bucket, largest}
use hiero_streams_rs.Sentinel.Newest.Search.{newest_in_bucket-found, far}
use hiero_streams_rs.Sentinel.Batches.{verify_batches, check_each, fetch_range}
use hiero_streams_rs.Sentinel.Batches.Sequential.{verify_batches-check_each}
use hiero_streams_rs.Sentinel.Chain.{Chain, start, next}
use hiero_streams_rs.Sentinel.Chain.Links.{Linked, Chain-Linked}
use hiero_streams_rs.Sentinel.Window
use hiero_streams_rs.Sentinel.Window.{Options, Ran, run, window}
use hiero_streams_rs.Sentinel.Window.Resume.{run-Resumes, Resumes}
use hiero_streams_rs.Examples.{length_sha, stored, sample_footer, raw_hex}
use hiero_streams_rs.Examples.Curves.{flat_bls, flat_sha256}

abbrev item_of_length : ℕ → ℕ → Item
item_of_length size kind =
    if kind == Field.block_header
    then Item.block_header
        (record { hapi_proto_version = none; number = size; block_timestamp = none })
    else if kind == Field.block_footer
    then Item.block_footer (record sample_footer { previous_block_root_hash = replicate 48 97 })
    else if kind == Field.block_proof
    then Item.block_proof (record { proof = some (Hapi.Proof.signed_block_proof (1 ∷ [])) })
    else Item.other_item kind

abbrev decoded_length : ℕ → Result ℕ → Decoded (Option Item)
decoded_length size (ok kind) = value (some (item_of_length size kind))
decoded_length size _ = failure "wire"

abbrev pub by_length : Prost
by_length = record {
  decode_block = λ b. value [];
  decode_block_item = λ b. decoded_length (length b) (scan_item_kind b);
  decode_signed_transaction = λ b. value (record { body_bytes = b });
  decode_transaction_body = λ b. value (record { transaction_id = none; body_data = none });
  encode_timestamp = λ t. 8 ∷ (1 ∷ []);
  response_code = λ c. none;
}

-- A header, a footer and a proof.
abbrev pub second_block : Bytes
second_block =
    0x0a ∷ (2 ∷ (0x0a ∷ (0 ∷ (0x0a ∷ (2 ∷ (0x62 ∷ (0 ∷ (0x0a ∷ (2 ∷ (0x4a ∷ (0 ∷ [])))))))))))

abbrev pub third_block : Bytes
third_block =
    0x0a ∷ (3 ∷ (0x0a ∷ (1 ∷ (9 ∷ (0x0a ∷ (2 ∷ (0x62 ∷ (0 ∷ (0x0a ∷ (2 ∷ (0x4a ∷ (0 ∷ []))))))))))))

abbrev directory : Source
directory = record {
  exists = λ n. value (leb n 5000);
  fetch = λ n.
      if n == 2
      then value second_block
      else if n == 3
      then value third_block
      else failure "no such file";
  local_numbers = some (value (2 ∷ (3 ∷ [])));
}

abbrev fresh : State
fresh = record {
  comment = [];
  initialized = false;
  last_block = none;
  last_root = none;
  proof_path = none;
  signature_bytes = none;
  verified_total = none;
  since = none;
  checked = none;
}

abbrev root_text : Text
root_text = replicate 48 97

abbrev behind : ℕ → State
behind n = record fresh {
  last_block = some n;
  last_root = some (replicate 48 97);
  proof_path = some ((Sentinel.path_name unknown_path).0);
  signature_bytes = some 1;
}

two_blocks :
    Chain ⦃hx = raw_hex⦄ ⦃bls = flat_bls⦄ ⦃s = flat_sha256⦄ ⦃gz = stored⦄ ⦃sha = length_sha⦄
      ⦃pb = by_length⦄ directory 2 fresh 4
      (behind 3)
unfolding check_fetched Sentinel.check_block Sentinel.check_material Sentinel.check_number
    Sentinel.check_root Sentinel.check_path Sentinel.check_size Sentinel.check_publication
    Sentinel.check_signature Sentinel.advance Sentinel.path_name Sentinel.signature_size inflate
    has_gzip_magic scan_block_items items_loop push_item scan_item_kind kind_loop
    read_length_delimited read_varint varint_loop map_result add_leaf fold_up hash_leaf
    hash_internal hash_internal_single_child wrap_left root scan_block scan_items scan_item
    finish_scan tree_of hash_into hash_input view_item view is_viewed block_root_of state_root_of
    timestamp_bytes_of extract_proof_material classify_layout signed_block_signature
two_blocks = next {state' = behind 2} (next {state' = fresh} start refl) refl

Chain-Linked_example :
    Linked ⦃hx = raw_hex⦄ ⦃bls = flat_bls⦄ ⦃s = flat_sha256⦄ ⦃gz = stored⦄ ⦃sha = length_sha⦄
      ⦃pb = by_length⦄ directory 2
Chain-Linked_example =
    Chain-Linked ⦃hx = raw_hex⦄ ⦃bls = flat_bls⦄ ⦃s = flat_sha256⦄ ⦃gz = stored⦄ ⦃sha = length_sha⦄
      ⦃pb = by_length⦄ directory two_blocks 2 (omega arith) (omega arith)

verify_batches-check_each_example :
    verify_batches ⦃hx = raw_hex⦄ ⦃bls = flat_bls⦄ ⦃s = flat_sha256⦄ ⦃gz = stored⦄
      ⦃sha = length_sha⦄ ⦃pb = by_length⦄ directory 2 2 3 fresh 0
    ≡ check_each ⦃hx = raw_hex⦄ ⦃bls = flat_bls⦄ ⦃s = flat_sha256⦄ ⦃gz = stored⦄ ⦃sha = length_sha⦄
        ⦃pb = by_length⦄ 2
        (fetch_range directory 2 2)
        fresh
        0
verify_batches-check_each_example =
    verify_batches-check_each ⦃hx = raw_hex⦄ ⦃bls = flat_bls⦄ ⦃s = flat_sha256⦄ ⦃gz = stored⦄
      ⦃sha = length_sha⦄ ⦃pb = by_length⦄ directory 2 2 3 fresh 0 (omega arith) (omega arith)

none_beyond : (n : ℕ) → far ≤ n → leb n 5000 ≡ false
none_beyond n h = ground arith

no_gap : (a b : ℕ) → 3 ≤ a → a ≤ b → leb b 5000 ≡ true → leb a 5000 ≡ true
no_gap a b h k e = ground arith

newest_in_bucket-found_example :
    (n : ℕ) × (newest_in_bucket directory 3 ≡ done n)
    × (3 ≤ n)
    × (leb n 5000 ≡ true)
    × ((m : ℕ) → leb m 5000 ≡ true → m ≤ n)
newest_in_bucket-found_example =
    newest_in_bucket-found directory (λ n. leb n 5000) (λ n. refl) 3 refl none_beyond no_gap

abbrev from_two : Options
from_two = record { init_block = some 2; max_blocks = 25000; today = 7 ∷ []; now = 8 ∷ [] }

abbrev saved_state : State
saved_state = record (behind 3) {
  initialized = true;
  verified_total = some 2;
  since = some (7 ∷ []);
  checked = some (8 ∷ []);
}

newest_small : (floor last : ℕ) → newest directory floor ≡ done last → last + 32 ≤ u64_mod
unfolding newest newest_in_directory largest
newest_small floor last e = omega (arith, done_injective e)

run-Resumes_example :
    (floor : ℕ) × (first : ℕ) × (last : ℕ) × (window fresh (some 2) ≡ done (floor, first))
    × (newest directory floor ≡ done last)
    × (first ≤ last)
    × Resumes ⦃hx = raw_hex⦄ ⦃bls = flat_bls⦄ ⦃s = flat_sha256⦄ ⦃gz = stored⦄ ⦃sha = length_sha⦄
        ⦃pb = by_length⦄ directory fresh first
        (Window.capped first last 25000)
        saved_state
        (run ⦃hx = raw_hex⦄ ⦃bls = flat_bls⦄ ⦃s = flat_sha256⦄ ⦃gz = stored⦄ ⦃sha = length_sha⦄
          ⦃pb = by_length⦄ directory from_two fresh).exit
unfolding run Window.run_in Window.run_from Window.verify_window Window.conclude Window.persist
    Window.capped window newest newest_in_directory largest verify_batches check_each fetch_range
    check_fetched Sentinel.check_block Sentinel.check_material Sentinel.check_number
    Sentinel.check_root Sentinel.check_path Sentinel.check_size Sentinel.check_publication
    Sentinel.check_signature Sentinel.advance Sentinel.path_name Sentinel.signature_size inflate
    has_gzip_magic scan_block_items items_loop push_item scan_item_kind kind_loop
    read_length_delimited read_varint varint_loop map_result add_leaf fold_up hash_leaf
    hash_internal hash_internal_single_child wrap_left root scan_block scan_items scan_item
    finish_scan tree_of hash_into hash_input view_item view is_viewed block_root_of state_root_of
    timestamp_bytes_of extract_proof_material classify_layout signed_block_signature
run-Resumes_example =
    run-Resumes ⦃hx = raw_hex⦄ ⦃bls = flat_bls⦄ ⦃s = flat_sha256⦄ ⦃gz = stored⦄ ⦃sha = length_sha⦄
      ⦃pb = by_length⦄ directory from_two fresh saved_state (omega arith) newest_small refl

load-save_example : StateFile.load (StateFile.save saved_state) ≡ saved_state
unfolding StateFile.InU64
load-save_example = StateFile.load-save saved_state (omega arith) (omega arith) (omega arith)
