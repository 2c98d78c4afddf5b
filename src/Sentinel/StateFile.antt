-- ===== src/Sentinel/StateFile.antt =====
-- `State::load` and `State::save` of src/cli/sentinel.rs, between the state and the JSON value that
-- `serde_json` parses from the file and prints to it.
use hiero_streams_rs.Prelude.{ℕ, ◌^◌, ◌<◌, ◌≡◌, refl, Bool, false, Option, none, some, [], arith}
use hiero_streams_rs.Prelude.Int.{pos}
use hiero_streams_rs.Text.{Text, text_leb}
use hiero_streams_rs.Json.{
  Json, text, number, boolean, json_object, insert_members, insert_member, null, no_members, member,
}
use hiero_streams_rs.Json.Access.{member_of, index, as_str, as_bool, u64_of, as_u64}
use hiero_streams_rs.Sentinel.Types.{State}

abbrev pub text_or_empty : Option Text → Text
text_or_empty none = []
text_or_empty (some t) = t

abbrev pub bool_or_false : Option Bool → Bool
bool_or_false none = false
bool_or_false (some b) = b

-- On a 64-bit target a `u64` is a `usize` as it is.
unfoldable pub load : Json → State
load v = record {
  comment = text_or_empty (as_str (index v "_comment"));
  initialized = bool_or_false (as_bool (index v "initialized"));
  last_block = as_u64 (index v "lastBlock");
  last_root = as_str (index v "lastRoot");
  proof_path = as_str (index v "proofPath");
  signature_bytes = as_u64 (index v "signatureBytes");
  verified_total = as_u64 (index v "verifiedTotal");
  since = as_str (index v "since");
  checked = as_str (index v "checked");
}

-- An `Option` in `json!` is null where it is `None`.
unfoldable pub text_value : Option Text → Json
text_value none = null
text_value (some t) = text t

unfoldable pub number_value : Option ℕ → Json
number_value none = null
number_value (some n) = number (pos n)

unfoldable pub save : State → Json
save s = json_object (
    member "_comment" (text s.comment) (
      member "initialized" (boolean s.initialized) (
        member "lastBlock" (number_value s.last_block) (
          member "lastRoot" (text_value s.last_root) (
            member "proofPath" (text_value s.proof_path) (
              member "signatureBytes" (number_value s.signature_bytes) (
                member "verifiedTotal" (number_value s.verified_total) (
                  member "since" (text_value s.since)
                    (member "checked" (text_value s.checked) no_members)))))))))

-- The value is absent or fits in a `u64`.
unfoldable pub InU64 : Option ℕ → Type 0
InU64 none = Unit
InU64 (some n) = n < 2 ^ 64

as_u64-number_value : (o : Option ℕ) → InU64 o → as_u64 (number_value o) ≡ o
unfolding as_u64 number_value u64_of InU64
as_u64-number_value none h = refl
as_u64-number_value (some n) h = ground arith

as_str-text_value : (o : Option Text) → as_str (text_value o) ≡ o
unfolding as_str text_value
as_str-text_value none = refl
as_str-text_value (some t) = refl

-- A saved state is loaded again as it was, where its numbers fit in a `u64`.
pub load-save :
    (s : State)
    → InU64 s.last_block
    → InU64 s.signature_bytes
    → InU64 s.verified_total
    → load (save s) ≡ s
unfolding json_object insert_members insert_member text_leb load save index member_of as_bool as_str
load-save s a b c =
    rw
      (
        as_u64-number_value s.last_block a,
        as_u64-number_value s.signature_bytes b,
        as_u64-number_value s.verified_total c,
        as_str-text_value s.last_root,
        as_str-text_value s.proof_path,
        as_str-text_value s.since,
        as_str-text_value s.checked,
      )
      refl
