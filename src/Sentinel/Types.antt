-- ===== src/Sentinel/Types.antt =====
-- The types of src/cli/sentinel.rs, and the outcome of its calls.
use Prim.Native.String.{String}
use hiero_streams_rs.Prelude.{ℕ, ◌≡◌, refl, Bool, Option, List, Bytes}
use hiero_streams_rs.Text.{Text}
use hiero_streams_rs.Result.{Result, Error}
use hiero_streams_rs.Hapi.{Decoded}

-- The boxed errors, one constructor for each text, with the values that it shows.
pub data Alarm : Type 0 where
  unreadable_block : ℕ → Error → Alarm
  sequence_break : ℕ → ℕ → Alarm
  root_chain_break : ℕ → Text → Text → Alarm
  proof_format_changed : ℕ → Text → Text → ℕ → ℕ → Alarm
  signature_layout_changed : ℕ → ℕ → ℕ → Alarm
  ledger_id_publication : ℕ → Alarm
  invalid_threshold_signature : ℕ → Alarm
  gap : ℕ → String → Alarm
  probe_failed : ℕ → String → Alarm
  unreadable_directory : String → Alarm
  no_blocks_in_directory : Alarm
  floor_missing : ℕ → Alarm
  no_last_block : Alarm
  no_init_block : Alarm

-- A value, an error, a panic, or a model loop that ran out of fuel.
pub data Run (A : Type 0) : Type 0 where
  done : A → Run A
  alarmed : Alarm → Run A
  panicked : Run A
  unfinished : Run A

infixl 5 ◌>>=◌
abbrev pub ◌>>=◌ : {T U : Type 0} → Run T → (T → Run U) → Run U
unfinished >>= rest = unfinished
panicked >>= rest = panicked
alarmed a >>= rest = alarmed a
done x >>= rest = rest x

-- `map_err` of a call into the library.
abbrev pub or_alarm : {T : Type 0} → (Error → Alarm) → Result T → Run T
or_alarm f (Result.ok t) = done t
or_alarm f (Result.err e) = alarmed (f e)
or_alarm f Result.panic = panicked
or_alarm f Result.stuck = unfinished

-- Where a call with a `?` succeeds, so did both of its parts.
pub >>=-eq-done :
    {T U : Type 0} (first : Run T) (rest : T → Run U) {u : U}
    → (first >>= rest) ≡ done u
    → (x : T) × (first ≡ done x) × (rest x ≡ done u)
>>=-eq-done unfinished rest e = cc
>>=-eq-done panicked rest e = cc
>>=-eq-done (alarmed a) rest e = cc
>>=-eq-done (done x) rest e = (x, refl, e)

pub done_injective : {T : Type 0} {a b : T} → done a ≡ done b → a ≡ b
done_injective h = cc

-- The state file's fields.
pub record State : Type 0 where
  pub comment : Text
  pub initialized : Bool
  pub last_block : Option ℕ
  pub last_root : Option Text
  pub proof_path : Option Text
  pub signature_bytes : Option ℕ
  pub verified_total : Option ℕ
  pub since : Option Text
  pub checked : Option Text

-- Where blocks come from: the probe and the fetch of either kind of `Source`, and what the newest
-- block is looked up in: the bucket, by probes, or the numbers that the directory's file names hold.
-- The answers do not change during a run.
pub record Source : Type 0 where
  pub exists : ℕ → Decoded Bool
  pub fetch : ℕ → Decoded Bytes
  pub local_numbers : Option (Decoded (List ℕ))
