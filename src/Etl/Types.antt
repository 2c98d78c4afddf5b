-- ===== src/Etl/Types.antt =====
-- The errors and outcomes of src/cli/etl, and its interfaces to the file system.
use Prim.Native.String.{String}
use hiero_streams_rs.Prelude.{ℕ, ◌≡◌, refl, Bool, Option, List, Bytes}
use hiero_streams_rs.Text.{Text}
use hiero_streams_rs.Result.{Result, Error}
use hiero_streams_rs.Hapi.{Decoded}
use hiero_streams_rs.Transaction.{ParsedTransaction}
use hiero_streams_rs.Record.Verify.{BreakReason}

-- The boxed errors, one constructor for each text, with the values that it shows.
pub data Failure : Type 0 where
  no_day_prefix : Text → Failure
  read_failed : Text → String → Failure
  parse_failed : Text → Error → Failure
  boundary_break : Text → Option Text → BreakReason → Failure
  day_break : Text → ℕ → Option Text → BreakReason → Failure
  chain_info_failed : Text → Error → Failure
  block_gap : Text → ℕ → Text → ℕ → Failure
  root_break : Text → ℕ → Text → ℕ → Failure
  write_failed : String → Failure
  mixed_eras : Failure

-- A value, an error, a panic, or a model loop that ran out of fuel.
pub data Job (A : Type 0) : Type 0 where
  done : A → Job A
  failed : Failure → Job A
  panicked : Job A
  unfinished : Job A

infixl 5 ◌>>=◌
abbrev pub ◌>>=◌ : {T U : Type 0} → Job T → (T → Job U) → Job U
unfinished >>= rest = unfinished
panicked >>= rest = panicked
failed e >>= rest = failed e
done x >>= rest = rest x

abbrev pub or_failed : {T : Type 0} → (Error → Failure) → Result T → Job T
or_failed f (Result.ok t) = done t
or_failed f (Result.err e) = failed (f e)
or_failed f Result.panic = panicked
or_failed f Result.stuck = unfinished

pub >>=-eq-done :
    {T U : Type 0} (first : Job T) (rest : T → Job U) {u : U}
    → (first >>= rest) ≡ done u
    → (x : T) × (first ≡ done x) × (rest x ≡ done u)
>>=-eq-done unfinished rest e = cc
>>=-eq-done panicked rest e = cc
>>=-eq-done (failed a) rest e = cc
>>=-eq-done (done x) rest e = (x, refl, e)

pub done_injective : {T : Type 0} {a b : T} → done a ≡ done b → a ≡ b
done_injective h = cc

-- `fs::read` of a file of the input directory, and the `write_day` of parquet.rs.
pub record Files : Type 0 where
  pub read : Text → Decoded Bytes
  pub write_day : Text → List ParsedTransaction → Bool → Decoded (Unit {0})
