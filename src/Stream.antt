-- ===== src/Stream.antt =====
-- src/lib.rs: `inflate` and `detect_format`. Decompression is the `flate2` crate's, and enters as
-- the interface `Gzip`.
pub mod Detect
use Prim.Native.String.{String}
use hiero_streams_rs.Prelude.{
  ℕ, zero, suc, ◌+◌, ◌-◌, ◌*◌, ◌^◌, ◌≤◌, ◌<◌, ◌≡◌, Bool, false, true, ◌&&◌, Option, none, some,
  List, [], ◌∷◌, ltb, leb, ◌==◌, if◌then◌else◌, length, take, Bytes,
}
use hiero_streams_rs.Prelude.Int.{ℤ, pos, negsuc, eqb_ℤ}
use hiero_streams_rs.Result.{Result, ok, err, ◌>>=◌, ok_or, gzip, too_short, too_large}

-- What a reader gives: the bytes, or an I/O error with its text.
pub data Read : Type 0 where
  bytes : Bytes → Read
  failed : String → Read

-- `GzDecoder::new(b).take(limit).read_to_end`, and `read_exact` of a buffer of `n` bytes. They read
-- the same decompressed stream from its start.
pub record Gzip : Type 0 where
  pub read_to_end : Bytes → ℕ → Read
  pub read_exact : Bytes → ℕ → Option Bytes
  pub at_most_limit :
      (b : Bytes) (limit : ℕ) (out : Bytes) → read_to_end b limit ≡ bytes out → length out ≤ limit
  pub same_start :
      (b : Bytes) (limit n : ℕ) (out : Bytes)
      → read_to_end b limit ≡ bytes out
      → n ≤ limit
      → read_exact b n ≡ (if leb n (length out) then some (take n out) else none)

abbrev pub max_inflated : ℕ
max_inflated = 2 ^ 30

-- `bytes.len() >= 2 && bytes[..2] == GZIP_MAGIC`
unfoldable pub has_gzip_magic : Bytes → Bool
has_gzip_magic [] = false
has_gzip_magic (a ∷ []) = false
has_gzip_magic (a ∷ (b ∷ rest)) = a == 0x1f && b == 0x8b

-- `i32::from_be_bytes`
unfoldable pub i32_from_be_bytes : ℕ → ℕ → ℕ → ℕ → ℤ
i32_from_be_bytes a b c d =
    let w = ((a * 256 + b) * 256 + c) * 256 + d in
    if ltb w (2 ^ 31) then pos w else negsuc (2 ^ 32 - w - 1)

pub data Format : Type 0 where
  record_file_v6 block_stream : Format
  unknown : ℤ → Format

-- The match of `detect_format` on the version and the first byte of `buf`.
unfoldable pub route : ℤ → ℕ → Format
route version first =
    if eqb_ℤ version (pos 6)
    then record_file_v6
    else if first == 0x0a
    then block_stream
    else unknown version

unfoldable pub format_of_header : Bytes → Result Format
format_of_header (a ∷ (b ∷ (c ∷ (d ∷ rest)))) = ok (route (i32_from_be_bytes a b c d) a)
format_of_header _ = err too_short

unfoldable pub limit_inflated : Read → Result Bytes
limit_inflated (failed e) = err (gzip e)
limit_inflated (bytes out) = if ltb max_inflated (length out) then err too_large else ok out

module _ ⦃gz : Gzip⦄ where
  unfoldable pub inflate : Bytes → Result Bytes
  inflate b =
      if has_gzip_magic b then limit_inflated (gz.read_to_end b (max_inflated + 1)) else ok b

  unfoldable pub detect_format : Bytes → Result Format
  detect_format b =
      if has_gzip_magic b
      then (do buf ← ok_or (gz.read_exact b 4) too_short; format_of_header buf)
      else if ltb (length b) 4
      then err too_short
      else format_of_header (take 4 b)
