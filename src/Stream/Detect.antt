-- ===== src/Stream/Detect.antt =====
-- `inflate` and `detect_format` of src/lib.rs: the size ceiling, and that both read one stream.
use Prim.Native.String.{String}
use hiero_streams_rs.Prelude.{
  ◌+◌, ◌≤◌, ◌<◌, ◌≡◌, refl, sym, if◌then◌else◌, ◌⊎◌, inl, inr, false, true, [], ◌∷◌, ltb, leb,
  arith, length, take, Bytes, Bool-cases, none, some,
}
use hiero_streams_rs.Result.{ok, err, ◌>>=◌, ok_or, too_short}
use hiero_streams_rs.Stream.{
  Gzip, Read, bytes, failed, max_inflated, has_gzip_magic, format_of_header, limit_inflated,
  inflate, detect_format,
}

short_header : (b : Bytes) → length b < 4 → format_of_header b ≡ err too_short
unfolding format_of_header
short_header [] h = refl
short_header (a ∷ []) h = refl
short_header (a ∷ (b ∷ [])) h = refl
short_header (a ∷ (b ∷ (c ∷ []))) h = refl
short_header (a ∷ (b ∷ (c ∷ (d ∷ rest)))) h = absurd (omega arith)

header_of_take : (b : Bytes) → 4 ≤ length b → format_of_header (take 4 b) ≡ format_of_header b
unfolding format_of_header
header_of_take [] h = absurd (omega arith)
header_of_take (a ∷ []) h = absurd (omega arith)
header_of_take (a ∷ (b ∷ [])) h = absurd (omega arith)
header_of_take (a ∷ (b ∷ (c ∷ []))) h = absurd (omega arith)
header_of_take (a ∷ (b ∷ (c ∷ (d ∷ rest)))) h = refl

Read-cases : (r : Read) → ((out : Bytes) × (r ≡ bytes out)) ⊎ ((t : String) × (r ≡ failed t))
Read-cases (bytes out) = inl (out, refl)
Read-cases (failed t) = inr (t, refl)

-- Only a read within the ceiling passes.
limit_inflated-ok :
    (r : Read) (out : Bytes)
    → limit_inflated r ≡ ok out
    → (r ≡ bytes out) × (length out ≤ max_inflated)
unfolding limit_inflated
limit_inflated-ok (failed t) out e = cc
limit_inflated-ok (bytes x) out e = ground arith

module _ ⦃gz : Gzip⦄ where
  inflate_cases :
      (b out : Bytes)
      → inflate b ≡ ok out
      → ((has_gzip_magic b ≡ true)
          × (gz.read_to_end b (max_inflated + 1) ≡ bytes out)
          × (length out ≤ max_inflated))
        ⊎ ((has_gzip_magic b ≡ false) × (out ≡ b))
  unfolding inflate
  inflate_cases b out e = elim (Bool-cases (has_gzip_magic b)) [
    | inl yes_gz ↦
        let (r, small) =
          limit_inflated-ok (gz.read_to_end b (max_inflated + 1)) out (rw yes_gz at e) in
        inl (yes_gz, r, small)
    | inr plain ↦ inr (plain, cc (rw plain at e))
  ]

  -- What `inflate` returns for gzip input is at most 1 GiB, and other input comes back unchanged.
  pub inflate_ceiling :
      (b out : Bytes)
      → inflate b ≡ ok out
      → ((has_gzip_magic b ≡ true) × (length out ≤ max_inflated))
        ⊎ ((has_gzip_magic b ≡ false) × (out ≡ b))
  inflate_ceiling b out e = elim (inflate_cases b out e) [
    | inl (g, r, small) ↦ inl (g, small)
    | inr p ↦ inr p
  ]

  detect_read :
      (raw : Bytes)
      → (ok_or (if leb 4 (length raw) then some (take 4 raw) else none) too_short
          >>= format_of_header)
        ≡ format_of_header raw
  detect_read raw = elim (Bool-cases (leb 4 (length raw))) [
    | inl long ↦ rw long (header_of_take raw (ground arith))
    | inr short ↦ rw short (sym (short_header raw (ground arith)))
  ]

  detect_plain :
      (b : Bytes)
      → (if ltb (length b) 4 then err too_short else format_of_header (take 4 b))
        ≡ format_of_header b
  detect_plain b = elim (Bool-cases (ltb (length b) 4)) [
    | inl short ↦ rw short (sym (short_header b (ground arith)))
    | inr long ↦ rw long (header_of_take b (ground arith))
  ]

  detect_format_of_inflated :
      (b raw : Bytes) → inflate b ≡ ok raw → detect_format b ≡ format_of_header raw
  unfolding detect_format
  detect_format_of_inflated b raw e = elim (inflate_cases b raw e) [
    | inl (g, r, small) ↦
        rw (g, gz.same_start b (max_inflated + 1) 4 raw r (omega arith)) (detect_read raw)
    | inr (plain, same) ↦ rw (plain, same) (detect_plain b)
  ]

  -- On every input that `inflate` accepts, `detect_format` answers by the first four bytes of the
  -- inflated data, or `TooShort` where there are fewer; the inflated data of gzip input are at most
  -- 1 GiB, and other input comes back unchanged.
  pub detect_format-inflate :
      (b raw : Bytes)
      → inflate b ≡ ok raw
      → (detect_format b ≡ format_of_header raw)
        × (((has_gzip_magic b ≡ true) × (length raw ≤ max_inflated))
            ⊎ ((has_gzip_magic b ≡ false) × (raw ≡ b)))
  detect_format-inflate b raw e = (detect_format_of_inflated b raw e, inflate_ceiling b raw e)
