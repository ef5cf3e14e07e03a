-- ===== src/Conversion.antt =====
-- The conversion of strings between the character set of the locale and UTF-8, `run_iconv` of
-- src/commands.c, with its output buffer and the two descriptors that it keeps.
pub mod Fitting
mod Tests
use cadaver.Common.{
  ◌>>=◌, ℕ, zero, suc, ◌+◌, ◌-◌, ◌≤◌, ◌<◌, Bool, true, false, not, List, [], ◌∷◌, ◌++◌, Option,
  none, some, ltb, if◌then◌else◌, length, take,
}
use cadaver.Common.Text.{Bytes, codes}

-- `enum conv_mode`.
pub data ConvMode : Type 0 where
  to_utf8 from_utf8 : ConvMode

-- The bytes that `iconv` writes, and whether it fails.
pub record Output : Type 0 where
  pub written : Bytes
  pub failed : Bool

-- iconv of the C library: whether it can convert to one character set from another, and what it
-- writes of a string into a buffer, which is never more than the buffer's size.
pub record Iconv : Type 0 where
  pub opens : Bytes → Bytes → Bool
  pub iconv : Bytes × Bytes → Bytes → ℕ → Output
  pub iconv_lem : (cd : Bytes × Bytes) (s : Bytes) (n : ℕ) → length (iconv cd s n).written ≤ n

-- The static descriptors, each with the character sets that it was opened for.
pub record Descriptors : Type 0 where
  pub to_cd : Option (Bytes × Bytes)
  pub from_cd : Option (Bytes × Bytes)

-- The program exits where no descriptor can be opened; `underrun` is a write before the buffer.
pub data Converted : Type 0 where
  exits underrun : Converted
  converted : Bytes → Bool → Descriptors → Converted

-- The loop that makes space for the mark: the place of the pointer from its place and the bytes that
-- are left; `none` is a pointer before the buffer. Three rounds are enough.
unfoldable pub make_space : ℕ → ℕ → ℕ → Option ℕ
make_space zero outptr outbytes = if ltb outbytes 3 then none else some outptr
make_space (suc fuel) zero outbytes = if ltb outbytes 3 then none else some zero
make_space (suc fuel) (suc outptr) outbytes =
    let rest = make_space fuel outptr (outbytes + 1) in
    if ltb outbytes 3 then rest else some (suc outptr)

abbrev pub marked : Bytes → Option ℕ → Option Bytes
marked written none = none
marked written (some outptr) = some (take outptr written ++ codes "[?]")

-- What stands in the buffer at the end.
abbrev pub in_buffer : ℕ → Output → Option Bytes
unfolding make_space
in_buffer bufsiz o =
    if o.failed
    then marked o.written (make_space 3 (length o.written) (bufsiz - length o.written))
    else some o.written

-- A warning is shown for a failure, but not in a completion.
abbrev pub returned : Bool → Descriptors → Output → Option Bytes → Converted
returned in_completion d o none = underrun
returned in_completion d o (some s) = converted s (if o.failed then not in_completion else false) d

abbrev pub kept : ConvMode → Descriptors → Option (Bytes × Bytes)
kept to_utf8 d = d.to_cd
kept from_utf8 d = d.from_cd

abbrev pub keep : ConvMode → Bytes × Bytes → Descriptors → Descriptors
keep to_utf8 cd d = record d { to_cd = some cd }
keep from_utf8 cd d = record d { from_cd = some cd }

abbrev pub charsets : ConvMode → Bytes → Bytes × Bytes
charsets to_utf8 out_charset = (codes "UTF-8", out_charset)
charsets from_utf8 out_charset = (out_charset, codes "UTF-8")

module _ (ic : Iconv) (bufsiz : ℕ) (in_completion : Bool) (out_charset : Bytes) where
  abbrev pub convert_with : Bytes → Bytes × Bytes → Descriptors → Converted
  convert_with instr cd d =
      let o = ic.iconv cd instr bufsiz in returned in_completion d o (in_buffer bufsiz o)

  abbrev pub convert_in : Bytes → ConvMode → Descriptors → Option (Bytes × Bytes) → Converted
  convert_in instr mode d (some cd) = convert_with instr cd d
  convert_in instr mode d none =
      let cd = charsets mode out_charset in
      if ic.opens cd.0 cd.1 then convert_with instr cd (keep mode cd d) else exits

  unfoldable pub run_iconv : Bytes → ConvMode → Descriptors → Converted
  run_iconv instr mode d = convert_in instr mode d (kept mode d)
