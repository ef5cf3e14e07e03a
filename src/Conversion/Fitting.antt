-- ===== src/Conversion/Fitting.antt =====
-- What `run_iconv` leaves in its buffer.
use cadaver.Common.{
  ℕ, zero, suc, ◌+◌, ◌-◌, ◌≤◌, ◌≡◌, refl, Bool, false, ◌++◌, Option, none, some, arith, ◌⊎◌, inl,
  inr, Bool-cases, if_cases, ltb, if◌then◌else◌, length, length-append, take, length-take-le,
}
use cadaver.Common.Text.{Bytes, codes}
use cadaver.Conversion.{
  ConvMode, Output, Iconv, Descriptors, Converted, make_space, in_buffer, kept, keep, charsets,
  convert_with, convert_in, run_iconv,
}

-- How many converted bytes stay in front of the mark.
abbrev pub room : ℕ → ℕ → ℕ
room bufsiz written = if ltb bufsiz (written + 3) then bufsiz - 3 else written

make_space-room :
    (fuel p left bufsiz : ℕ)
    → p + left ≡ bufsiz
    → 3 ≤ bufsiz
    → 3 ≤ left + fuel
    → make_space fuel p left ≡ some (room bufsiz p)
unfolding make_space
make_space-room zero p left bufsiz e h l = ground arith
make_space-room (suc fuel) zero left bufsiz e h l = ground arith
make_space-room (suc fuel) (suc p) left bufsiz e h l =
    ground (arith, make_space-room fuel p (left + 1) bufsiz (omega (arith, e)) h (omega (arith, l)))

-- The converted bytes, whole where all were converted, and otherwise with the mark behind as many of
-- them as leave it room.
abbrev pub text_of : ℕ → Output → Bytes
text_of bufsiz o =
    if o.failed then take (room bufsiz (length o.written)) o.written ++ codes "[?]" else o.written

in_buffer-text_of :
    (bufsiz : ℕ) (o : Output)
    → 3 ≤ bufsiz
    → length o.written ≤ bufsiz
    → in_buffer bufsiz o ≡ some (text_of bufsiz o)
unfolding in_buffer
in_buffer-text_of bufsiz o h l =
    rw
      (make_space-room 3 (length o.written) (bufsiz - length o.written) bufsiz (omega (arith, l)) h
        (omega arith))
      (elim (Bool-cases o.failed) [ inl e ↦ rw e refl | inr e ↦ rw e refl ])

length-text_of :
    (bufsiz : ℕ) (o : Output)
    → 3 ≤ bufsiz
    → length o.written ≤ bufsiz
    → length (text_of bufsiz o) ≤ bufsiz
length-text_of bufsiz o h l = ground (
  arith,
  length-append (take (room bufsiz (length o.written)) o.written) (codes "[?]"),
  length-take-le (room bufsiz (length o.written)) o.written,
)

module _ (ic : Iconv) (bufsiz : ℕ) (in_completion : Bool) (out_charset : Bytes) where
  -- A conversion by the descriptor that is kept then, which is the one that was kept before, if any.
  pub record IsConverted (instr : Bytes) (mode : ConvMode) (d : Descriptors) (s : Bytes)
      (d' : Descriptors) : Type 0 where
    pub cd : Bytes × Bytes
    pub kept_after : kept mode d' ≡ some cd
    pub kept_before : (kept mode d ≡ some cd) ⊎ (kept mode d ≡ none)
    pub bytes : s ≡ text_of bufsiz (ic.iconv cd instr bufsiz)
    pub bound : length s ≤ bufsiz

  abbrev pub FitsBuffer : Bytes → ConvMode → Descriptors → Converted → Type 0
  FitsBuffer instr mode d Converted.exits =
      (kept mode d ≡ none)
      × (ic.opens (charsets mode out_charset).0 (charsets mode out_charset).1 ≡ false)
  FitsBuffer instr mode d Converted.underrun = ⊥
  FitsBuffer instr mode d (Converted.converted s warns d') = IsConverted instr mode d s d'

  kept-keep :
      (mode : ConvMode) (cd : Bytes × Bytes) (d : Descriptors)
      → kept mode (keep mode cd d) ≡ some cd
  kept-keep ConvMode.to_utf8 cd d = refl
  kept-keep ConvMode.from_utf8 cd d = refl

  convert_with-FitsBuffer :
      (instr : Bytes) (mode : ConvMode) (d d' : Descriptors) (cd : Bytes × Bytes)
      → 3 ≤ bufsiz
      → kept mode d' ≡ some cd
      → (kept mode d ≡ some cd) ⊎ (kept mode d ≡ none)
      → FitsBuffer instr mode d (convert_with ic bufsiz in_completion out_charset instr cd d')
  convert_with-FitsBuffer instr mode d d' cd h k b =
      rw (in_buffer-text_of bufsiz (ic.iconv cd instr bufsiz) h (ic.iconv_lem cd instr bufsiz))
        (record {
          cd = cd;
          kept_after = k;
          kept_before = b;
          bytes = refl;
          bound = length-text_of bufsiz (ic.iconv cd instr bufsiz) h (ic.iconv_lem cd instr bufsiz);
        })

  -- A conversion writes neither before its buffer nor behind it, also where it fails with the buffer
  -- full: the result is what was converted, or after a failure as much of that as leaves room for
  -- the mark `[?]`, and the mark. The descriptor is opened once for each direction, and the program
  -- exits only where that fails. The buffer has three bytes or more.
  pub run_iconv-FitsBuffer :
      (instr : Bytes) (mode : ConvMode) (d : Descriptors)
      → 3 ≤ bufsiz
      → FitsBuffer instr mode d (run_iconv ic bufsiz in_completion out_charset instr mode d)
  unfolding run_iconv
  run_iconv-FitsBuffer instr mode d h = go (kept mode d) refl
    where
      cd : Bytes × Bytes
      cd = charsets mode out_charset

      go :
          (o : Option (Bytes × Bytes))
          → kept mode d ≡ o
          → FitsBuffer instr mode d (convert_in ic bufsiz in_completion out_charset instr mode d o)
      go (some c) e = convert_with-FitsBuffer instr mode d d c h e (inl e)
      go none e =
          if_cases (FitsBuffer instr mode d) (ic.opens cd.0 cd.1)
            (λ _.
              convert_with-FitsBuffer instr mode d (keep mode cd d) cd h (kept-keep mode cd d)
                (inr e))
            (λ f. (e, f))
