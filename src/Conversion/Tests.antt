-- ===== src/Conversion/Tests.antt =====
-- Conversions that fail for the bytes from 128 on, into a buffer of eight bytes.
use cadaver.Common.{
  ◌≡◌, refl, Bool, true, false, [], ◌∷◌, none, some, arith, leb, length, take, length-take-le,
  if◌then◌else◌,
}
use cadaver.Common.Text.{Bytes, codes}
use cadaver.Conversion.Fitting.{FitsBuffer, run_iconv-FitsBuffer}
use cadaver.Conversion.{Iconv, Descriptors, Converted, make_space, run_iconv, to_utf8}

abbrev plain_part : Bytes → Bytes
plain_part [] = []
plain_part (c ∷ s) = let rest = plain_part s in if leb 128 c then [] else c ∷ rest

abbrev all_plain : Bytes → Bool
all_plain [] = true
all_plain (c ∷ s) = let rest = all_plain s in if leb 128 c then false else rest

abbrev ascii : Iconv
ascii = record {
  opens = λ to from. true;
  iconv = λ cd s n. record {
    written = take n (plain_part s);
    failed = if all_plain s then (if leb (length s) n then false else true) else true;
  };
  iconv_lem = λ cd s n. length-take-le n (plain_part s);
}

abbrev unopened : Descriptors
unopened = record { to_cd = none; from_cd = none }

abbrev opened : Descriptors
opened = record { to_cd = some (codes "UTF-8", codes "C"); from_cd = none }

whole :
    run_iconv ascii 8 false (codes "C") (codes "abc") to_utf8 unopened
    ≡ Converted.converted (codes "abc") false opened
unfolding run_iconv make_space
whole = refl

-- A full buffer makes room for the mark.
full :
    run_iconv ascii 8 false (codes "C") (codes "abcdefghi") to_utf8 opened
    ≡ Converted.converted (codes "abcde[?]") true opened
unfolding run_iconv make_space
full = refl

in_the_middle :
    run_iconv ascii 8 true (codes "C") (b'a' ∷ 200 ∷ b'b' ∷ []) to_utf8 opened
    ≡ Converted.converted (codes "a[?]") false opened
unfolding run_iconv make_space
in_the_middle = refl

run_iconv-FitsBuffer_example :
    FitsBuffer ascii 8 false
      (codes "C")
      (codes "abcdefghi")
      to_utf8
      unopened
      (run_iconv ascii 8 false (codes "C") (codes "abcdefghi") to_utf8 unopened)
run_iconv-FitsBuffer_example =
    run_iconv-FitsBuffer ascii 8 false (codes "C") (codes "abcdefghi") to_utf8 unopened
      (omega arith)
