-- ===== src/Listing/Display.antt =====
-- `execute_ls` and `display_ls_line` of src/ls.c: the lines in which a listing is shown.
use cadaver.Common.{
  ℕ, ◌≡◌, ◌≢◌, refl, Bool, true, false, List, [], ◌∷◌, ◌++◌, Option, none, some, arith, ltb, ◌==◌,
  length, but_last, but_last-append, All, if◌then◌else◌,
}
use cadaver.Common.Text.{Bytes}
use cadaver.Listing.{ResourceType, Resource}
use ResourceType.{resr_normal, resr_collection, resr_reference, resr_error}

-- The marks of a line, by their meaning.
pub data Restype : Type 0 where
  plain reference collection : Restype

pub data Vcr : Type 0 where
  no_vcr checked_in checked_out : Vcr

-- A line: an error with its status, or a resource; a name is none where the path has an escape
-- that is not valid.
pub data LsLine : Type 0 where
  error : Option Bytes → ℕ → Option Bytes → LsLine
  shown : Restype → Vcr → Bool → Option Bytes → ℕ → ℕ → LsLine

-- What follows the last slash, if there is one: `strrchr (path, '/') + 1`.
abbrev pub after_slash : Bytes → Option Bytes
after_slash [] = none
after_slash (c ∷ path) = elim (after_slash path) [
  | some rest ↦ some rest
  | none ↦ if c == b'/' then some path else none
]

abbrev pub or_all : Bytes → Option Bytes → Bytes
or_all path none = path
or_all path (some []) = path
or_all path (some (c ∷ rest)) = c ∷ rest

-- The part of the path that is shown: its last segment, without a slash at the end.
unfoldable pub shown_path : (Bytes → Bool) → Bytes → Bytes
shown_path path_has_trailing_slash uri =
    let path = if path_has_trailing_slash uri then but_last uri else uri in
    or_all path (after_slash path)

abbrev pub vcr_char : ℕ → Vcr
vcr_char is_vcr = if is_vcr == 0 then no_vcr else if is_vcr == 1 then checked_in else checked_out

module _ (path_has_trailing_slash : Bytes → Bool)
    (native_path_from_uri : Bytes → Option Bytes) where
  abbrev pub line_as : Restype → Resource → LsLine
  line_as k r =
      shown k (vcr_char r.is_vcr) r.is_executable
        (native_path_from_uri (shown_path path_has_trailing_slash r.uri)) r.size r.modtime

  abbrev pub line_of : ResourceType → Resource → LsLine
  line_of resr_normal r = line_as plain r
  line_of resr_reference r = line_as reference r
  line_of resr_collection r = line_as collection r
  line_of resr_error r =
      error (native_path_from_uri (shown_path path_has_trailing_slash r.uri)) r.error_status
        r.error_reason

  unfoldable pub display_ls_line : Resource → LsLine
  unfolding shown_path
  display_ls_line r = line_of r.type r

  abbrev pub ls_lines : Bytes → List Resource → List LsLine
  unfolding display_ls_line
  ls_lines uri_path [] = []
  ls_lines uri_path (current ∷ reslist) =
      let rest = ls_lines uri_path reslist in
      if ltb (length uri_path) (length current.uri) then display_ls_line current ∷ rest else rest

  -- `none` is a request that fails.
  unfoldable pub execute_ls : Bytes → Option (List Resource) → Option (List LsLine)
  unfolding ls_lines
  execute_ls uri_path none = none
  execute_ls uri_path (some reslist) = some (ls_lines uri_path reslist)

after_slash-segment : (seg : Bytes) → All (λ c. c ≢ b'/') seg → after_slash seg ≡ none
after_slash-segment [] h = refl
after_slash-segment (c ∷ seg) h = rw (after_slash-segment seg h.1) (ground (arith, h.0))

after_slash-append :
    (dir seg : Bytes) → All (λ c. c ≢ b'/') seg → after_slash (dir ++ (b'/' ∷ seg)) ≡ some seg
after_slash-append [] seg h = rw (after_slash-segment seg h) refl
after_slash-append (c ∷ dir) seg h = rw (after_slash-append dir seg h) refl

-- A path is shown by its last segment, with or without the slash that a collection has at its end.
shown_path-segment :
    (path_has_trailing_slash : Bytes → Bool) (dir seg : Bytes) (c : ℕ)
    → All (λ c. c ≢ b'/') (c ∷ seg)
    → path_has_trailing_slash (dir ++ (b'/' ∷ c ∷ seg)) ≡ false
    → path_has_trailing_slash ((dir ++ (b'/' ∷ c ∷ seg)) ++ b'/' ∷ []) ≡ true
    → (shown_path path_has_trailing_slash (dir ++ (b'/' ∷ c ∷ seg)) ≡ c ∷ seg)
      × (shown_path path_has_trailing_slash ((dir ++ (b'/' ∷ c ∷ seg)) ++ b'/' ∷ []) ≡ c ∷ seg)
unfolding shown_path
shown_path-segment path_has_trailing_slash dir seg c h e f = (
  rw (e, after_slash-append dir (c ∷ seg) h) refl,
  rw f (
      rw (but_last-append (dir ++ (b'/' ∷ c ∷ seg)) b'/')
        (rw (after_slash-append dir (c ∷ seg) h) refl)),
)
