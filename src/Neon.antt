-- ===== src/Neon.antt =====
-- What the path code takes from neon, which is not part of the repository: the calls that
-- src/commands.c and src/utils.c make, with the documented behaviour that they rely on.
pub mod Samples
use cadaver.Common.{ℕ, ◌≡◌, Bool, true, false, List, [], ◌∷◌, ◌++◌, Option, ◌==◌, if◌then◌else◌}
use cadaver.Common.Text.{Bytes}

-- The components of an `ne_uri` that the code reads.
pub record Uri : Type 0 where
  pub scheme : Bytes
  pub host : Bytes
  pub port : ℕ
  pub path : Bytes

abbrev pub ends_with_slash : Bytes → Bool
ends_with_slash [] = false
ends_with_slash (c ∷ []) = c == b'/'
ends_with_slash (c ∷ d ∷ p) = ends_with_slash (d ∷ p)

pub record Neon : Type 0 where
  -- `ne_path_escape`, `ne_path_unescape` (`none` for NULL).
  pub path_escape : Bytes → Bytes
  pub path_unescape : Bytes → Option Bytes
  pub path_has_trailing_slash : Bytes → Bool
  -- `ne_path_compare` with 0 for `true`.
  pub path_compare : Bytes → Bytes → Bool
  -- The path of `ne_uri_resolve` for a reference that has a path only.
  pub uri_resolve : Uri → Bytes → Bytes
  -- `ne_uri_cmp` with 0 for `true`.
  pub uri_cmp : Uri → Uri → Bool
  pub uri_defaultport : Bytes → ℕ
  -- "Returns non-zero if path has a trailing slash character".
  pub trailing_slash_lem : (p : Bytes) → path_has_trailing_slash p ≡ ends_with_slash p
