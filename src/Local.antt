-- ===== src/Local.antt =====
-- The commands of src/commands.c about the local directory, `lcd`, `lpwd` and `lls`, and those that
-- only show what neon has: `pwd` and `head`.
pub mod Directory
mod Tests
use cadaver.Common.{
  ◌>>=◌, ℕ, suc, ◌<◌, Bool, true, false, List, [], ◌∷◌, ◌++◌, Option, none, some, ltb,
  if◌then◌else◌, length, map,
}
use cadaver.Common.Text.{Bytes, codes}

-- The system: $HOME, the directory that `chdir` leads to from another one, where it succeeds, and
-- BUFSIZ, which bounds what `getcwd` returns with its NUL.
pub record System : Type 0 where
  pub home : Option Bytes
  pub chdir : Bytes → Bytes → Option Bytes
  pub bufsiz : ℕ

pub data LocalReport : Type 0 where
  quiet no_home_directory could_not_change could_not_read : LocalReport
  local_directory : Bytes → LocalReport

-- The local directory after `lcd`, and what is said.
abbrev pub changed : Bytes → Option Bytes → Bytes × LocalReport
changed cwd none = (cwd, could_not_change)
changed cwd (some dir) = (dir, quiet)

abbrev pub change_home : System → Bytes → Option Bytes → Bytes × LocalReport
change_home s cwd none = (cwd, no_home_directory)
change_home s cwd (some real_path) = changed cwd (s.chdir cwd real_path)

unfoldable pub execute_lcd : System → Bytes → Option Bytes → Bytes × LocalReport
execute_lcd s cwd (some p) = changed cwd (s.chdir cwd p)
execute_lcd s cwd none = change_home s cwd s.home

unfoldable pub execute_lpwd : System → Bytes → LocalReport
execute_lpwd s cwd = if ltb (length cwd) s.bufsiz then local_directory cwd else could_not_read

-- `lls` runs `ls` in a child, on the words of its line: the slot before the first argument holds the
-- command's name, which is the child's first word. The child exits where `ls` cannot be run.
pub data Fork : Type 0 where
  in_child in_parent fork_failed : Fork

pub data LlsStep : Type 0 where
  run_ls : List Bytes → LlsStep
  wait_child report_fork : LlsStep

unfoldable pub execute_lls : Fork → Bytes → List Bytes → LlsStep
execute_lls in_child word args = run_ls (word ∷ args)
execute_lls in_parent word args = wait_child
execute_lls fork_failed word args = report_fork

-- What comes back for a HEAD: the status code and the headers, where a response begins, and whether
-- its body could be discarded.
pub record HeadResponse : Type 0 where
  pub code : ℕ
  pub headers : List (Bytes × Bytes)
  pub discarded : Bool

pub data HeadLine : Type 0 where
  status_code : ℕ → HeadLine
  header : Bytes → Bytes → HeadLine

-- The lines that are shown, and whether the request is ended.
abbrev pub head_of : Option HeadResponse → List HeadLine × Bool
head_of none = ([], false)
head_of (some r) = (status_code r.code ∷ map (λ h. header h.0 h.1) r.headers, r.discarded)

-- `resolve` is `uri_resolve_native` and `request` the server.
unfoldable pub execute_head :
    (Bytes → Bytes) → (Bytes → Option HeadResponse) → Bytes → List HeadLine × Bool
execute_head resolve request native_path = head_of (request (resolve native_path))
