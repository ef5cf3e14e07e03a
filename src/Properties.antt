-- ===== src/Properties.antt =====
-- The property commands of src/commands.c: `propset`, `propdel`, `propget`, `propnames` and `chexec`.
pub mod Returned
mod Tests
use cadaver.Common.{
  ◌>>=◌, ℕ, Bool, true, false, not, List, [], ◌∷◌, ◌++◌, Option, none, some, if◌then◌else◌,
}
use cadaver.Common.Text.{Bytes, codes, streq}
use cadaver.Neon.{Neon}
use cadaver.Resolve.{Site, uri_resolve_native, utf8_from_native}

-- `ne_propname`, whose namespace may be NULL.
pub record PropName : Type 0 where
  pub nspace : Option Bytes
  pub name : Bytes

-- What the server says of one property: a value, a status with its reason, or nothing.
pub data Reported : Type 0 where
  value : Bytes → Reported
  refused : ℕ → Bytes → Reported
  absent : Reported

-- The requests of neon on a server in the state `S`; `none` is a request that fails. A proppatch with
-- no value removes the property, and `caps` tells whether the server has `isexecutable`.
pub record PropServer (S : Type 0) : Type 0 where
  pub proppatch : Bytes → PropName → Option Bytes → S → Bool × S
  pub propfind : Bytes → PropName → S → Option Reported
  pub propfind_all : Bytes → S → Option (List (PropName × Reported))
  pub propnames : Bytes → S → Option (List PropName)
  pub caps : Bytes → S → Option Bool

-- `run_iconv` from UTF-8, `ne_shave`, and the option `namespace`.
pub record Texts : Type 0 where
  pub run_iconv : Bytes → Bytes
  pub shave : Bytes → Bytes
  pub namespace : Option Bytes

abbrev pub native_from_utf8 : Site → Texts → Bytes → Bytes
native_from_utf8 site x utf8 = if not site.utf8 then x.run_iconv utf8 else utf8

pub data Line : Type 0 where
  value_of : Bytes → Bytes → Line
  could_not_fetch : ℕ → Bytes → Line
  no_result : Bytes → Line
  listed : Option Bytes → Bytes → Bytes → Line
  not_listed : Option Bytes → Bytes → Bytes → Line
  named : PropName → Line
  failed : Line
  succeeded : Line
  usage : Line
  no_executable : Line

abbrev native_name : Site → Texts → Option Bytes → Option Bytes
native_name site x none = none
native_name site x (some nspace) = some (native_from_utf8 site x nspace)

-- `all_iterator`.
abbrev pub all_iterator : Site → Texts → PropName × Reported → List Line
all_iterator site x (p, value v) =
    listed (native_name site x p.nspace) (native_from_utf8 site x p.name)
      (x.shave (native_from_utf8 site x v))
    ∷ []
all_iterator site x (p, refused code reason) =
    not_listed (native_name site x p.nspace) (native_from_utf8 site x p.name) reason ∷ []
all_iterator site x (p, absent) = []

abbrev pub iterate : Site → Texts → List (PropName × Reported) → List Line
iterate site x [] = []
iterate site x (p ∷ set) = all_iterator site x p ++ iterate site x set

-- `pget_results` for one property.
abbrev pub pget_results : Site → Texts → PropName → Reported → Line
pget_results site x p (value v) =
    value_of (native_from_utf8 site x p.name) (native_from_utf8 site x v)
pget_results site x p (refused code reason) = could_not_fetch code reason
pget_results site x p absent = no_result (native_from_utf8 site x p.name)

abbrev pub outcome : Bool → Line
outcome ok = if ok then succeeded else failed

abbrev pub names : List PropName → List Line
names [] = []
names (p ∷ props) = named p ∷ names props

module _ {S : Type 0} (r : PropServer S) (x : Texts) (n : Neon) (site : Site) where
  abbrev pub prop_name : Bytes → PropName
  prop_name name = record { nspace = x.namespace; name = utf8_from_native site name }

  abbrev utf8_value : Option Bytes → Option Bytes
  utf8_value none = none
  utf8_value (some v) = some (utf8_from_native site v)

  unfoldable pub propop : Bytes → Bytes → Option Bytes → S → Line × S
  propop path name v s =
      let (ok, t) =
        r.proppatch (uri_resolve_native n site path) (prop_name name) (utf8_value v) s in
      (outcome ok, t)

  unfoldable pub execute_propset : Bytes → Bytes → Bytes → S → Line × S
  unfolding propop
  execute_propset res name v s = propop res name (some v) s

  unfoldable pub execute_propdel : Bytes → Bytes → S → Line × S
  unfolding propop
  execute_propdel res name s = propop res name none s

  abbrev pub got : PropName → Option Reported → List Line
  got p none = failed ∷ []
  got p (some reported) = pget_results site x p reported ∷ []

  abbrev pub got_all : Option (List (PropName × Reported)) → List Line
  got_all none = failed ∷ []
  got_all (some set) = iterate site x set

  unfoldable pub execute_propget : Bytes → Option Bytes → S → List Line
  execute_propget res none s = got_all (r.propfind_all (uri_resolve_native n site res) s)
  execute_propget res (some name) s =
      got (prop_name name) (r.propfind (uri_resolve_native n site res) (prop_name name) s)

  abbrev got_names : Option (List PropName) → List Line
  got_names none = failed ∷ []
  got_names (some props) = names props

  unfoldable pub execute_propnames : Bytes → S → List Line
  execute_propnames path s = got_names (r.propnames (uri_resolve_native n site path) s)

  abbrev pub execprop : PropName
  execprop = record {
    nspace = some (codes "http://apache.org/dav/props/");
    name = codes "executable";
  }

  -- What `+` and `-` stand for.
  abbrev pub exec_value : Bytes → Option Bytes
  exec_value val =
      if streq val (codes "+")
      then some (codes "T")
      else if streq val (codes "-")
      then some (codes "F")
      else none

  abbrev pub set_executable : Bytes → Bytes → Option Bool → S → Line × S
  set_executable uri_path v none s = (failed, s)
  set_executable uri_path v (some false) s = (no_executable, s)
  set_executable uri_path v (some true) s =
      let (ok, t) = r.proppatch uri_path execprop (some v) s in (outcome ok, t)

  abbrev pub chosen_exec : Bytes → Option Bytes → S → Line × S
  chosen_exec uri_path none s = (usage, s)
  chosen_exec uri_path (some v) s = set_executable uri_path v (r.caps uri_path s) s

  unfoldable pub execute_chexec : Bytes → Bytes → S → Line × S
  execute_chexec val native_path s =
      chosen_exec (uri_resolve_native n site native_path) (exec_value val) s
