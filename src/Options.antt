-- ===== src/Options.antt =====
-- The option table of src/options.c, the commands `set` and `unset` on it, the accessors by
-- identifier, and `init_options` of src/cadaver.c. A result `none` is a read, a write or a free
-- through a pointer that does not allow it.
pub mod Operations
pub mod Values
pub mod Table
pub mod Kept
pub mod Display
pub mod Shown
pub mod Running
mod Tests
use cadaver.Common.{
  ℕ, Bool, true, false, not, ◌&&◌, ◌||◌, List, [], ◌∷◌, ◌++◌, Option, none, some, ◌==◌,
  if◌then◌else◌,
}
use cadaver.Common.Text.{Bytes, codes, streq, strcaseeq}

pub data OptionId : Type 0 where
  opt_tolerant opt_keepalive opt_expect100 opt_editor opt_clicert opt_clicert_uri opt_namespace :
      OptionId
  opt_quiet opt_proxy opt_proxy_port opt_systemproxy opt_debug opt_utf8 opt_overwrite : OptionId
  opt_lockowner opt_lockstore opt_lockdepth opt_lockscope opt_pager opt_searchdepth : OptionId
  opt_searchorder opt_searchdorder opt_searchall : OptionId

abbrev pub ordinal : OptionId → ℕ
ordinal opt_tolerant = 0
ordinal opt_keepalive = 1
ordinal opt_expect100 = 2
ordinal opt_editor = 3
ordinal opt_clicert = 4
ordinal opt_clicert_uri = 5
ordinal opt_namespace = 6
ordinal opt_quiet = 7
ordinal opt_proxy = 8
ordinal opt_proxy_port = 9
ordinal opt_systemproxy = 10
ordinal opt_debug = 11
ordinal opt_utf8 = 12
ordinal opt_overwrite = 13
ordinal opt_lockowner = 14
ordinal opt_lockstore = 15
ordinal opt_lockdepth = 16
ordinal opt_lockscope = 17
ordinal opt_pager = 18
ordinal opt_searchdepth = 19
ordinal opt_searchorder = 20
ordinal opt_searchdorder = 21
ordinal opt_searchall = 22

abbrev pub same_id : OptionId → OptionId → Bool
same_id a b = ordinal a == ordinal b

-- What the pointer `holder` is: NULL, the address of a static variable with its value, a string of
-- its own, or the address of a local variable of a function that has returned.
pub data Holder : Type 0 where
  null : Holder
  variable : ℕ → Holder
  text : Bytes → Holder
  dangling : Holder

-- The handled options stand for their three functions.
pub data Handled : Type 0 where
  debug lockscope lockdepth searchdepth : Handled

pub data OptionType : Type 0 where
  opt_bool opt_string : OptionType
  opt_handled : Handled → OptionType

-- `struct option`, without the texts of `describe`.
pub record Entry : Type 0 where
  pub name : Bytes
  pub id : OptionId
  pub holder : Holder
  pub type : OptionType

pub data LockScope : Type 0 where
  exclusive shared : LockScope

pub data Depth : Type 0 where
  depth_zero depth_one depth_infinite : Depth

pub data DebugKey : Type 0 where
  dbg_xml dbg_xmlparse dbg_http dbg_socket dbg_ssl dbg_httpauth dbg_httpbody dbg_httpplain :
      DebugKey
  debug_files dbg_locks : DebugKey

-- A mask by its bits.
abbrev pub Mask : Type 0
Mask = ℕ → Bool

-- Of neon: `ne_token` for commas, until the end of the string, and the constants of the debug map.
pub record Debugging : Type 0 where
  pub tokens : Bytes → List Bytes
  pub val : DebugKey → Mask

pub record Globals : Type 0 where
  pub debug_mask : Mask
  pub lockscope : LockScope
  pub lockdepth : Depth
  pub searchdepth : Depth

pub record Options : Type 0 where
  pub entries : List Entry
  pub globals : Globals

abbrev boolean : Bytes → OptionId → ℕ → Entry
boolean name id value = record {
  name = name;
  id = id;
  holder = variable value;
  type = OptionType.opt_bool;
}

abbrev string : Bytes → OptionId → Entry
string name id = record { name = name; id = id; holder = null; type = OptionType.opt_string }

abbrev handled : Bytes → OptionId → Handled → Entry
handled name id h = record { name = name; id = id; holder = null; type = OptionType.opt_handled h }

-- The table at the start of the program.
unfoldable pub options : List Entry
options =
    boolean (codes "tolerant") opt_tolerant 0
    ∷ boolean (codes "overwrite") opt_overwrite 0
    ∷ boolean (codes "expect100") opt_expect100 0
    ∷ boolean (codes "utf8") opt_utf8 0
    ∷ boolean (codes "quiet") opt_quiet 0
    ∷ boolean (codes "searchall") opt_searchall 0
    ∷ boolean (codes "keepalive") opt_keepalive 1
    ∷ string (codes "lockowner") opt_lockowner
    ∷ string (codes "lockstore") opt_lockstore
    ∷ string (codes "editor") opt_editor
    ∷ string (codes "client-cert") opt_clicert
    ∷ string (codes "client-cert-uri") opt_clicert_uri
    ∷ string (codes "namespace") opt_namespace
    ∷ string (codes "pager") opt_pager
    ∷ string (codes "proxy") opt_proxy
    ∷ string (codes "proxy-port") opt_proxy_port
    ∷ boolean (codes "systemproxy") opt_systemproxy 0
    ∷ string (codes "searchorder") opt_searchorder
    ∷ string (codes "searchdorder") opt_searchdorder
    ∷ handled (codes "debug") opt_debug Handled.debug
    ∷ handled (codes "lockscope") opt_lockscope Handled.lockscope
    ∷ handled (codes "lockdepth") opt_lockdepth Handled.lockdepth
    ∷ handled (codes "searchdepth") opt_searchdepth Handled.searchdepth
    ∷ []

abbrev pub debug_map : List (Bytes × DebugKey)
debug_map =
    (codes "xml", dbg_xml)
    ∷ (codes "xmlparse", dbg_xmlparse)
    ∷ (codes "http", dbg_http)
    ∷ (codes "socket", dbg_socket)
    ∷ (codes "ssl", dbg_ssl)
    ∷ (codes "httpauth", dbg_httpauth)
    ∷ (codes "httpbody", dbg_httpbody)
    ∷ (codes "cleartext", dbg_httpplain)
    ∷ (codes "files", debug_files)
    ∷ (codes "locks", dbg_locks)
    ∷ []

abbrev pub set_bits : Mask → Mask → Mask
set_bits m v i = m i || v i

abbrev pub clear_bits : Mask → Mask → Mask
clear_bits m v i = m i && not (v i)

module _ (n : Debugging) where
  -- One token against the whole map.
  abbrev pub debug_token : Bool → Bytes → List (Bytes × DebugKey) → Mask → Mask
  debug_token setit opt [] m = m
  debug_token setit opt ((name, key) ∷ map) m = debug_token setit opt map (
      if strcaseeq opt name
      then (if setit then set_bits m (n.val key) else clear_bits m (n.val key))
      else m)

  abbrev pub debug_tokens : Bool → List Bytes → Mask → Mask
  debug_tokens setit [] m = m
  debug_tokens setit (opt ∷ opts) m = debug_tokens setit opts (debug_token setit opt debug_map m)

  -- `unset debug` without a value clears the mask; `set` always has a value.
  abbrev pub set_debug : Bytes → Mask → Mask
  set_debug set m = debug_tokens true (n.tokens set) m

  abbrev pub unset_debug : Option Bytes → Mask → Mask
  unset_debug none m = λ i. false
  unset_debug (some s) m = debug_tokens false (n.tokens s) m

-- An invalid value leaves the option as it was.
unfoldable pub set_lockscope : Bytes → LockScope → LockScope
unfolding strcaseeq
set_lockscope set old =
    if strcaseeq set (codes "exclusive")
    then LockScope.exclusive
    else if strcaseeq set (codes "shared")
    then LockScope.shared
    else old

abbrev pub disp_lockscope : LockScope → Bytes
disp_lockscope LockScope.exclusive = codes "exclusive"
disp_lockscope LockScope.shared = codes "shared"

unfoldable pub set_lockdepth : Bytes → Depth → Depth
unfolding streq strcaseeq
set_lockdepth set old =
    if streq set (codes "0") || strcaseeq set (codes "zero")
    then depth_zero
    else if strcaseeq set (codes "infinite") || strcaseeq set (codes "infinity")
    then depth_infinite
    else old

abbrev pub disp_lockdepth : Depth → Bytes
disp_lockdepth depth_zero = codes "zero"
disp_lockdepth depth_infinite = codes "infinite"
disp_lockdepth depth_one = codes "illegal value"

unfoldable pub set_searchdepth : Bytes → Depth
unfolding streq strcaseeq
set_searchdepth set =
    if streq set (codes "0") || strcaseeq set (codes "zero")
    then depth_zero
    else if streq set (codes "1") || strcaseeq set (codes "one")
    then depth_one
    else depth_infinite

abbrev pub disp_searchdepth : Depth → Bytes
disp_searchdepth depth_zero = codes "0"
disp_searchdepth depth_one = codes "1"
disp_searchdepth depth_infinite = codes "infinity"
