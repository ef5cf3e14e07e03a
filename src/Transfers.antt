-- ===== src/Transfers.antt =====
-- The transfers of src/commands.c: `do_get` with `get`, `resumeget` and `mget`, `simple_put` with
-- `put` and `mput`, `mkcol`, `cat` and `less`, on the files of the local machine and a server.
pub mod Kept
pub mod Outcomes
pub mod Resumed
pub mod Returned
mod Tests
use cadaver.BaseName.{base_name}
use cadaver.Common.{
  ℕ, Bool, true, false, not, ◌&&◌, List, [], ◌∷◌, ◌++◌, Option, none, some, length, if◌then◌else◌,
}
use cadaver.Common.Text.{Bytes, codes, streq}
use cadaver.Neon.{Neon}
use cadaver.Resolve.{Site, uri_resolve_native, uri_resolve_native_coll}

-- What stands under a name of the local machine; a device takes what is written.
pub data Node : Type 0 where
  regular : Bytes → Node
  directory device : Node

abbrev pub Disk : Type 0
Disk = Bytes → Option Node

-- The flags that `do_get` opens a file with: O_CREAT|O_TRUNC, O_APPEND and O_CREAT|O_EXCL.
pub data Flags : Type 0 where
  truncate append exclusive : Flags

pub data Result : Type 0 where
  ok : Result
  failed : Bytes → Result

-- What a request writes to the file, and how it ends.
pub record Download : Type 0 where
  pub body : Bytes
  pub result : Result

-- The requests of neon on a server in the state `S`.
pub record Remote (S : Type 0) : Type 0 where
  pub ne_get : Bytes → S → Download × S
  pub ne_get_range : Bytes → ℕ → S → Download × S
  pub ne_put : Bytes → Bytes → S → Result × S
  pub ne_mkcol : Bytes → S → Result × S

-- The local machine: which names may be opened, where `close` fails, which pagers can be spawned and
-- which of them end abnormally, which programs exist, what is read of a node that is no regular
-- file, the option `pager` and the environment's PAGER.
pub record Machine : Type 0 where
  pub permitted : Bytes → Bool
  pub close_fails : Bytes → Bool
  pub spawns : Bytes → Bool
  pub exits_abnormally : Bytes → Bool
  pub exists : Bytes → Bool
  pub read_special : Bytes → Bytes
  pub pager : Option Bytes
  pub env_pager : Option Bytes

pub data Message : Type 0 where
  cancelled displaying abnormal_exit no_pager no_local : Message
  not_regular cannot_resume : Bytes → Message
  downloading uploading : Bytes → Bytes → Message
  starting : Bytes → Message
  open_failed : Message
  finished : Result → Message
  standard_output piped : Bytes → Message

-- The files, the answers that the user will type (none for the end of the input), the server, and
-- what was said so far.
pub record World (S : Type 0) : Type 0 where
  pub disk : Disk
  pub answers : List (Option Bytes)
  pub remote : S
  pub said : List Message

abbrev pub set_file : Bytes → Option Node → Disk → Disk
set_file f node disk g = if streq g f then node else disk g

-- `open` for writing.
abbrev pub open_node : Flags → Option Node → Option Node
open_node truncate none = some (regular [])
open_node truncate (some (regular old)) = some (regular [])
open_node truncate (some directory) = none
open_node truncate (some device) = some device
open_node append none = none
open_node append (some (regular old)) = some (regular old)
open_node append (some directory) = none
open_node append (some device) = some device
open_node exclusive none = some (regular [])
open_node exclusive (some node) = none

abbrev pub write_node : Bytes → Node → Node
write_node body (regular old) = regular (old ++ body)
write_node body directory = directory
write_node body device = device

-- The bytes of a regular file; what is read of another node is `special`.
abbrev pub content_of : Bytes → Node → Bytes
content_of special (regular content) = content
content_of special directory = special
content_of special device = special

abbrev pub say : {S : Type 0} → Message → World S → World S
say m w = record w { said = w.said ++ m ∷ [] }

-- `readline`, which gives NULL where the input is at its end.
abbrev pub next_answer : List (Option Bytes) → Option Bytes × List (Option Bytes)
next_answer [] = (none, [])
next_answer (a ∷ answers) = (a, answers)

-- What becomes of a download: a message, or a file that is opened, with where the range starts.
pub data Target : Type 0 where
  refused : Message → Target
  into : Bytes → Flags → ℕ → Target

-- The name that is typed.
abbrev pub typed : Option Bytes → Target
typed none = refused cancelled
typed (some []) = refused cancelled
typed (some (c ∷ filename)) = into (c ∷ filename) truncate 0

-- The part of `do_get` before the file is opened: `stat`, and the question for another name.
unfoldable pub choose_target :
    Bool → Bytes → Option Node → List (Option Bytes) → Target × List (Option Bytes)
choose_target false filename none answers = (into filename exclusive 0, answers)
choose_target false filename (some node) answers =
    let (answer, rest) = next_answer answers in (typed answer, rest)
choose_target true filename none answers = (refused (cannot_resume filename), answers)
choose_target true filename (some (regular old)) answers =
    (into filename append (length old), answers)
choose_target true filename (some directory) answers = (refused (not_regular filename), answers)
choose_target true filename (some device) answers = (refused (not_regular filename), answers)

-- The name that is opened and the node that is there then, before anything is written.
abbrev pub local_name : Bytes → Option Bytes → Bytes
local_name native_remote none = base_name native_remote
local_name native_remote (some native_local) = native_local

-- A `close` that fails after a transfer that did not.
abbrev pub closed : Bool → Result → Result
closed fails ok = if fails then failed (codes "Could not write to file") else ok
closed fails (failed m) = failed m

module _ {S : Type 0} (r : Remote S) (c : Machine) where
  abbrev pub request : Bool → Bytes → ℕ → S → Download × S
  request false uri_path start s = r.ne_get uri_path s
  request true uri_path start s = r.ne_get_range uri_path start s

  -- The transfer into a file that is open as `node`.
  abbrev pub transfer : Bytes → Node → Download × S → World S → World S
  transfer filename node (d, s) w =
      say (finished (closed (c.close_fails filename) d.result))
        (record w { disk = set_file filename (some (write_node d.body node)) w.disk; remote = s })

  abbrev pub opened : Bool → Bytes → Bytes → ℕ → Option Node → World S → World S
  opened resume uri_path filename start none w = say open_failed w
  opened resume uri_path filename start (some node) w =
      transfer filename node (request resume uri_path start w.remote) w

  abbrev pub download : Bool → Bytes → Bytes → Target → World S → World S
  download resume uri_path native_remote (refused m) w = say m w
  download resume uri_path native_remote (into filename flags start) w =
      let node = if c.permitted filename then open_node flags (w.disk filename) else none in
      opened resume uri_path filename start node (say (downloading native_remote filename) w)

  module _ (n : Neon) (site : Site) where
    unfoldable pub do_get : Bytes → Option Bytes → Bool → World S → World S
    unfolding choose_target
    do_get native_remote native_local resume w =
        let filename = local_name native_remote native_local in
        let (target, answers) = choose_target resume filename (w.disk filename) w.answers in
        download resume (uri_resolve_native n site native_remote) native_remote target
          (record w { answers = answers })

    unfoldable pub execute_get : Bytes → Option Bytes → World S → World S
    unfolding do_get
    execute_get remote local w = do_get remote local false w

    unfoldable pub execute_resumeget : Bytes → Option Bytes → World S → World S
    unfolding do_get
    execute_resumeget remote local w = do_get remote local true w

    unfoldable pub multi_mget : List Bytes → World S → World S
    unfolding execute_get
    multi_mget [] w = w
    multi_mget (remote ∷ argv) w = multi_mget argv (execute_get remote none w)

    -- What the request reads of a file that is opened for reading.
    abbrev pub readable : Bytes → Option Node → Option Bytes
    readable filename none = none
    readable filename (some node) =
        if c.permitted filename then some (content_of (c.read_special filename) node) else none

    abbrev pub uploaded : Bytes → Option Bytes → World S → World S
    uploaded uri_path none w = say no_local w
    uploaded uri_path (some content) w =
        let (result, s) = r.ne_put uri_path content w.remote in
        say (finished result) (record w { remote = s })

    abbrev pub simple_put : Bytes → Bytes → World S → World S
    simple_put local uri_path w =
        uploaded uri_path (readable local (w.disk local)) (say (uploading local uri_path) w)

    abbrev pub remote_name : Bytes → Option Bytes → Bytes
    remote_name local none = base_name local
    remote_name local (some remote) = remote

    unfoldable pub execute_put : Bytes → Option Bytes → World S → World S
    execute_put local remote w =
        simple_put local (uri_resolve_native n site (remote_name local remote)) w

    unfoldable pub multi_mput : List Bytes → World S → World S
    multi_mput [] w = w
    multi_mput (local ∷ argv) w =
        multi_mput argv (simple_put local (uri_resolve_native n site local) w)

    unfoldable pub execute_mkcol : Bytes → World S → World S
    execute_mkcol path w =
        let (result, s) = r.ne_mkcol (uri_resolve_native_coll n site path) w.remote in
        say (finished result) (record (say (starting path) w) { remote = s })

    -- `map_multi`, the loop of the commands that take any number of words.
    unfoldable pub map_multi : (Bytes → World S → World S) → List Bytes → World S → World S
    map_multi func [] w = w
    map_multi func (a ∷ argv) w = map_multi func argv (func a w)

    unfoldable pub multi_mkcol : List Bytes → World S → World S
    unfolding map_multi execute_mkcol
    multi_mkcol argv w = map_multi execute_mkcol argv w

    abbrev pub fetched : Bytes → Download × S → World S → World S
    fetched native_path (d, s) w = elim d.result [
      | ok ↦ say (standard_output d.body) (record w { remote = s })
      | failed m ↦
          say (finished (failed m))
            (say (starting native_path) (say (standard_output d.body) (record w { remote = s })))
    ]

    unfoldable pub execute_cat : Bytes → World S → World S
    execute_cat native_path w =
        fetched native_path (r.ne_get (uri_resolve_native n site native_path) w.remote) w

    unfoldable pub multi_cat : List Bytes → World S → World S
    unfolding map_multi execute_cat
    multi_cat argv w = map_multi execute_cat argv w

    unfoldable pub choose_pager : Bytes
    choose_pager = elim c.pager [
      | some pager ↦ pager
      | none ↦ elim c.env_pager [
        | some pager ↦ pager
        | none ↦
            if c.exists (codes "/usr/bin/less")
            then codes "/usr/bin/less"
            else if c.exists (codes "/bin/less")
            then codes "/bin/less"
            else codes "/bin/more"
      ]
    ]

    abbrev pub paged : Bytes → Download × S → World S → World S
    paged pager (d, s) w = elim d.result [
      | ok ↦
          let shown = say (piped d.body) (record w { remote = s }) in
          if c.exits_abnormally pager then say abnormal_exit shown else shown
      | failed m ↦ say (finished (failed m)) (say (piped d.body) (record w { remote = s }))
    ]

    unfoldable pub execute_less : Bytes → World S → World S
    unfolding choose_pager
    execute_less native w =
        if c.spawns choose_pager
        then paged choose_pager (r.ne_get (uri_resolve_native n site native) w.remote)
            (say displaying w)
        else say no_pager (say displaying w)

    unfoldable pub multi_less : List Bytes → World S → World S
    unfolding map_multi execute_less
    multi_less argv w = map_multi execute_less argv w
