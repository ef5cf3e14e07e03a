-- ===== src/Progress.antt =====
-- What is shown of the requests while they run: `output` and `notifier` of src/cadaver.c, with the
-- state `out_state` between them.
pub mod Transfers
pub mod Bar
pub mod Paced
mod Tests
use cadaver.Common.{ℕ, Bool, true, false, not, ◌&&◌, ◌||◌, List, [], ◌∷◌, ltb, ◌==◌, if◌then◌else◌}

pub data OutState : Type 0 where
  out_none out_incommand out_transfer_upload out_transfer_download out_transfer_plain : OutState
  out_transfer_pretty out_transfer_done : OutState

pub data OutputType : Type 0 where
  o_start o_upload o_download o_finish : OutputType

-- `ne_session_status` with what the code reads of the information: the progress and the total.
pub data Status : Type 0 where
  lookup connecting connected handshake disconnected : Status
  sending recving : ℕ → ℕ → Status

-- The terminal and the options, which do not change while one request runs.
pub record Settings : Type 0 where
  pub quiet : Bool
  pub in_completion : Bool
  pub tty : Bool

-- What is printed, by its place in the code.
pub data Shown : Type 0 where
  looking_up connecting_to connected_now handshake_done reconnecting done_bracket : Shown
  first_dot dot plain_reconnecting plain_okay timed_out okay : Shown
  bar : ℕ → ℕ → Shown

-- The state after `output`.
unfoldable pub output : OutputType → OutState → OutState
output o_start s = out_incommand
output o_upload s = out_transfer_upload
output o_download s = out_transfer_download
output o_finish s = out_none

-- Whether `output` first closes the bracket of a plain transfer.
unfoldable pub closes_bracket : OutputType → OutState → Bool
closes_bracket o_finish out_transfer_plain = true
closes_bracket _ _ = false

abbrev pub unless_quiet : Settings → Shown → List Shown
unless_quiet e t = if e.quiet then [] else t ∷ []

-- `out_none`.
abbrev pub idle : Settings → Status → OutState × List Shown
idle e lookup = (out_none, unless_quiet e looking_up)
idle e connecting = (out_none, unless_quiet e connecting_to)
idle e connected = (out_none, unless_quiet e connected_now)
idle e handshake = (out_none, unless_quiet e handshake_done)
idle e disconnected = (out_none, [])
idle e (sending p t) = (out_none, [])
idle e (recving p t) = (out_none, [])

-- The start of a transfer, where a download receives or an upload sends.
abbrev pub begin : Settings → ℕ → ℕ → OutState × List Shown
begin e progress total =
    if e.tty && ltb 0 total
    then (out_transfer_pretty, bar progress total ∷ [])
    else (out_transfer_plain, first_dot ∷ [])

abbrev pub starts : OutState → Status → Bool
starts out_transfer_download (recving p t) = true
starts out_transfer_upload (sending p t) = true
starts _ _ = false

-- `out_incommand`, the transfers that have not started and the one that is done.
abbrev pub pending : Settings → OutState → Status → OutState × List Shown
pending e s connecting = (s, unless_quiet e reconnecting)
pending e s connected = (s, unless_quiet e done_bracket)
pending e s (sending p t) = if starts s (sending p t) then begin e p t else (s, [])
pending e s (recving p t) = if starts s (recving p t) then begin e p t else (s, [])
pending e s lookup = (s, [])
pending e s handshake = (s, [])
pending e s disconnected = (s, [])

abbrev pub advance : OutState → ℕ → ℕ → OutState
advance s progress total = if progress == total then out_transfer_done else s

abbrev pub plain : Status → OutState × List Shown
plain connecting = (out_transfer_plain, plain_reconnecting ∷ [])
plain connected = (out_transfer_plain, plain_okay ∷ [])
plain (sending p t) = (advance out_transfer_plain p t, dot ∷ [])
plain (recving p t) = (advance out_transfer_plain p t, dot ∷ [])
plain _ = (out_transfer_plain, [])

abbrev pub pretty : Settings → Status → OutState × List Shown
pretty e connecting = (out_transfer_pretty, unless_quiet e timed_out)
pretty e connected = (out_transfer_pretty, unless_quiet e okay)
pretty e (sending p t) = (advance out_transfer_pretty p t, bar p t ∷ [])
pretty e (recving p t) = (advance out_transfer_pretty p t, bar p t ∷ [])
pretty e _ = (out_transfer_pretty, [])

abbrev pub notified : Settings → OutState → Status → OutState × List Shown
notified e out_none st = idle e st
notified e out_transfer_plain st = plain st
notified e out_transfer_pretty st = pretty e st
notified e s st = pending e s st

unfoldable pub notifier : Settings → OutState → Status → OutState × List Shown
notifier e s st = if e.in_completion then (s, []) else notified e s st

-- The state after a sequence of notifications.
abbrev pub notifications : Settings → OutState → List Status → OutState
notifications e s [] = s
notifications e s (st ∷ sts) = notifications e (notifier e s st).0 sts
