-- ===== src/Credentials.antt =====
-- The questions that src/cadaver.c asks while a connection is set up: `supply_creds` and its two
-- callers, which neon calls for the credentials of a server and of a proxy, and `cert_verify`.
pub mod Attempts
pub mod Samples
mod Tests
use cadaver.Common.{
  ◌>>=◌, ℕ, zero, suc, ◌+◌, ◌-◌, ◌≤◌, ◌<◌, ◌≡◌, Bool, true, false, not, ◌&&◌, List, [], ◌∷◌, ◌++◌,
  Option, none, some, ltb, ◌==◌, if◌then◌else◌, length,
}
use cadaver.Common.Text.{Bytes, codes}
use cadaver.Progress.{
  OutState, out_none, out_incommand, out_transfer_upload, out_transfer_download, out_transfer_plain,
  out_transfer_pretty, out_transfer_done,
}

-- The buffers of neon: each has `abufsiz` bytes, NE_ABUFSIZ of neon, and `strnzcpy` is
-- `ne_strnzcpy`, which cuts a string so that it fits with its NUL.
pub record Buffers : Type 0 where
  pub abufsiz : ℕ
  pub strnzcpy : Bytes → ℕ → Bytes
  pub strnzcpy_lem : (s : Bytes) (n : ℕ) → 0 < n → length (strnzcpy s n) < n

-- What the user types, with `none` where the input ends.
pub record Answer : Type 0 where
  pub username : Option Bytes
  pub password : Option Bytes

-- How a call ends: with the two buffers filled, with a failure, or with a write past the end of one.
pub data Supplied : Type 0 where
  supplied : Bytes → Bytes → Supplied
  aborted overrun : Supplied

-- `strcpy` into a buffer; `none` is a write past its end.
abbrev pub strcpy : ℕ → Bytes → Option Bytes
strcpy size s = if ltb (length s) size then some s else none

-- What ends the line of a display that is under way.
unfoldable pub lead_in : OutState → Bytes
lead_in out_transfer_pretty = 10 ∷ []
lead_in out_transfer_done = 10 ∷ []
lead_in out_none = []
lead_in out_incommand = codes " "
lead_in out_transfer_upload = codes " "
lead_in out_transfer_download = codes " "
lead_in out_transfer_plain = codes "] "

-- What takes it up again.
unfoldable pub lead_out : OutState → Bytes
lead_out out_transfer_download = codes "Retrying:"
lead_out out_transfer_upload = codes "Retrying:"
lead_out out_transfer_done = codes "Retrying:"
lead_out out_incommand = codes "Retrying:"
lead_out out_transfer_plain = codes "Retrying ["
lead_out _ = []

-- The second half, with the first buffer filled.
abbrev pub with_password : ℕ → Option Bytes → Option Bytes → Supplied
with_password abufsiz none password = overrun
with_password abufsiz (some username) none = aborted
with_password abufsiz (some username) (some tmp) =
    if not (ltb (length tmp) abufsiz)
    then aborted
    else elim (strcpy abufsiz tmp) [ none ↦ overrun | some password ↦ supplied username password ]

abbrev pub with_username : ℕ → Option Bytes → Option Bytes → Supplied
with_username abufsiz none password = aborted
with_username abufsiz (some tmp) password =
    if not (ltb (length tmp) abufsiz)
    then aborted
    else with_password abufsiz (strcpy abufsiz tmp) password

unfoldable pub supply_creds : Buffers → Answer → Supplied
supply_creds b a = with_username b.abufsiz a.username a.password

-- What is printed besides the questions.
abbrev pub retrying : OutState → Supplied → Bytes
unfolding lead_in lead_out
retrying s (supplied username password) = lead_in s ++ lead_out s
retrying s _ = lead_in s

-- A call of neon: whether the user was asked, and how it ended.
pub record Attempt : Type 0 where
  pub asked : Bool
  pub result : Supplied

unfoldable pub ask_user : Buffers → ℕ → Answer → Attempt
unfolding supply_creds
ask_user b attempt a =
    if ltb 1 attempt
    then record { asked = false; result = aborted }
    else record { asked = true; result = supply_creds b a }

-- The credentials of the netrc file, `found` for the host of a new connection: a login without a name
-- or a password is passed over, and what was set before stays.
unfoldable pub note_login :
    Option (Option Bytes × Option Bytes) → Option (Bytes × Bytes) → Option (Bytes × Bytes)
note_login (some (some account, some password)) login = some (account, password)
note_login _ login = login

-- `server_username` and `server_password` are set together, from the netrc file. The test counts
-- the attempt down only where they are set.
unfoldable pub supply_creds_server : Buffers → Option (Bytes × Bytes) → ℕ → Answer → Attempt
unfolding ask_user
supply_creds_server b none attempt a = ask_user b attempt a
supply_creds_server b (some (server_username, server_password)) zero a = record {
  asked = false;
  result = supplied (b.strnzcpy server_username b.abufsiz) (b.strnzcpy server_password b.abufsiz);
}
supply_creds_server b (some _) (suc attempt) a = ask_user b attempt a

unfoldable pub supply_creds_proxy : Buffers → ℕ → Answer → Attempt
unfolding ask_user
supply_creds_proxy b attempt a = ask_user b attempt a

-- What neon tells of the certificate of a server that it does not trust; `digest` is there from
-- version 0.31 of neon on.
pub record Presented : Type 0 where
  pub identity : Option Bytes
  pub digest : Option Bytes
  pub id_mismatch : Bool
  pub subject : Bytes
  pub issuer : Bytes
  pub valid_from : Bytes
  pub valid_to : Bytes

pub data CertLine : Type 0 where
  untrusted_for sha256_digest issued_to issued_by : Bytes → CertLine
  untrusted_server intercepted accept_question rejected : CertLine
  issued_for_rather_than valid_between : Bytes → Bytes → CertLine

abbrev pub introduced : Option Bytes → CertLine
introduced (some ident) = untrusted_for ident
introduced none = untrusted_server

abbrev pub digested : Option Bytes → List CertLine
digested (some digest) = sha256_digest digest ∷ []
digested none = []

-- A `none` is the `%s` of a NULL identity.
abbrev pub mismatched : Bool → Option Bytes → Bytes → Option (List CertLine)
mismatched false ident host = some []
mismatched true none host = none
mismatched true (some ident) host = some (issued_for_rather_than ident host ∷ intercepted ∷ [])

-- The lines that are shown, and whether the certificate is accepted; `agrees` is the answer of `yesno`.
unfoldable pub cert_verify : Presented → Bytes → Bool → Bool → Option (List CertLine × Bool)
cert_verify c host tty agrees = do
  mismatch ← mismatched c.id_mismatch c.identity host
  let lines =
      introduced c.identity ∷ digested c.digest
      ++ mismatch
      ++ issued_to c.subject
        ∷ issued_by c.issuer
        ∷ valid_between c.valid_from c.valid_to
        ∷ (if tty then accept_question else rejected)
        ∷ []
  some (lines, tty && agrees)
