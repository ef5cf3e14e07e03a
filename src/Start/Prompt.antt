-- ===== src/Start/Prompt.antt =====
-- The prompt of `read_command` and the signals, src/cadaver.c.
use cadaver.Common.{◌>>=◌, ℕ, ◌++◌, Bool, true, false, Option, none, some, if◌then◌else◌}
use cadaver.Common.Text.{Bytes, codes}
use cadaver.Credentials.{Buffers}
use cadaver.Start.{Program}

-- The path as `native_path_from_uri` gives it, where it is not NULL. `ne_snprintf` cuts the text as
-- `ne_strnzcpy` does.
unfoldable pub prompt : Buffers → (Bytes → Option Bytes) → ℕ → Option Bytes → Bool → Option Bytes
prompt b native_path_from_uri bufsiz none isdav = some (b.strnzcpy (codes "dav:!> ") bufsiz)
prompt b native_path_from_uri bufsiz (some path) isdav = do
  p ← native_path_from_uri path
  let mark = if isdav then codes "> " else codes "? "
  some (b.strnzcpy (codes "dav:" ++ p ++ mark) bufsiz)

-- After a signal: the program goes on where a child runs, which has the signal too, and exits
-- otherwise. The first component tells whether it goes on.
unfoldable pub quit_handler : {W : Type 0} → Program W → Bool → W → Option (Bool × W)
quit_handler p child_running w =
    if child_running
    then some (true, w)
    else ((if p.connected w then p.close_connection w else some w) >>= λ w. some (false, w))
