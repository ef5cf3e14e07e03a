-- ===== src/Progress/Tests.antt =====
-- Runs of the notifier, and instances of its theorems.
use cadaver.Common.{
  ℕ, ◌*◌, ◌/◌, ◌≡◌, refl, Bool, true, false, List, [], ◌∷◌, Option, none, some, arith, map,
}
use cadaver.Common.Text.{Bytes}
use cadaver.Progress.Bar.{Timeval, Update, pretty_progress_bar}
use cadaver.Progress.Paced.{draws, Fair, draws-Fair}
use cadaver.Progress.{OutState, Status, Settings, notifier, notifications}
use cadaver.Progress.Transfers.{notifications-complete, is_done}
use OutState.{out_transfer_download, out_transfer_done}
use Status.{connecting, connected, recving, sending}

abbrev terminal : Settings
terminal = record { quiet = false; in_completion = false; tty = true }

-- The second half of the transfer follows a reconnection.
download :
    notifications terminal out_transfer_download
      (recving 5 10 ∷ connecting ∷ connected ∷ recving 10 10 ∷ [])
    ≡ out_transfer_done
unfolding notifier
download = refl

-- The request of a download is sent before anything is received.
request_body :
    notifications terminal out_transfer_download (sending 3 3 ∷ []) ≡ out_transfer_download
unfolding notifier
request_body = refl

notifications-complete_example :
    is_done (notifications terminal out_transfer_download (recving 5 10 ∷ recving 8 10 ∷ []))
    ≡ false
notifications-complete_example =
    notifications-complete terminal out_transfer_download (recving 5 10 ∷ recving 8 10 ∷ []) refl
      (refl, (refl, tt))

abbrev scale : ℕ → ℕ → ℕ
scale progress total = progress * 30 / total

abbrev at_time : ℕ → ℕ → ℕ → Update
at_time progress tv_sec tv_usec = record {
  progress = progress;
  total = some 30;
  this_call = some (record { tv_sec = tv_sec; tv_usec = tv_usec });
}

abbrev is_drawn : Option Bytes → Bool
is_drawn none = false
is_drawn (some bar) = true

abbrev start : Timeval
start = record { tv_sec = 0; tv_usec = 0 }

-- The second update comes 50 ms after the first one; the last one completes the transfer.
abbrev updates : List Update
updates = at_time 3 7 980_000 ∷ at_time 4 8 30_000 ∷ at_time 30 8 40_000 ∷ []

three_updates : map (λ d. is_drawn d.1) (draws scale start updates) ≡ true ∷ false ∷ true ∷ []
unfolding pretty_progress_bar
three_updates = refl

draws-Fair_example : Fair 0 (draws scale start updates)
draws-Fair_example = draws-Fair scale updates start 0 (omega arith) (omega arith) (omega arith)
