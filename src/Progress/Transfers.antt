-- ===== src/Progress/Transfers.antt =====
-- The states that a transfer goes through.
use cadaver.Common.{
  ℕ, ◌≡◌, inl, inr, refl, Bool, true, false, ◌&&◌, List, [], ◌∷◌, arith, ltb, All, subst, sym, ap,
  ◌∙◌, ◌==◌, if_cases, Bool-cases,
}
use cadaver.Progress.{
  OutState, Status, Settings, notifier, notified, notifications, begin, advance, idle, pending,
  starts,
}
use OutState.{
  out_none, out_incommand, out_transfer_upload, out_transfer_download, out_transfer_plain,
  out_transfer_pretty, out_transfer_done,
}
use Status.{lookup, connecting, connected, handshake, disconnected, sending, recving}

-- The changes of state that a notification can make.
pub data Moves (e : Settings) : OutState → OutState → Type 0 where
  stay : (s : OutState) → Moves e s s
  plain_upload : Moves e out_transfer_upload out_transfer_plain
  plain_download : Moves e out_transfer_download out_transfer_plain
  pretty_upload : e.tty ≡ true → Moves e out_transfer_upload out_transfer_pretty
  pretty_download : e.tty ≡ true → Moves e out_transfer_download out_transfer_pretty
  plain_done : Moves e out_transfer_plain out_transfer_done
  pretty_done : Moves e out_transfer_pretty out_transfer_done

begin_lem :
    (e : Settings) (s : OutState) (p t : ℕ)
    → Moves e s out_transfer_plain
    → (e.tty ≡ true → Moves e s out_transfer_pretty)
    → Moves e s (begin e p t).0
begin_lem e s p t plain pretty = elim (Bool-cases (e.tty && ltb 0 t)) [
  | inl b ↦ rw b (pretty (ground arith))
  | inr b ↦ rw b plain
]

advance_lem :
    (e : Settings) (s : OutState) (p t : ℕ)
    → Moves e s out_transfer_done
    → Moves e s (advance s p t)
advance_lem e s p t d = if_cases (Moves e s) (p == t) (λ h. d) (λ h. stay s)

pending_lem :
    (e : Settings) (s : OutState) (st : Status) → starts s st ≡ false → (pending e s st).0 ≡ s
pending_lem e s (sending p t) h = rw h refl
pending_lem e s (recving p t) h = rw h refl
pending_lem e s _ h = refl

idle_lem : (e : Settings) (st : Status) → (idle e st).0 ≡ out_none
idle_lem e lookup = refl
idle_lem e connecting = refl
idle_lem e connected = refl
idle_lem e handshake = refl
idle_lem e disconnected = refl
idle_lem e (sending p t) = refl
idle_lem e (recving p t) = refl

notified-Moves : (e : Settings) (s : OutState) (st : Status) → Moves e s (notified e s st).0
notified-Moves e out_transfer_upload (sending p t) =
    begin_lem e out_transfer_upload p t plain_upload pretty_upload
notified-Moves e out_transfer_download (recving p t) =
    begin_lem e out_transfer_download p t plain_download pretty_download
notified-Moves e out_transfer_plain (sending p t) = advance_lem e out_transfer_plain p t plain_done
notified-Moves e out_transfer_plain (recving p t) = advance_lem e out_transfer_plain p t plain_done
notified-Moves e out_transfer_pretty (sending p t) =
    advance_lem e out_transfer_pretty p t pretty_done
notified-Moves e out_transfer_pretty (recving p t) =
    advance_lem e out_transfer_pretty p t pretty_done
notified-Moves e out_none st = subst (Moves e out_none) (sym (idle_lem e st)) (stay out_none)
notified-Moves e out_incommand st =
    subst (Moves e out_incommand) (sym (pending_lem e out_incommand st refl)) (stay out_incommand)
notified-Moves e out_transfer_done st =
    subst (Moves e out_transfer_done) (sym (pending_lem e out_transfer_done st refl))
      (stay out_transfer_done)
notified-Moves e s st = stay s

-- Each notification leaves the state or makes one of the moves; a bar is drawn on a terminal only.
pub notifier-Moves : (e : Settings) (s : OutState) (st : Status) → Moves e s (notifier e s st).0
unfolding notifier
notifier-Moves e s st =
    if_cases (λ r. Moves e s r.0) e.in_completion {x = (s, [])} {y = notified e s st} (λ h. stay s)
      (λ h. notified-Moves e s st)

-- The states in which nothing is transferred.
abbrev pub rests : OutState → Bool
rests out_none = true
rests out_incommand = true
rests out_transfer_done = true
rests _ = false

rest_lem : (e : Settings) (s s' : OutState) → Moves e s s' → rests s ≡ true → s' ≡ s
rest_lem e _ _ (stay s) h = refl
rest_lem e _ _ plain_upload h = absurd (ground arith)
rest_lem e _ _ plain_download h = absurd (ground arith)
rest_lem e _ _ (pretty_upload t) h = absurd (ground arith)
rest_lem e _ _ (pretty_download t) h = absurd (ground arith)
rest_lem e _ _ plain_done h = absurd (ground arith)
rest_lem e _ _ pretty_done h = absurd (ground arith)

-- Where nothing is transferred, no sequence of notifications changes the state.
pub notifications-rests :
    (e : Settings) (s : OutState) (sts : List Status) → rests s ≡ true → notifications e s sts ≡ s
notifications-rests e s [] h = refl
notifications-rests e s (st ∷ sts) h =
    ap (λ t. notifications e t sts) (rest_lem e s (notifier e s st).0 (notifier-Moves e s st) h)
    ∙ notifications-rests e s sts h

abbrev pub complete : Status → Bool
complete (sending p t) = p == t
complete (recving p t) = p == t
complete _ = false

abbrev pub is_done : OutState → Bool
is_done out_transfer_done = true
is_done _ = false

begin_done : (e : Settings) (p t : ℕ) → is_done (begin e p t).0 ≡ false
begin_done e p t = ground arith

notified_lem :
    (e : Settings) (s : OutState) (st : Status)
    → complete st ≡ false
    → is_done s ≡ false
    → is_done (notified e s st).0 ≡ false
notified_lem e out_none st c d = ap is_done (idle_lem e st)
notified_lem e out_incommand st c d = ap is_done (pending_lem e out_incommand st refl)
notified_lem e out_transfer_done st c d = absurd (ground arith)
notified_lem e out_transfer_upload (sending p t) c d = begin_done e p t
notified_lem e out_transfer_download (recving p t) c d = begin_done e p t
notified_lem e out_transfer_plain (sending p t) c d = rw c refl
notified_lem e out_transfer_plain (recving p t) c d = rw c refl
notified_lem e out_transfer_pretty (sending p t) c d = rw c refl
notified_lem e out_transfer_pretty (recving p t) c d = rw c refl
notified_lem e s st c d = refl

not_done :
    (e : Settings) (s : OutState) (st : Status)
    → complete st ≡ false
    → is_done s ≡ false
    → is_done (notifier e s st).0 ≡ false
unfolding notifier
not_done e s st c d =
    if_cases (λ r. is_done r.0 ≡ false) e.in_completion {x = (s, [])} {y = notified e s st} (λ h. d)
      (λ h. notified_lem e s st c d)

-- A transfer that is not done is shown as done only after a notification whose progress is the total.
pub notifications-complete :
    (e : Settings) (s : OutState) (sts : List Status)
    → is_done s ≡ false
    → All (λ st. complete st ≡ false) sts
    → is_done (notifications e s sts) ≡ false
notifications-complete e s [] d h = d
notifications-complete e s (st ∷ sts) d h =
    notifications-complete e (notifier e s st).0 sts (not_done e s st h.0 d) h.1
