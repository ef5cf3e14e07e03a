-- ===== src/Credentials/Attempts.antt =====
-- The calls that neon makes for the credentials of one request: attempt after attempt, until a call
-- fails or the server takes what it is sent.
use cadaver.Common.{
  ℕ, zero, suc, ◌+◌, ◌≤◌, ◌<◌, ◌≡◌, refl, ap, Bool, true, false, List, [], ◌∷◌, Option, none, some,
  arith, if◌then◌else◌, if_cases, length, All,
}
use cadaver.Common.Text.{Bytes}
use cadaver.Credentials.{
  note_login, Buffers, Answer, Supplied, Attempt, ask_user, with_username, supply_creds,
  supply_creds_server, supply_creds_proxy,
}

-- A request as the user sees it: the questions, what was sent in order, and whether it was taken.
pub record Login : Type 0 where
  pub asked : ℕ
  pub sent : List (Bytes × Bytes)
  pub granted : Bool

abbrev pub count : Bool → ℕ
count true = 1
count false = 0

abbrev pub again : Bool → Bytes × Bytes → Option Login → Option Login
again asked c none = none
again asked c (some l) = some (record l { asked = count asked + l.asked; sent = c ∷ l.sent })

-- `accepts` is the server. There is no result where the fuel runs out or a buffer is overrun.
module _ (call : ℕ → Attempt) (accepts : Bytes → Bytes → Bool) where
  abbrev pub settled : (ℕ → Option Login) → ℕ → Bool → Supplied → Option Login
  settled next attempt asked Supplied.overrun = none
  settled next attempt asked Supplied.aborted =
      some (record { asked = count asked; sent = []; granted = false })
  settled next attempt asked (Supplied.supplied u p) =
      if accepts u p
      then some (record { asked = count asked; sent = (u, p) ∷ []; granted = true })
      else again asked (u, p) (next (suc attempt))

  unfoldable pub authenticate : ℕ → ℕ → Option Login
  authenticate zero attempt = none
  authenticate (suc fuel) attempt =
      settled (authenticate fuel) attempt (call attempt).asked (call attempt).result

-- Credentials that neon's buffers hold.
abbrev pub Fits : ℕ → Bytes × Bytes → Type 0
Fits abufsiz c = (length c.0 < abufsiz) × (length c.1 < abufsiz)

-- A request that ends within the bounds on the questions and on what is sent.
abbrev pub Ends : ℕ → ℕ → ℕ → Option Login → Type 0
Ends abufsiz questions sendings none = ⊥
Ends abufsiz questions sendings (some l) =
    (l.asked ≤ questions) × (length l.sent ≤ sendings) × All (Fits abufsiz) l.sent

abbrev Holds : ℕ → Supplied → Type 0
Holds abufsiz (Supplied.supplied u p) = Fits abufsiz (u, p)
Holds abufsiz Supplied.aborted = Unit
Holds abufsiz Supplied.overrun = ⊥

supply_creds-Holds : (b : Buffers) (a : Answer) → Holds b.abufsiz (supply_creds b a)
unfolding supply_creds
supply_creds-Holds b a = go a.username a.password
  where
    go : (u p : Option Bytes) → Holds b.abufsiz (with_username b.abufsiz u p)
    go none p = tt
    go (some u) none = ground arith
    go (some u) (some p) = ground arith

-- One call more, before a request that ends.
settled-Ends :
    (call : ℕ → Attempt) (accepts : Bytes → Bytes → Bool) (abufsiz q s attempt : ℕ)
    (next : ℕ → Option Login) (asked : Bool) (r : Supplied)
    → Holds abufsiz r
    → Ends abufsiz q s (next (suc attempt))
    → Ends abufsiz (count asked + q) (suc s) (settled call accepts next attempt asked r)
settled-Ends call accepts abufsiz q s attempt next asked Supplied.aborted h e = ground arith
settled-Ends call accepts abufsiz q s attempt next asked Supplied.overrun h e = elim h [ ]
settled-Ends call accepts abufsiz q s attempt next asked (Supplied.supplied u p) h e =
    if_cases (Ends abufsiz (count asked + q) (suc s)) (accepts u p) (λ _. ground arith)
      λ _. repeated (next (suc attempt)) e
  where
    repeated :
        (o : Option Login)
        → Ends abufsiz q s o
        → Ends abufsiz (count asked + q) (suc s) (again asked (u, p) o)
    repeated none e = elim e [ ]
    repeated (some l) e = (omega (arith, e.0), omega (arith, e.1), (h, e.2))

module _ (b : Buffers) (accepts : Bytes → Bytes → Bool) where
  -- Two questions at most, from the first attempt that asks.
  asking-Ends :
      (call : ℕ → Attempt) (fuel first : ℕ) (x y z : Answer)
      → call first ≡ ask_user b 0 x
      → call (suc first) ≡ ask_user b 1 y
      → call (suc (suc first)) ≡ ask_user b 2 z
      → Ends b.abufsiz 2 2 (authenticate call accepts (suc (suc (suc fuel))) first)
  unfolding authenticate ask_user
  asking-Ends call fuel first x y z e f g = rw e (
      settled-Ends call accepts b.abufsiz 1 1 first (authenticate call accepts (suc (suc fuel)))
        true (supply_creds b x) (supply_creds-Holds b x)
        (rw f (
          settled-Ends call accepts b.abufsiz 0 0 (suc first) (authenticate call accepts (suc fuel))
            true (supply_creds b y) (supply_creds-Holds b y)
            (rw g (omega arith, omega arith, tt)))))

  abbrev pub tries : Option (Bytes × Bytes) → ℕ
  tries none = 2
  tries (some _) = 3

  module _ (answers : ℕ → Answer) where
    -- Whatever the user types and the server says, a request for which a server demands credentials
    -- ends: within two questions, and after two tries, or three where the netrc file has a login.
    -- Whatever is sent fits neon's buffers, and no write goes past the end of one.
    pub authenticate-Ends :
        (login : Option (Bytes × Bytes)) (fuel : ℕ)
        → 0 < b.abufsiz
        → Ends b.abufsiz 2 (tries login) (
            authenticate
              (λ n. supply_creds_server b login n (answers n))
              accepts
              (suc (suc (suc (suc fuel))))
              0)
    unfolding supply_creds_server ask_user
    authenticate-Ends none fuel h =
        asking-Ends (λ n. supply_creds_server b none n (answers n)) (suc fuel) 0 (answers 0)
          (answers 1) (answers 2) refl refl refl
    authenticate-Ends (some (u, p)) fuel h =
        unfold authenticate in
        settled-Ends call accepts b.abufsiz 2 2 0 (authenticate call accepts (suc (suc (suc fuel))))
          false (Supplied.supplied (b.strnzcpy u b.abufsiz) (b.strnzcpy p b.abufsiz))
          (b.strnzcpy_lem u b.abufsiz h, b.strnzcpy_lem p b.abufsiz h)
          (asking-Ends call fuel 1 (answers 1) (answers 2) (answers 3) refl refl refl)
      where
        call : ℕ → Attempt
        call n = supply_creds_server b (some (u, p)) n (answers n)

    -- The same for a proxy, which has no login in the netrc file.
    pub proxy-Ends :
        (fuel : ℕ)
        → Ends b.abufsiz 2 2 (
            authenticate (λ n. supply_creds_proxy b n (answers n)) accepts (suc (suc (suc fuel))) 0)
    unfolding supply_creds_proxy ask_user
    proxy-Ends fuel =
        asking-Ends (λ n. supply_creds_proxy b n (answers n)) fuel 0 (answers 0) (answers 1)
          (answers 2) refl refl refl

-- Connections opened one after the other, each with what the netrc file has for its host.
abbrev pub note_logins :
    Option (Bytes × Bytes) → List (Option (Option Bytes × Option Bytes)) → Option (Bytes × Bytes)
note_logins login [] = login
note_logins login (found ∷ opens) = note_logins (note_login found login) opens

-- The login that the netrc file has for one host stays after it: connections to hosts of which the
-- file says nothing offer it on the first attempt, without a question.
pub supply_creds_server-note_logins :
    (b : Buffers) (account password : Bytes) (login : Option (Bytes × Bytes))
    (opens : List (Option (Option Bytes × Option Bytes))) (a : Answer)
    → All (λ found. found ≡ none) opens
    → supply_creds_server b (note_logins login (some (some account, some password) ∷ opens)) 0 a
      ≡ record {
        asked = false;
        result = Supplied.supplied (b.strnzcpy account b.abufsiz) (b.strnzcpy password b.abufsiz);
      }
unfolding supply_creds_server note_login
supply_creds_server-note_logins b account password login opens a h =
    ap (λ l. supply_creds_server b l 0 a) (kept opens h)
  where
    kept :
        (opens : List (Option (Option Bytes × Option Bytes)))
        → All (λ found. found ≡ none) opens
        → note_logins (some (account, password)) opens ≡ some (account, password)
    kept [] h = refl
    kept (found ∷ opens) h = rw h.0 (kept opens h.1)
