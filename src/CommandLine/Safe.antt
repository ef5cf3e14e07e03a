-- ===== src/CommandLine/Safe.antt =====
-- The calls that `execute_command` makes through the command table are well formed.
use mathlib.Core.List.{Memᴰ}
use cadaver.CommandLine.{Slot, token, outside, Args, choose, Outcome, invoke, admit, dispatch}
use cadaver.Commands.Lookup.{get_command-mem}
use cadaver.Commands.{
  Function, Handler, Command, commands, get_command, ordinal, cmd_quit, cmd_vary,
}
use cadaver.Common.{
  ℕ, ◌≤◌, ◌≡◌, ◌≢◌, refl, Bool, true, false, List, [], ◌∷◌, Option, none, some, arith, length, All,
  All-mem, ltb, ◌==◌, ◌⊎◌, not, ◌&&◌, if_cases,
}
use cadaver.Common.Text.{Bytes}

abbrev pub IsToken : Slot → Type 0
IsToken (token t) = Unit
IsToken _ = ⊥

abbrev pub IsInside : Slot → Type 0
IsInside outside = ⊥
IsInside _ = Unit

-- The member that is called is the one that the table initialised.
abbrev pub Fits : Handler → Args → Type 0
Fits (Handler.take0 f) Args.take0 = Unit
Fits (Handler.take1 f) (Args.take1 a) = Unit
Fits (Handler.take2 f) (Args.take2 a b) = Unit
Fits (Handler.take3 f) (Args.take3 a b c) = Unit
Fits (Handler.take_v f) (Args.take_v n l) = Unit
Fits _ _ = ⊥

-- No argument is read past the array, and the first `k` are there.
abbrev pub Supplied : ℕ → Args → Type 0
Supplied k Args.take0 = k ≡ 0
Supplied k (Args.take1 a) = (k ≤ 1) × IsInside a × (1 ≤ k → IsToken a)
Supplied k (Args.take2 a b) =
    (k ≤ 2) × IsInside a × IsInside b × (1 ≤ k → IsToken a) × (2 ≤ k → IsToken b)
Supplied k (Args.take3 a b c) = (k ≤ 3) × IsToken a × IsToken b × IsToken c
Supplied k (Args.take_v n l) = (n ≡ length l) × (k ≤ n)
Supplied k Args.skipped = ⊥

abbrev pub function : Handler → Function
function (Handler.take0 f) = f
function (Handler.take1 f) = f
function (Handler.take2 f) = f
function (Handler.take3 f) = f
function (Handler.take_v f) = f

abbrev is_null : Function → Bool
is_null Function.null = true
is_null _ = false

-- What a call must satisfy, for an entry of the table.
pub record IsSafe (connected : Bool) (cmd : Command) (args : Args) : Type 0 where
  pub entry : Memᴰ cmd commands
  pub fits : Fits cmd.handler args
  pub supplied : Supplied cmd.min_args args
  pub not_null : function cmd.handler ≢ Function.null
  pub online : cmd.needs_connection ≡ true → connected ≡ true

abbrev pub Allowed : Bool → Outcome → Type 0
Allowed connected (invoke cmd args) = IsSafe connected cmd args
Allowed connected _ = Unit

-- How an entry's handler and bounds go together.
abbrev Agree : Handler → ℕ → ℕ → Type 0
Agree (Handler.take0 f) lo hi = (lo ≡ 0) × (hi ≡ 0)
Agree (Handler.take1 f) lo hi = (lo ≤ 1) × (hi ≡ 1)
Agree (Handler.take2 f) lo hi = (lo ≤ 2) × (hi ≡ 2)
Agree (Handler.take3 f) lo hi = (lo ≡ 3) × (hi ≡ 3)
Agree (Handler.take_v f) lo hi = hi ≡ cmd_vary

abbrev IsRegular : Command → Type 0
IsRegular cmd =
    Agree cmd.handler cmd.min_args cmd.max_args
    × ((ordinal cmd.id ≡ ordinal cmd_quit) ⊎ (function cmd.handler ≢ Function.null))

commands-IsRegular : All IsRegular commands
commands-IsRegular = ground arith

choose-Fits :
    (h : Handler) (lo hi : ℕ) (args : List Bytes)
    → Agree h lo hi
    → lo ≤ length args
    → length args ≤ hi
    → Fits h (choose hi args) × Supplied lo (choose hi args)
unfolding choose
choose-Fits (Handler.take0 f) lo hi args a l u = ground arith
choose-Fits (Handler.take1 f) lo hi [] a l u = ground arith
choose-Fits (Handler.take1 f) lo hi (x ∷ []) a l u = ground arith
choose-Fits (Handler.take1 f) lo hi (x ∷ y ∷ args) a l u = absurd (omega arith)
choose-Fits (Handler.take2 f) lo hi [] a l u = ground arith
choose-Fits (Handler.take2 f) lo hi (x ∷ []) a l u = ground arith
choose-Fits (Handler.take2 f) lo hi (x ∷ y ∷ []) a l u = ground arith
choose-Fits (Handler.take2 f) lo hi (x ∷ y ∷ z ∷ args) a l u = absurd (omega arith)
choose-Fits (Handler.take3 f) lo hi (x ∷ y ∷ z ∷ []) a l u = ground arith
choose-Fits (Handler.take3 f) lo hi (x ∷ y ∷ z ∷ w ∷ args) a l u = absurd (omega arith)
choose-Fits (Handler.take3 f) lo hi _ a l u = absurd (omega arith)
choose-Fits (Handler.take_v f) lo hi args a l u = ground arith

admit-IsSafe :
    (connected : Bool) (args : List Bytes) (cmd : Command)
    → Memᴰ cmd commands
    → ltb (length args) cmd.min_args ≡ false
    → ltb cmd.max_args (length args) ≡ false
    → (not connected && cmd.needs_connection) ≡ false
    → (ordinal cmd.id == ordinal cmd_quit) ≡ false
    → IsSafe connected cmd (choose cmd.max_args args)
admit-IsSafe connected args cmd m few many offline other =
    let r : IsRegular cmd = All-mem IsRegular commands commands-IsRegular m in
    let c =
      choose-Fits cmd.handler cmd.min_args cmd.max_args args r.0 (ground arith) (ground arith) in
    record {
      entry = m;
      fits = c.0;
      supplied = c.1;
      not_null = λ e. ground (arith, r.1);
      online = λ e. ground arith;
    }

admit-Allowed :
    (connected : Bool) (args : List Bytes) (cmd : Command)
    → Memᴰ cmd commands
    → Allowed connected (admit connected args (some cmd))
unfolding admit
admit-Allowed connected args cmd m =
    if_cases P (ltb (length args) cmd.min_args) (λ _. tt)
      λ a.
        if_cases P (ltb cmd.max_args (length args)) (λ _. tt)
          λ b.
            if_cases P (not connected && cmd.needs_connection) (λ _. tt)
              λ c.
                if_cases P (ordinal cmd.id == ordinal cmd_quit) (λ _. tt)
                  λ d. admit-IsSafe connected args cmd m a b c d
  where
    P : Outcome → Type 0
    P = Allowed connected

-- Whatever the words are, a call is made only of an entry of the table, through the member of the
-- union that the entry sets, never through the NULL of `quit`, with all the arguments that the entry
-- demands and none from outside the array, and only when connected if the entry demands it.
pub dispatch-Allowed :
    (connected : Bool) (words : List Bytes) → Allowed connected (dispatch connected words)
unfolding dispatch
dispatch-Allowed connected [] = tt
dispatch-Allowed connected (t ∷ args) = go (get_command t) refl
  where
    go : (o : Option Command) → get_command t ≡ o → Allowed connected (admit connected args o)
    go none e = tt
    go (some cmd) e = admit-Allowed connected args cmd (get_command-mem t e)
