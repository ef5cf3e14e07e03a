-- ===== src/Search.antt =====
-- The parser of src/search.c, which turns the condition of a `search` command into XML.
pub mod Words
pub mod Grammar
pub mod Ends
pub mod Lexing
pub mod Written
pub mod Trees
pub mod Predicates
pub mod Accepted
mod Tests
use cadaver.Common.{ℕ, List, [], ◌∷◌}
use cadaver.Common.Text.{Bytes}

-- What a parsing function returns: `overflow` is a write past the end of a word buffer, and
-- `no_fuel` is not an end that the code has.
pub data Result {ℓ} (A : Type ℓ) : Type ℓ where
  ne_ok : A → Result A
  ne_error : Result A
  overflow : Result A
  no_fuel : Result A

infixl 5 ◌>>=◌
abbrev pub ◌>>=◌ {ℓ κ} : {A : Type ℓ} {B : Type κ} → Result A → (A → Result B) → Result B
ne_ok a >>= f = f a
ne_error >>= f = ne_error
overflow >>= f = overflow
no_fuel >>= f = no_fuel

-- `result_buf`, and `*string_parsed` at the return.
pub record Parsed : Type 0 where
  pub buf : Bytes
  pub rest : Bytes

-- `r` ends, and where it is a success, `P` holds of it.
abbrev pub Ensures {ℓ} : {A : Type ℓ} → (A → Type 0) → Result A → Type 0
Ensures P (ne_ok a) = P a
Ensures P ne_error = Unit
Ensures P overflow = Unit
Ensures P no_fuel = ⊥

pub Ensures-bind {ℓ κ} :
    {A : Type ℓ} {B : Type κ} (P : A → Type 0) (Q : B → Type 0) (r : Result A) (f : A → Result B)
    → Ensures P r
    → ((a : A) → P a → Ensures Q (f a))
    → Ensures Q (r >>= f)
Ensures-bind P Q (ne_ok a) f p k = k a p
Ensures-bind P Q ne_error f p k = tt
Ensures-bind P Q overflow f p k = tt
Ensures-bind P Q no_fuel f p k = absurd p
