-- ===== src/Options/Kept.antt =====
-- What each change of an entry keeps of it, and sequences of the operations.
use cadaver.Common.{
  ◌>>=◌, ℕ, ◌≡◌, ◌⊎◌, inl, inr, refl, sym, List, [], ◌∷◌, Option, none, some, subst,
}
use cadaver.Common.Text.{Bytes, strcaseeq, tolower}
use cadaver.Options.{Holder, OptionType, Entry, Debugging, Options, options}
use cadaver.Options.Operations.{
  set_entry, unset_entry, execute_set, execute_unset, replace_text, write_int,
}
use cadaver.Options.Table.{Keyed}
use Holder.{null, variable, text}
use OptionType.{opt_bool, opt_string, opt_handled}

-- The holder is of the kind that the type of the option says.
abbrev pub HolderOf : OptionType → Holder → Type 0
HolderOf opt_bool h = (v : ℕ) × (h ≡ variable v)
HolderOf opt_string h = (h ≡ null) ⊎ ((v : Bytes) × (h ≡ text v))
HolderOf (opt_handled f) h = h ≡ null

abbrev pub IsTyped : Entry → Type 0
IsTyped e = HolderOf e.type e.holder

-- A change of an entry that returns and keeps the option's name and the kind of the holder.
abbrev pub Kept : (Entry → Option Entry) → Entry → Type 0
Kept change e = (e' : Entry) × (change e ≡ some e') × IsTyped e' × (e'.name ≡ e.name)

stays_lem : (e : Entry) → IsTyped e → Kept (λ e. some e) e
stays_lem e h = (e, refl, h, refl)

write_int_lem :
    (v : ℕ) (e : Entry) → e.type ≡ opt_bool → HolderOf opt_bool e.holder → Kept (write_int v) e
write_int_lem v e q h = (
  record e { holder = variable v },
  rw h.1 refl,
  subst (λ t. HolderOf t (variable v)) (sym q) (v, refl),
  refl,
)

replace_text_lem :
    (g : Holder) (e : Entry)
    → HolderOf opt_string g
    → e.type ≡ opt_string
    → HolderOf opt_string e.holder
    → Kept (replace_text g) e
replace_text_lem g e k q (inl h) =
    (record e { holder = g }, rw h refl, subst (λ t. HolderOf t g) (sym q) k, refl)
replace_text_lem g e k q (inr (v, h)) =
    (record e { holder = g }, rw h refl, subst (λ t. HolderOf t g) (sym q) k, refl)

pub set_entry_lem :
    (newv : Option Bytes) (t : OptionType) (e : Entry)
    → e.type ≡ t
    → IsTyped e
    → HolderOf t e.holder
    → Kept (set_entry newv t) e
set_entry_lem none opt_bool e q i h = write_int_lem 1 e q h
set_entry_lem (some v) opt_bool e q i h = stays_lem e i
set_entry_lem none opt_string e q i h = stays_lem e i
set_entry_lem (some v) opt_string e q i h = replace_text_lem (text v) e (inr (v, refl)) q h
set_entry_lem none (opt_handled f) e q i h = stays_lem e i
set_entry_lem (some v) (opt_handled f) e q i h = stays_lem e i

pub unset_entry_lem :
    (newv : Option Bytes) (t : OptionType) (e : Entry)
    → e.type ≡ t
    → IsTyped e
    → HolderOf t e.holder
    → Kept (unset_entry newv t) e
unset_entry_lem none opt_bool e q i h = write_int_lem 0 e q h
unset_entry_lem (some v) opt_bool e q i h = stays_lem e i
unset_entry_lem none opt_string e q i h = replace_text_lem null e (inl refl) q h
unset_entry_lem (some v) opt_string e q i h = stays_lem e i
unset_entry_lem none (opt_handled f) e q i h = stays_lem e i
unset_entry_lem (some v) (opt_handled f) e q i h = stays_lem e i

-- A command on the table.
pub data Setting : Type 0 where
  set : Bytes → Option Bytes → Setting
  unset : Bytes → Option Bytes → Setting

module _ (n : Debugging) where
  abbrev pub run : List Setting → Options → Option Options
  run [] o = some o
  run (set opt newv ∷ cs) o = execute_set n opt newv o >>= run cs
  run (unset opt newv ∷ cs) o = execute_unset n opt newv o >>= run cs

-- The names and the identifiers of the table of the source are different.
pub options-Keyed : Keyed options
unfolding options strcaseeq tolower
options-Keyed = assumption refl
