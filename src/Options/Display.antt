-- ===== src/Options/Display.antt =====
-- What `set` alone and `describe` show of the option table, src/options.c.
use cadaver.Common.{
  ◌>>=◌, ℕ, zero, suc, Bool, true, false, not, ◌&&◌, List, [], ◌∷◌, Option, none, some, ◌==◌,
  if◌then◌else◌,
}
use cadaver.Common.Text.{Bytes}
use cadaver.Options.{
  Holder, Handled, OptionType, Entry, DebugKey, Mask, Debugging, Globals, Options, debug_map,
  disp_lockscope, disp_lockdepth, disp_searchdepth,
}
use cadaver.Options.Operations.{find_option}
use Holder.{null, variable, text}
use OptionType.{opt_bool, opt_string, opt_handled}

-- The names of the debug bits that are set, or the value of another handled option.
pub data HandledShown : Type 0 where
  debug_names : List Bytes → HandledShown
  shown_text : Bytes → HandledShown

pub data OptionLine : Type 0 where
  on_off : Bytes → Bool → OptionLine
  unset : Bytes → OptionLine
  value : Bytes → Bytes → OptionLine
  handled : Bytes → HandledShown → OptionLine

-- Whether one of the bits below `n` is in both masks.
abbrev pub overlaps : ℕ → Mask → Mask → Bool
overlaps zero m v = false
overlaps (suc n) m v = let rest = overlaps n m v in if m n && v n then true else rest

module _ (d : Debugging) where
  -- An `int` has 32 bits.
  abbrev pub disp_debug : Mask → List (Bytes × DebugKey) → List Bytes
  disp_debug m [] = []
  disp_debug m ((name, k) ∷ ks) =
      let rest = disp_debug m ks in if overlaps 32 m (d.val k) then name ∷ rest else rest

  abbrev pub display_handled : Globals → Handled → HandledShown
  display_handled g Handled.debug = debug_names (disp_debug g.debug_mask debug_map)
  display_handled g Handled.lockscope = shown_text (disp_lockscope g.lockscope)
  display_handled g Handled.lockdepth = shown_text (disp_lockdepth g.lockdepth)
  display_handled g Handled.searchdepth = shown_text (disp_searchdepth g.searchdepth)

  -- A Boolean is read through the holder of its entry; `none` is a read that this does not allow.
  abbrev pub display_bool : Bytes → Holder → Option OptionLine
  display_bool name (variable n) = some (on_off name (not (n == 0)))
  display_bool name _ = none

  abbrev pub display_string : Bytes → Holder → Option OptionLine
  display_string name null = some (unset name)
  display_string name (text v) = some (value name v)
  display_string name _ = none

  abbrev pub display_typed : Globals → OptionType → Entry → Option OptionLine
  display_typed g opt_bool e = display_bool e.name e.holder
  display_typed g opt_string e = display_string e.name e.holder
  display_typed g (opt_handled h) e = some (handled e.name (display_handled g h))

  unfoldable pub display_options : Globals → List Entry → Option (List OptionLine)
  display_options g [] = some []
  display_options g (e ∷ es) = do
    line ← display_typed g e.type e
    rest ← display_options g es
    some (line ∷ rest)

-- The entry of which the texts are shown, or none for a name that is not known.
unfoldable pub execute_describe : Bytes → Options → Option Entry
execute_describe name o = find_option name o.entries
