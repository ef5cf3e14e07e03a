-- ===== src/Options/Table.antt =====
-- Changes and reads of the table: an entry is found under its name and under its identifier.
use mathlib.Core.List.{Memᴰ}
use cadaver.Common.{
  ◌>>=◌, ℕ, ◌≡◌, ◌⊎◌, inl, inr, refl, ◌∙◌, ap, Bool, true, false, List, [], ◌∷◌, Option, none, some,
  arith, All, All-mem, subst, if◌then◌else◌,
}
use cadaver.Common.Text.{Bytes, strcaseeq, strcaseeq_congr}
use cadaver.Options.{OptionId, same_id, Holder, OptionType, Entry, Debugging, Globals, Options}
use cadaver.Options.Operations.{
  update, named, find_option, set_entry, execute_set, execute_unset, get_option, set_globals,
  unset_globals, unset_entry, replace_text, write_int,
}
use Holder.{null, variable, text}
use OptionType.{opt_bool, opt_string}

abbrev pub Apart : Entry → Entry → Type 0
Apart d e = (strcaseeq d.name e.name ≡ false) × (same_id d.id e.id ≡ false)

-- No two entries share a name or an identifier.
abbrev pub Keyed : List Entry → Type 0
Keyed [] = Unit
Keyed (e ∷ es) = All (Apart e) es × Keyed es

-- The table `es'` is `es` but for the holder under `id`.
abbrev pub Changed : OptionId → Holder → List Entry → List Entry → Type 0
Changed id h es es' =
    (other : OptionId)
    → get_option other es' ≡ (if same_id id other then h else get_option other es)

tail_lem :
    (matches : Entry → Bool) (change : Entry → Option Entry) (es : List Entry) (d e : Entry)
    (h : Holder)
    → matches d ≡ false
    → Apart d e
    → (es' : List Entry) × (update matches change es ≡ some es') × Changed e.id h es es'
    → (es' : List Entry) × (update matches change (d ∷ es) ≡ some es') × Changed e.id h (d ∷ es) es'
unfolding get_option
tail_lem matches change es d e h f apart rest =
    (d ∷ rest.0, rw (f, rest.1) refl, λ other. ground (arith, rest.2 other, apart.1))

-- A test that holds of `e` and of no entry apart from it changes `e` alone.
pub update-Changed :
    (matches : Entry → Bool) (change : Entry → Option Entry) (es : List Entry) (e : Entry)
    (h : Holder)
    → Memᴰ e es
    → Keyed es
    → matches e ≡ true
    → ((d : Entry) → Apart d e → matches d ≡ false)
    → change e ≡ some (record e { holder = h })
    → (es' : List Entry) × (update matches change es ≡ some es') × Changed e.id h es es'
unfolding get_option
update-Changed matches change [] e h m k t o c = elim m [ ]
update-Changed matches change (d ∷ es) e h (Memᴰ.head p) k t o c =
    subst
      (λ d.
        (es' : List Entry) × (update matches change (d ∷ es) ≡ some es')
        × Changed e.id h (d ∷ es) es')
      p (record e { holder = h } ∷ es, rw (t, c) refl, λ other. ground arith)
update-Changed matches change (d ∷ es) e h (Memᴰ.tail m) k t o c =
    tail_lem matches change es d e h (o d (All-mem (Apart d) es k.0 m)) (All-mem (Apart d) es k.0 m)
      (update-Changed matches change es e h m k.1 t o c)

named-Apart : (opt : Bytes) (d e : Entry) → named opt e ≡ true → Apart d e → named opt d ≡ false
named-Apart opt d e h a = strcaseeq_congr e.name opt d.name h ∙ a.0

replace_text_lem :
    (e : Entry) (h : Holder)
    → (e.holder ≡ null) ⊎ ((w : Bytes) × (e.holder ≡ text w))
    → replace_text h e ≡ some (record e { holder = h })
replace_text_lem e h (inl q) = rw q refl
replace_text_lem e h (inr (w, q)) = rw q refl

write_int_lem :
    (e : Entry) (v w : ℕ)
    → e.holder ≡ variable w
    → write_int v e ≡ some (record e { holder = variable v })
write_int_lem e v w q = rw q refl

abbrev pub with_globals : Globals → List Entry → Option Options
with_globals g es = some (record { entries = es; globals = g })

module _ (n : Debugging) (o : Options) (e : Entry) (opt : Bytes) (m : Memᴰ e o.entries)
    (k : Keyed o.entries) (t : named opt e ≡ true) where
  -- The entry that `find_option` finds.
  find_option_lem : (es : List Entry) → Memᴰ e es → Keyed es → find_option opt es ≡ some e
  find_option_lem [] m k = elim m [ ]
  find_option_lem (d ∷ es) (Memᴰ.head p) k =
      subst (λ d. find_option opt (d ∷ es) ≡ some e) p (rw t refl)
  find_option_lem (d ∷ es) (Memᴰ.tail m) k =
      rw (named-Apart opt d e t (All-mem (Apart d) es k.0 m)) (find_option_lem es m k.1)

  -- A change of the entry that has the name.
  found :
      (change : Entry → Option Entry) (h : Holder)
      → change e ≡ some (record e { holder = h })
      → (es' : List Entry) × (update (named opt) change o.entries ≡ some es')
        × Changed e.id h o.entries es'
  found change h c =
      update-Changed (named opt) change o.entries e h m k t (λ d. named-Apart opt d e t) c

  -- The option `e` has the holder `h`, and no other option and no global has changed.
  abbrev pub Only : Holder → Option Options → Type 0
  Only h r =
      (o' : Options) × (r ≡ some o')
      × Changed e.id h o.entries o'.entries
      × (o'.globals ≡ o.globals)

  -- `set NAME VALUE` for a string option of a table without two entries of one name or identifier,
  -- under its name in any case: the option has the value, and
  -- no other option and no global has changed.
  pub execute_set-get_option :
      e.type ≡ opt_string
      → (v : Bytes) (old : (e.holder ≡ null) ⊎ ((w : Bytes) × (e.holder ≡ text w)))
      → Only (text v) (execute_set n opt (some v) o)
  unfolding execute_set
  execute_set-get_option s v old = (
    _,
    ap (λ r. r >>= with_globals (set_globals n (some v) (find_option opt o.entries) o.globals))
        rest.1,
    rest.2,
    globals,
  )
    where
      rest :
          (es' : List Entry) × (update (named opt) (λ e. set_entry (some v) e.type e) o.entries
            ≡ some es')
          × Changed e.id (text v) o.entries es'
      rest =
          found (λ e. set_entry (some v) e.type e) (text v)
            (ap (λ y. set_entry (some v) y e) s ∙ replace_text_lem e (text v) old)

      globals : set_globals n (some v) (find_option opt o.entries) o.globals ≡ o.globals
      globals =
          ap (λ f. set_globals n (some v) f o.globals) (find_option_lem o.entries m k) ∙ rw s refl

  -- `set NAME` and `unset NAME` for a boolean option of a table without two entries of one name or
  -- identifier, under its name in any case: it is 1, or 0, and no other option and no
  -- global has changed.
  pub execute_set-get_bool_option :
      (w : ℕ)
      → e.type ≡ opt_bool
      → e.holder ≡ variable w
      → Only (variable 1) (execute_set n opt none o)
        × Only (variable 0) (execute_unset n opt none o)
  unfolding execute_set execute_unset
  execute_set-get_bool_option w s old = (
    (_, ap (λ r. r >>= with_globals o.globals) on.1, on.2, refl),
    (
      _,
      ap (λ r. r >>= with_globals (unset_globals n none (find_option opt o.entries) o.globals))
          off.1,
      off.2,
      globals,
    ),
  )
    where
      on :
          (es' : List Entry) × (update (named opt) (λ e. set_entry none e.type e) o.entries
            ≡ some es')
          × Changed e.id (variable 1) o.entries es'
      on =
          found (λ e. set_entry none e.type e) (variable 1)
            (ap (λ y. set_entry none y e) s ∙ write_int_lem e 1 w old)

      off :
          (es' : List Entry) × (update (named opt) (λ e. unset_entry none e.type e) o.entries
            ≡ some es')
          × Changed e.id (variable 0) o.entries es'
      off =
          found (λ e. unset_entry none e.type e) (variable 0)
            (ap (λ y. unset_entry none y e) s ∙ write_int_lem e 0 w old)

      globals : unset_globals n none (find_option opt o.entries) o.globals ≡ o.globals
      globals =
          ap (λ f. unset_globals n none f o.globals) (find_option_lem o.entries m k) ∙ rw s refl
