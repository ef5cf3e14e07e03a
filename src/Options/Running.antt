-- ===== src/Options/Running.antt =====
-- The options of a program that runs, after `init_options`, whose option `utf8` cannot be read.
use cadaver.Common.{
  ◌>>=◌, ◌≡◌, inl, inr, refl, sym, ◌∙◌, ap, false, List, [], ◌∷◌, Option, none, some, All,
  Bool-cases, map,
}
use cadaver.Common.Text.{Bytes, codes, strcaseeq, strcaseeq_congr, tolower}
use cadaver.Options.{OptionType, Entry, Debugging, Globals, Options, options}
use cadaver.Options.Display.{OptionLine, display_typed}
use cadaver.Options.Kept.{HolderOf, IsTyped, Kept, set_entry_lem, unset_entry_lem, Setting, run}
use cadaver.Options.Operations.{
  update, named, set_entry, unset_entry, execute_set, execute_unset, set_globals, unset_globals,
  find_option, lockowner, init_options, set_option, set_bool_option,
}
use cadaver.Options.Shown.{name_of, typed_lem}
use cadaver.Options.Table.{with_globals}
use OptionType.{opt_string}
use Setting.{set, unset}

-- Whether a name is not that of `utf8`, in any case.
abbrev pub IsOther : Bytes → Type 0
IsOther name = strcaseeq (codes "utf8") name ≡ false

-- The holder is of the right kind, unless the option is `utf8`.
abbrev pub IsSound : Entry → Type 0
IsSound e = IsOther e.name → IsTyped e

abbrev pub entry_names : List Entry → List Bytes
entry_names es = map (λ e. e.name) es

abbrev pub setting_name : Setting → Bytes
setting_name (set opt newv) = opt
setting_name (unset opt newv) = opt

-- A change of entries of one name, which is not that of `utf8`.
update-IsSound :
    (opt : Bytes) (change : Entry → Option Entry)
    → IsOther opt
    → ((e : Entry) → IsTyped e → Kept change e)
    → (es : List Entry) → All IsSound es
    → (es' : List Entry) × (update (named opt) change es ≡ some es')
      × All IsSound es'
      × (entry_names es' ≡ entry_names es)
update-IsSound opt change a k [] h = ([], refl, tt, refl)
update-IsSound opt change a k (e ∷ es) h =
    (let rest = update-IsSound opt change a k es h.1 in
      elim (Bool-cases (named opt e)) [
        | inl b ↦
            (let changed = k e (h.0 (sym (strcaseeq_congr e.name opt (codes "utf8") b) ∙ a)) in
              (
                changed.0 ∷ es,
                rw (b, changed.1) refl,
                ((λ n. changed.2), h.1),
                ap (λ name. name ∷ entry_names es) changed.3,
              ))
        | inr b ↦ (e ∷ rest.0, rw (b, rest.1) refl, (h.0, rest.2), ap (λ l. e.name ∷ l) rest.3)
      ])

module _ (n : Debugging) where
  set-IsSound :
      (opt : Bytes) (newv : Option Bytes) (o : Options)
      → IsOther opt
      → All IsSound o.entries
      → (o' : Options) × (execute_set n opt newv o ≡ some o')
        × All IsSound o'.entries
        × (entry_names o'.entries ≡ entry_names o.entries)
  unfolding execute_set
  set-IsSound opt newv o a h =
      (let r =
          update-IsSound opt (λ e. set_entry newv e.type e) a
            (λ e i. set_entry_lem newv e.type e refl i i) o.entries h in
        (
          _,
          ap (λ x. x >>= with_globals (set_globals n newv (find_option opt o.entries) o.globals))
              r.1,
          r.2,
          r.3,
        ))

  unset-IsSound :
      (opt : Bytes) (newv : Option Bytes) (o : Options)
      → IsOther opt
      → All IsSound o.entries
      → (o' : Options) × (execute_unset n opt newv o ≡ some o')
        × All IsSound o'.entries
        × (entry_names o'.entries ≡ entry_names o.entries)
  unfolding execute_unset
  unset-IsSound opt newv o a h =
      (let r =
          update-IsSound opt (λ e. unset_entry newv e.type e) a
            (λ e i. unset_entry_lem newv e.type e refl i i) o.entries h in
        (
          _,
          ap (λ x. x >>= with_globals (unset_globals n newv (find_option opt o.entries) o.globals))
              r.1,
          r.2,
          r.3,
        ))

  run-IsSound :
      (cs : List Setting) (o : Options)
      → All (λ c. IsOther (setting_name c)) cs
      → All IsSound o.entries
      → (o' : Options) × (run n cs o ≡ some o')
        × All IsSound o'.entries
        × (entry_names o'.entries ≡ entry_names o.entries)
  run-IsSound [] o a h = (o, refl, h, refl)
  run-IsSound (set opt newv ∷ cs) o a h =
      (let s = set-IsSound opt newv o a.0 h in
        let r = run-IsSound cs s.0 a.1 s.2 in
        (r.0, ap (λ x. x >>= run n cs) s.1 ∙ r.1, r.2, r.3 ∙ s.3))
  run-IsSound (unset opt newv ∷ cs) o a h =
      (let s = unset-IsSound opt newv o a.0 h in
        let r = run-IsSound cs s.0 a.1 s.2 in
        (r.0, ap (λ x. x >>= run n cs) s.1 ∙ r.1, r.2, r.3 ∙ s.3))

lockowner_lem : (user hostname : Option Bytes) → HolderOf opt_string (lockowner user hostname)
lockowner_lem (some user) (some hostname) = inr (_, refl)
lockowner_lem none hostname = inl refl
lockowner_lem (some user) none = inl refl

utf8_lem : {A : Type 0} → strcaseeq (codes "utf8") (codes "utf8") ≡ false → A
unfolding strcaseeq tolower
utf8_lem h = absurd cc

-- The lines of the options but `utf8`, under their names.
abbrev pub IsShown : Debugging → Globals → Entry → Type 0
IsShown n g e =
    IsOther e.name
    → (line : OptionLine) × (display_typed n g e.type e ≡ some line) × (name_of line ≡ e.name)

shown_lem : (n : Debugging) (g : Globals) (es : List Entry) → All IsSound es → All (IsShown n g) es
shown_lem n g [] h = tt
shown_lem n g (e ∷ es) h = ((λ a. typed_lem n g e.type e (h.0 a)), shown_lem n g es h.1)

init_options-IsSound :
    (default_namespace : Bytes) (user hostname : Option Bytes) (g : Globals)
    → (o : Options) × (init_options default_namespace user hostname g ≡ some o)
      × All IsSound o.entries
      × (entry_names o.entries ≡ entry_names options)
unfolding init_options options set_option set_bool_option
init_options-IsSound default_namespace user hostname g = (
  _,
  refl,
  (
    (λ a. (_, refl)),
    (
      (λ a. (_, refl)),
      (
        (λ a. (_, refl)),
        (
          (λ a. utf8_lem a),
          (
            (λ a. (_, refl)),
            (
              (λ a. (_, refl)),
              (
                (λ a. (_, refl)),
                (
                  (λ a. lockowner_lem user hostname),
                  (
                    (λ a. inl refl),
                    (
                      (λ a. inl refl),
                      (
                        (λ a. inl refl),
                        (
                          (λ a. inl refl),
                          (
                            (λ a. inr (_, refl)),
                            (
                              (λ a. inl refl),
                              (
                                (λ a. inl refl),
                                (
                                  (λ a. inl refl),
                                  (
                                    (λ a. (_, refl)),
                                    (
                                      (λ a. inl refl),
                                      (
                                        (λ a. inl refl),
                                        (
                                          (λ a. refl),
                                          ((λ a. refl), ((λ a. refl), ((λ a. refl), tt))),
                                        ),
                                      ),
                                    ),
                                  ),
                                ),
                              ),
                            ),
                          ),
                        ),
                      ),
                    ),
                  ),
                ),
              ),
            ),
          ),
        ),
      ),
    ),
  ),
  refl,
)

-- After `init_options`, each sequence of `set` and `unset` that leaves `utf8` alone writes and frees
-- through valid pointers only, and leaves all options of the table, in its order; each but `utf8`
-- can be shown, under its own name.
pub run-IsShown :
    (n : Debugging) (default_namespace : Bytes) (user hostname : Option Bytes) (g : Globals)
    (cs : List Setting)
    → All (λ c. IsOther (setting_name c)) cs
    → (o' : Options) × ((init_options default_namespace user hostname g >>= run n cs) ≡ some o')
      × All (IsShown n o'.globals) o'.entries
      × (entry_names o'.entries ≡ entry_names options)
run-IsShown n default_namespace user hostname g cs a =
    (let i = init_options-IsSound default_namespace user hostname g in
      let r = run-IsSound n cs i.0 a i.2 in
      (r.0, ap (λ x. x >>= run n cs) i.1 ∙ r.1, shown_lem n r.0.globals r.0.entries r.2, r.3 ∙ i.3))
