-- ===== src/Completion/Candidates.antt =====
-- The names that are offered, and the age of the listing that they come from.
use cadaver.Common.{
  bind_lem, ◌>>=◌, ℕ, zero, suc, ◌≤◌, ◌<◌, ◌≡◌, ◌∙◌, inl, inr, refl, sym, ap, Bool, true, List, [],
  ◌∷◌, Option, none, some, arith, length, if◌then◌else◌, Bool-cases, Option-cases,
}
use cadaver.Common.Text.{Bytes}
use cadaver.Completion.{
  Statics, Scene, is_prefix, offered, next_match, begin_completion, advance, further, generated,
}
use cadaver.Listing.{Resource}
use cadaver.Neon.{Neon}

-- The names until NULL was met.
abbrev met : List Bytes → Option (List Bytes × Bool)
met names = some (names, true)

module _ (n : Neon) (s : Scene) where
  -- The names of the resources that match, in the order of the list.
  abbrev pub candidates : Bytes → List Resource → List Bytes
  candidates text_uri_path [] = []
  candidates text_uri_path (r ∷ list) =
      let others = candidates text_uri_path list in
      if is_prefix text_uri_path r.uri
      then elim (offered n s r.uri) [ some name ↦ name ∷ others | none ↦ others ]
      else others

  -- What a call gives of the candidates.
  abbrev Gives : Bytes → List Resource → Option Bytes × List Resource → Type 0
  Gives t list (none, rest) = candidates t list ≡ []
  Gives t list (some name, rest) =
      (candidates t list ≡ name ∷ candidates t rest) × (length rest < length list)

  later_lem :
      (t : Bytes) (r : Resource) (list : List Resource) (x : Option Bytes × List Resource)
      → candidates t (r ∷ list) ≡ candidates t list
      → Gives t list x
      → Gives t (r ∷ list) x
  later_lem t r list (none, rest) e h = e ∙ h
  later_lem t r list (some name, rest) e h = (e ∙ h.0, omega (arith, h.1))

  next_match-Gives : (t : Bytes) (list : List Resource) → Gives t list (next_match n s t list)
  unfolding next_match
  next_match-Gives t [] = refl
  next_match-Gives t (r ∷ list) =
      let after = next_match-Gives t list in
      elim (Bool-cases (is_prefix t r.uri)) [
        | inr b ↦ rw b (later_lem t r list (next_match n s t list) (rw b refl) after)
        | inl b ↦ elim (Option-cases (offered n s r.uri)) [
          | inl e ↦ rw (b, e) (later_lem t r list (next_match n s t list) (rw (b, e) refl) after)
          | inr (name, e) ↦ rw (b, e) (rw (b, e) refl, omega arith)
        ]
      ]

  further-candidates :
      (calls : ℕ) (text : Bytes) (v : Statics)
      → length v.current < calls
      → further n s calls text v ≡ some (candidates v.text_uri_path v.current, true)
  unfolding further
  further-candidates zero text v h = absurd (omega (arith, h))
  further-candidates (suc calls) text v h =
      go (next_match n s v.text_uri_path v.current) (next_match-Gives v.text_uri_path v.current)
        (λ w i. further-candidates calls text w (omega (arith, i, h)))
    where
      go :
          (x : Option Bytes × List Resource)
          → Gives v.text_uri_path v.current x
          → ((w : Statics)
              → length w.current < length v.current
              → further n s calls text w ≡ some (candidates w.text_uri_path w.current, true))
          → (elim x.0 [
            | none ↦ met []
            | some name ↦
                further n s calls text (record v { current = x.1 }) >>= λ y. some (name ∷ y.0, y.1)
          ])
            ≡ some (candidates v.text_uri_path v.current, true)
      go (none, rest) g next = ap met (sym g)
      go (some name, rest) g next =
          bind_lem (further n s calls text (record v { current = rest })) _ _
            (next (record v { current = rest }) g.1)
          ∙ ap met (sym g.0)

  generated_lem :
      (calls : ℕ) (text : Bytes) (v : Statics)
      → generated n s (suc calls) text v
        ≡ (begin_completion n s text v >>= λ v. further n s (suc calls) text v)
  unfolding generated
  generated_lem calls text v = go (begin_completion n s text v)
    where
      go :
          (o : Option Statics)
          → ((o >>= λ v. some (advance n s v)) >>= λ r. elim r.0 [
            | none ↦ met []
            | some name ↦ further n s calls text r.1 >>= λ x. some (name ∷ x.0, x.1)
          ])
            ≡ (o >>= λ v. further n s (suc calls) text v)
      go none = refl
      go (some v) = refl

  -- The calls for one word end with NULL, after one call more than the listing has resources at the
  -- latest, and give exactly the names of the resources that start with the text, in their order.
  pub generated-candidates :
      (calls : ℕ) (text : Bytes) (v v' : Statics)
      → begin_completion n s text v ≡ some v'
      → length v'.current ≤ calls
      → generated n s (suc calls) text v ≡ some (candidates v'.text_uri_path v'.current, true)
  generated-candidates calls text v v' e h =
      generated_lem calls text v
      ∙ bind_lem (begin_completion n s text v) v' _ e
      ∙ further-candidates (suc calls) text v' (omega (arith, h))
