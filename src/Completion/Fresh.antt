-- ===== src/Completion/Fresh.antt =====
-- The age of the listing that names are completed from.
use cadaver.Common.{
  bind_lem, ◌>>=◌, ℕ, ◌+◌, ◌≤◌, ◌<◌, ◌≡◌, inl, inr, refl, sym, subst, true, false, List, [], Option,
  none, some, arith, ltb, if◌then◌else◌, Bool-cases,
}
use cadaver.Common.Text.{Bytes, streq, streq_iff}
use cadaver.Completion.{
  CompletionCache, Statics, Scene, empty_cache, refill, refresh_completion_cache, root_path,
  begin_completion,
}
use cadaver.Listing.{Resource}
use cadaver.Neon.{Neon}

-- What the cache holds was seen: `Seen p t l` says that `l` was the listing of `p` at the time `t`.
pub data IsFilled (Seen : Bytes → ℕ → List Resource → Type 0) (c : CompletionCache) : Type 0 where
  unfilled : c.expiry ≡ 0 → c.list ≡ [] → IsFilled Seen c
  filled :
      (p : Bytes) (t : ℕ) → c.path ≡ some p → c.expiry ≡ t + 10 → Seen p t c.list → IsFilled Seen c

-- The list is empty, or was the listing of the path ten seconds ago at most.
pub data IsFresh (Seen : Bytes → ℕ → List Resource → Type 0) (p : Bytes) (now : ℕ)
    (list : List Resource) : Type 0 where
  no_listing : list ≡ [] → IsFresh Seen p now list
  recent : (t : ℕ) → now ≤ t + 10 → Seen p t list → IsFresh Seen p now list

module _ (Seen : Bytes → ℕ → List Resource → Type 0) (s : Scene) where
  -- A refresh that leaves a cache filled, with a fresh list.
  abbrev Refreshed : Bytes → Option CompletionCache → Type 0
  Refreshed p r =
      (c : CompletionCache) × (r ≡ some c) × IsFilled Seen c × IsFresh Seen p s.now c.list

  refill-Refreshed :
      (p : Bytes)
      → ((p : Bytes) (l : List Resource) → s.fetch p ≡ some l → Seen p s.later l)
      → s.now ≤ s.later
      → Refreshed p (some (refill s p))
  refill-Refreshed p seen h = go (s.fetch p) refl
    where
      go :
          (o : Option (List Resource))
          → s.fetch p ≡ o
          → Refreshed p (
              some (elim o [
                | none ↦ empty_cache
                | some list ↦ record { list = list; expiry = s.later + 10; path = some p }
              ]))
      go none e = (empty_cache, refl, unfilled refl refl, no_listing refl)
      go (some list) e = (
        record { list = list; expiry = s.later + 10; path = some p },
        refl,
        filled p s.later refl refl (seen p list e),
        recent s.later (omega (arith, h)) (seen p list e),
      )

  kept-Refreshed :
      (p q : Bytes) (t : ℕ) (c : CompletionCache)
      → ((p : Bytes) (l : List Resource) → s.fetch p ≡ some l → Seen p s.later l)
      → s.now ≤ s.later
      → ltb c.expiry s.now ≡ false
      → c.path ≡ some q
      → c.expiry ≡ t + 10
      → Seen q t c.list
      → Refreshed p (some (if streq p q then c else refill s p))
  kept-Refreshed p q t c seen h l e f g = elim (Bool-cases (streq p q)) [
    | inl b ↦ rw b (
      c,
      refl,
      filled q t e f g,
      recent t (ground arith) (subst (λ x. Seen x t c.list) (sym ((streq_iff p q).0 b)) g),
    )
    | inr b ↦ rw b (refill-Refreshed p seen h)
  ]

  refresh-Refreshed :
      (p : Bytes) (c : CompletionCache)
      → ((p : Bytes) (l : List Resource) → s.fetch p ≡ some l → Seen p s.later l)
      → 0 < s.now
      → s.now ≤ s.later
      → IsFilled Seen c
      → Refreshed p (refresh_completion_cache s p c)
  unfolding refresh_completion_cache
  refresh-Refreshed p c seen i h (unfilled e f) =
      subst
        (λ b. Refreshed p (
          if b
          then some (refill s p)
          else (c.path >>= λ q. some (if streq p q then c else refill s p))))
        (sym (expired c.expiry e)) (refill-Refreshed p seen h)
    where
      expired : (x : ℕ) → x ≡ 0 → ltb x s.now ≡ true
      expired x e = ground arith
  refresh-Refreshed p c seen i h (filled q t e f g) = elim (Bool-cases (ltb c.expiry s.now)) [
    | inl b ↦ rw b (refill-Refreshed p seen h)
    | inr b ↦ rw b (
        subst (Refreshed p)
          (sym (bind_lem c.path q (λ x. some (if streq p x then c else refill s p)) e))
          (kept-Refreshed p q t c seen h b e f g))
  ]

  -- As long as what the cache holds was seen on the server that is asked now, the start of a completion
  -- compares no NULL, and completes from a listing of the collection that the text names, which is
  -- ten seconds old at most, or from none; then the cache holds what was seen there, again. The
  -- clock is not at zero and does not go back.
  pub begin_completion-IsFresh :
      (n : Neon) (text : Bytes) (v : Statics)
      → ((p : Bytes) (l : List Resource) → s.fetch p ≡ some l → Seen p s.later l)
      → 0 < s.now
      → s.now ≤ s.later
      → IsFilled Seen v.cache
      → (v' : Statics) × (begin_completion n s text v ≡ some v')
        × IsFilled Seen v'.cache
        × IsFresh Seen (root_path n s text) s.now v'.current
  unfolding begin_completion
  begin_completion-IsFresh n text v seen i h f =
      let (c, e, filled_c, fresh) = refresh-Refreshed (root_path n s text) v.cache seen i h f in
      (_, bind_lem (refresh_completion_cache s (root_path n s text) v.cache) c _ e, filled_c, fresh)
