-- ===== src/Locks/Removal.antt =====
-- What `rm` and `rmcol` do to the locks.
use cadaver.Common.{
  ◌>>=◌, ℕ, zero, suc, ◌<◌, ◌≡◌, refl, ap, ◌∙◌, Bool, true, false, List, [], ◌∷◌, none, some, arith,
  inl, inr, Option-cases, if◌then◌else◌,
}
use cadaver.Common.Text.{Bytes}
use cadaver.Locks.{Lockstore, Request, remove_locks, delete_request, execute_delete, execute_rmcol}
use Request.{ne_delete}

module _ {S L : Type 0} (store : Lockstore S L) where
  removed_lem :
      (n : ℕ) (p : Bytes) (s : S) (l : L)
      → store.findbyuri p s ≡ some l
      → remove_locks store (suc n) p s ≡ remove_locks store n p (store.remove l s)
  unfolding remove_locks
  removed_lem n p s l e =
      ap (λ o. elim o [ none ↦ some s | some lk ↦ remove_locks store n p (store.remove lk s) ]) e

  -- The loop of `remove_locks` ends, with fuel above the number of the locks, and then no lock of
  -- the path is found.
  pub remove_locks-findbyuri :
      (n : ℕ) (p : Bytes) (s : S)
      → store.count s < n
      → (s' : S) × (remove_locks store n p s ≡ some s') × (store.findbyuri p s' ≡ none)
  unfolding remove_locks
  remove_locks-findbyuri zero p s h = absurd (omega (arith, h))
  remove_locks-findbyuri (suc n) p s h = elim (Option-cases (store.findbyuri p s)) [
    | inl e ↦ (
      s,
      ap (λ o. elim o [ none ↦ some s | some lk ↦ remove_locks store n p (store.remove lk s) ]) e,
      e,
    )
    | inr (l, e) ↦
        (let r =
            remove_locks-findbyuri n p (store.remove l s)
              (omega (arith, h, store.remove_lem p l s e)) in
          (r.0, removed_lem n p s l e ∙ r.1, r.2))
  ]

  -- One DELETE is sent, and after a success no lock of the path is found.
  abbrev pub Deleted : (Bytes → Bool) → Bytes → List (Request L) × S → Type 0
  Deleted deleted path r =
      (r.0 ≡ ne_delete path ∷ [])
      × ((if deleted path then store.findbyuri path r.1 else none) ≡ none)

  delete_request-Deleted :
      (n : ℕ) (deleted : Bytes → Bool) (path : Bytes) (s : S)
      → store.count s < n
      → (r : List (Request L) × S) × (delete_request store n deleted path s ≡ some r)
        × Deleted deleted path r
  delete_request-Deleted n deleted path s h = go (deleted path)
    where
      go :
          (d : Bool)
          → (r : List (Request L) × S) × (((if d then remove_locks store n path s else some s)
                >>= λ s'. some (ne_delete path ∷ [], s'))
              ≡ some r)
            × ((r.0 ≡ ne_delete path ∷ [])
                × ((if d then store.findbyuri path r.1 else none) ≡ none))
      go false = (_, refl, (refl, refl))
      go true =
          (let k = remove_locks-findbyuri n path s h in
            (
              (ne_delete path ∷ [], k.0),
              ap (λ o. o >>= λ s'. some (ne_delete path ∷ [], s')) k.1,
              (refl, k.2),
            ))

  -- Nothing is sent and no lock is touched.
  abbrev pub Refused : S → List (Request L) × S → Type 0
  Refused s r = r ≡ ([], s)

  -- `rm` and `rmcol` of one path: the one for the kind of resource that it is sends a DELETE, and
  -- after a success no lock of the path is found; the other does nothing.
  pub execute_delete-execute_rmcol :
      (n : ℕ) (deleted : Bytes → Bool) (path : Bytes) (is_coll : Bool) (s : S)
      → store.count s < n
      → (r q : List (Request L) × S) × (execute_delete store n deleted (path, is_coll) s
          ≡ some (if is_coll then q else r))
        × (execute_rmcol store n deleted (path, is_coll) s ≡ some (if is_coll then r else q))
        × Deleted deleted path r
        × Refused s q
  unfolding execute_delete execute_rmcol
  execute_delete-execute_rmcol n deleted path true s h =
      (let k = delete_request-Deleted n deleted path s h in (k.0, ([], s), refl, k.1, k.2, refl))
  execute_delete-execute_rmcol n deleted path false s h =
      (let k = delete_request-Deleted n deleted path s h in (k.0, ([], s), k.1, refl, k.2, refl))
