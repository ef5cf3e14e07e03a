-- ===== src/CopyMove/Names.antt =====
-- The names that copied and moved resources get in a destination collection.
use cadaver.BaseName.{base_name-append, base_name-trailing, IsSegment, all_slashes, slash}
use cadaver.Common.{
  ℕ, ◌≡◌, ◌≢◌, refl, sym, ap, true, false, [], ◌∷◌, ◌++◌, append_assoc, append-nil, but_last-append,
}
use cadaver.Common.Text.{Bytes}
use cadaver.CopyMove.Plans.{Translates-translate}
use cadaver.CopyMove.{planned, root, translate}

nonempty_end : (dir : Bytes) (c : ℕ) (p : Bytes) → dir ++ slash ∷ (c ∷ p) ≢ root
nonempty_end [] c p h = cc
nonempty_end (x ∷ []) c p h = cc
nonempty_end (x ∷ y ∷ dir) c p h = cc

-- A resource that is not a collection keeps its last segment in the destination collection.
pub translate-resource :
    (dest dir seg : Bytes)
    → IsSegment seg
    → seg ≢ []
    → translate dest true (dir ++ slash ∷ seg, false)
      ≡ planned (record { src = dir ++ slash ∷ seg; dest = dest ++ seg })
translate-resource dest dir [] h ne = absurd (ne refl)
translate-resource dest dir (c ∷ seg) h ne = Translates-translate dest true _ _ (
  nonempty_end dir c seg,
  λ _. refl,
  refl,
  ap (◌++◌ dest) (sym (base_name-append dir (c ∷ seg) h ne)),
)

-- A collection keeps its last segment too, without the slash that ends its path.
pub translate-collection :
    (dest dir seg : Bytes)
    → IsSegment seg
    → seg ≢ []
    → translate dest true ((dir ++ slash ∷ seg) ++ slash ∷ [], true)
      ≡ planned (record { src = (dir ++ slash ∷ seg) ++ slash ∷ []; dest = dest ++ seg })
translate-collection dest dir [] h ne = absurd (ne refl)
translate-collection dest dir (c ∷ seg) h ne = Translates-translate dest true _ _ (
  rw append_assoc (nonempty_end dir c (seg ++ slash ∷ [])),
  λ _. refl,
  refl,
  rw (but_last-append (dir ++ slash ∷ (c ∷ seg)) slash)
      (ap (◌++◌ dest) (sym (base_name-append dir (c ∷ seg) h ne))),
)

-- A collection whose path ends in two slashes, and is not all slashes, is put onto the destination
-- collection itself and not into it.
pub translate-doubled_slash :
    (dest dir : Bytes)
    → all_slashes dir ≡ false
    → translate dest true ((dir ++ slash ∷ []) ++ slash ∷ [], true)
      ≡ planned (record { src = (dir ++ slash ∷ []) ++ slash ∷ []; dest = dest })
translate-doubled_slash dest dir h = Translates-translate dest true _ _ (
  rw append_assoc (nonempty_end dir slash []),
  λ _. refl,
  refl,
  rw (but_last-append (dir ++ slash ∷ []) slash)
      (rw (base_name-trailing dir h) (sym (append-nil dest))),
)
