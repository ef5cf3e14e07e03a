-- ===== src/Listing/Contents.antt =====
-- A listing loses and invents nothing.
use mathlib.Core.List.{Perm, perm_middle}
use mathlib.Core.List.Perm
use cadaver.Common.{ℕ, append-nil, Bool, true, false, List, [], ◌∷◌, ◌++◌, if_cases, if◌then◌else◌}
use cadaver.Common.Text.{Bytes}
use cadaver.Listing.{
  Resource, stops_at, compare_resource, insert, Response, results, collect, newres, skipped,
}

insert-perm : (r : Resource) (l : List Resource) → Perm (insert r l) (r ∷ l)
unfolding insert
insert-perm r [] = Perm.refl (r ∷ [])
insert-perm r (x ∷ l) =
    if_cases (λ m. Perm m (r ∷ x ∷ l)) (stops_at (compare_resource x r))
      (λ _. Perm.refl (r ∷ x ∷ l))
      (λ _. Perm.trans (Perm.cons x (insert-perm r l)) (Perm.swap r x l))

kept-perm :
    (skip : Bool) (r : Resource) (l rest : List Resource)
    → Perm ((if skip then l else insert r l) ++ rest) (l ++ (if skip then rest else r ∷ rest))
kept-perm true r l rest = Perm.refl (l ++ rest)
kept-perm false r l rest =
    Perm.trans (Perm.append_right rest (insert-perm r l)) (Perm.symm (perm_middle l rest))

module _ (strtol : Bytes → ℕ × Bytes) (httpdate : Bytes → ℕ)
    (path_compare : Bytes → Bytes → Bool) where
  -- The resources of the responses that are not skipped, in the server's order.
  abbrev pub reported : Bytes → Bool → List Response → List Resource
  reported target include_target [] = []
  reported target include_target (r ∷ rs) =
      if skipped strtol httpdate path_compare target include_target r
      then reported target include_target rs
      else newres strtol httpdate path_compare r ∷ reported target include_target rs

  collect-perm_onto :
      (target : Bytes) (include_target : Bool) (l : List Resource) (rs : List Response)
      → Perm
          (collect strtol httpdate path_compare target include_target l rs)
          (l ++ reported target include_target rs)
  unfolding collect
  collect-perm_onto target inc l [] = rw append-nil (Perm.refl l)
  collect-perm_onto target inc l (r ∷ rs) =
      let skip = skipped strtol httpdate path_compare target inc r in
      Perm.trans
        (collect-perm_onto target inc (results strtol httpdate path_compare target inc l r) rs)
        (kept-perm skip (newres strtol httpdate path_compare r) l (reported target inc rs))

  -- The list is a rearrangement of the resources reported, less the target where it is not wanted.
  pub collect-perm :
      (target : Bytes) (include_target : Bool) (rs : List Response)
      → Perm
          (collect strtol httpdate path_compare target include_target [] rs)
          (reported target include_target rs)
  collect-perm target include_target rs = collect-perm_onto target include_target [] rs
