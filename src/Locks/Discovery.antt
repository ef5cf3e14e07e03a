-- ===== src/Locks/Discovery.antt =====
-- `discover`, `steal` and `showlocks` of src/commands.c: the locks that the server reports of a path,
-- and those of the store.
use cadaver.Common.{
  ℕ, ◌+◌, ◌≡◌, ◌∙◌, refl, Bool, true, false, List, [], ◌∷◌, ◌++◌, ◌==◌, if◌then◌else◌,
}
use cadaver.Common.Text.{Bytes}
use cadaver.Locks.{Lockstore}

-- What one call of the callback is given: a lock, or the status of a failure.
pub data Discovered (L : Type 0) : Type 0 where
  lock : L → Discovered L
  failure : Bytes → ℕ → Bytes → Discovered L

pub data LockLine (L : Type 0) : Type 0 where
  -- The line break before the first lock.
  blank : LockLine L
  printed : L → LockLine L
  stolen : L → LockLine L
  failed_on : Bytes → ℕ → Bytes → LockLine L
  no_locks : LockLine L
  no_owned_locks : LockLine L
  failed : LockLine L

module _ {S L : Type 0} (store : Lockstore S L) where
  -- The lines, the count and the store.
  abbrev pub Found : Type 0
  Found = List (LockLine L) × ℕ × S

  abbrev pub first_blank : ℕ → List (LockLine L)
  first_blank count = if count == 0 then blank ∷ [] else []

  abbrev pub discover_result : Discovered L → Found → Found
  discover_result (lock l) (lines, count, s) =
      (lines ++ first_blank count ++ printed l ∷ [], count + 1, s)
  discover_result (failure uri code reason) (lines, count, s) =
      (lines ++ failed_on uri code reason ∷ [], count, s)

  abbrev pub steal_result : Discovered L → Found → Found
  steal_result (lock l) (lines, count, s) =
      (lines ++ first_blank count ++ stolen l ∷ [], count + 1, store.add l s)
  steal_result (failure uri code reason) (lines, count, s) =
      (lines ++ failed_on uri code reason ∷ [], count, s)

  -- The calls that `ne_lock_discover` makes.
  abbrev pub each : (Discovered L → Found → Found) → List (Discovered L) → Found → Found
  each result_cb [] f = f
  each result_cb (d ∷ ds) f = each result_cb ds (result_cb d f)

  -- What is said after a request that succeeds, where none was found and where some were.
  abbrev pub told : Bool → Found → List (LockLine L) × S
  told true (lines, count, s) = (lines ++ no_locks ∷ [], s)
  told false (lines, count, s) = (lines, s)

  abbrev pub discovered : Bool → Found → List (LockLine L) × S
  discovered true (lines, count, s) = told (count == 0) (lines, count, s)
  discovered false (lines, count, s) = (lines ++ failed ∷ [], s)

  unfoldable pub do_discover :
      (Discovered L → Found → Found) → Bool → List (Discovered L) → S → List (LockLine L) × S
  do_discover result_cb ok ds s = discovered ok (each result_cb ds ([], 0, s))

  unfoldable pub execute_discover : Bool → List (Discovered L) → S → List (LockLine L) × S
  unfolding do_discover
  execute_discover ok ds s = do_discover discover_result ok ds s

  unfoldable pub execute_steal : Bool → List (Discovered L) → S → List (LockLine L) × S
  unfolding do_discover
  execute_steal ok ds s = do_discover steal_result ok ds s

  abbrev pub all_printed : List L → List (LockLine L)
  all_printed [] = []
  all_printed (l ∷ ls) = printed l ∷ all_printed ls

  -- The locks are those that `ne_lockstore_first` and `ne_lockstore_next` give.
  unfoldable pub execute_showlocks : List L → List (LockLine L)
  execute_showlocks [] = no_owned_locks ∷ []
  execute_showlocks (l ∷ ls) = printed l ∷ all_printed ls

  -- The locks that the server reports, and the store with all of them.
  abbrev pub locks_of : List (Discovered L) → List L
  locks_of [] = []
  locks_of (lock l ∷ ds) = l ∷ locks_of ds
  locks_of (failure uri code reason ∷ ds) = locks_of ds

  abbrev pub add_all : List L → S → S
  add_all [] s = s
  add_all (l ∷ ls) s = add_all ls (store.add l s)

  told-store : (b : Bool) (f : Found) → (told b f).1 ≡ f.2
  told-store true f = refl
  told-store false f = refl

  discovered-store : (ok : Bool) (f : Found) → (discovered ok f).1 ≡ f.2
  discovered-store true f = told-store (f.1 == 0) f
  discovered-store false f = refl

  each-steal_result :
      (ds : List (Discovered L)) (f : Found)
      → (each steal_result ds f).2 ≡ add_all (locks_of ds) f.2
  each-steal_result [] f = refl
  each-steal_result (lock l ∷ ds) (lines, count, s) = each-steal_result ds _
  each-steal_result (failure uri code reason ∷ ds) (lines, count, s) = each-steal_result ds _

  each-discover_result :
      (ds : List (Discovered L)) (f : Found) → (each discover_result ds f).2 ≡ f.2
  each-discover_result [] f = refl
  each-discover_result (lock l ∷ ds) (lines, count, s) = each-discover_result ds _
  each-discover_result (failure uri code reason ∷ ds) (lines, count, s) = each-discover_result ds _

  -- `steal` adds each lock that the server reports to the store, in their order and also where the
  -- request fails in the end; `discover` leaves the store as it is.
  execute_steal-add_all :
      (ok : Bool) (ds : List (Discovered L)) (s : S)
      → ((execute_steal ok ds s).1 ≡ add_all (locks_of ds) s) × ((execute_discover ok ds s).1 ≡ s)
  unfolding execute_steal execute_discover
  execute_steal-add_all ok ds s = (
    discovered-store ok (each steal_result ds ([], 0, s)) ∙ each-steal_result ds ([], 0, s),
    discovered-store ok (each discover_result ds ([], 0, s)) ∙ each-discover_result ds ([], 0, s),
  )
