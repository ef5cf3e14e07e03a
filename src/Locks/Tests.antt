-- ===== src/Locks/Tests.antt =====
-- Runs of the lock commands on a store that is a list, and instances of their theorems.
use cadaver.Common.{
  ◌<◌, ◌≡◌, refl, true, false, List, [], ◌∷◌, Option, none, some, arith, length, if◌then◌else◌,
}
use cadaver.Common.Text.{Bytes, codes, streq, streq_refl}
use cadaver.Locks.{Lockstore, Request, remove_locks, execute_delete, execute_rmcol}
use cadaver.Locks.Discovery.{Discovered, LockLine, execute_steal}
use cadaver.Locks.Removal.{execute_delete-execute_rmcol, Deleted, Refused}

-- Locks by their paths; a lock is the path.
abbrev find : Bytes → List Bytes → Option Bytes
find p [] = none
find p (l ∷ s) = if streq p l then some l else find p s

abbrev drop : Bytes → List Bytes → List Bytes
drop l [] = []
drop l (m ∷ s) = if streq l m then s else m ∷ drop l s

drop-length : (p l : Bytes) (s : List Bytes) → find p s ≡ some l → length (drop l s) < length s
drop-length p l [] e = absurd (some_none e)
  where
    some_none : {A : Type 0} {a : A} → none ≡ some a → ⊥
    some_none e = ground arith
drop-length p l (m ∷ s) e = ground (arith, drop-length p l s, streq_refl l)

abbrev paths : Lockstore (List Bytes) Bytes
paths = record {
  findbyuri = find;
  add = λ l s. l ∷ s;
  remove = drop;
  count = length;
  remove_lem = drop-length;
}

abbrev two : List Bytes
two = codes "/a" ∷ codes "/b" ∷ codes "/a" ∷ []

execute_delete-execute_rmcol_example :
    (r q : List (Request Bytes) × List Bytes) × (execute_delete paths 4
        (λ p. true)
        (codes "/a", false)
        two
      ≡ some r)
    × (execute_rmcol paths 4 (λ p. true) (codes "/a", false) two ≡ some q)
    × Deleted paths (λ p. true) (codes "/a") r
    × Refused paths two q
execute_delete-execute_rmcol_example =
    execute_delete-execute_rmcol paths 4 (λ p. true) (codes "/a") false two (omega arith)

-- A lock of a member of a collection stays when the collection is deleted.
member_stays :
    execute_rmcol paths 4 (λ p. true) (codes "/d/", true) (codes "/d/x" ∷ [])
    ≡ some (Request.ne_delete (codes "/d/") ∷ [], codes "/d/x" ∷ [])
unfolding execute_rmcol remove_locks streq
member_stays = refl

steal_two :
    execute_steal paths true
      (Discovered.lock (codes "/a") ∷ Discovered.failure (codes "/b") 403 [] ∷ [])
      []
    ≡ (
      LockLine.blank ∷ LockLine.stolen (codes "/a") ∷ LockLine.failed_on (codes "/b") 403 [] ∷ [],
      codes "/a" ∷ [],
    )
unfolding execute_steal
steal_two = refl
