-- ===== src/Locks.antt =====
-- The commands of src/commands.c that keep the list of locks: `lock`, `unlock`, `rm` and `rmcol`, and in
-- Discovery those that show it.
pub mod Removal
pub mod Discovery
mod Tests
use cadaver.Common.{
  ◌>>=◌, ℕ, zero, suc, ◌<◌, ◌≡◌, Bool, true, false, not, List, [], ◌∷◌, Option, none, some,
  if◌then◌else◌,
}
use cadaver.Common.Text.{Bytes}
use cadaver.Options.{LockScope, Depth}

-- What a lock is asked for with.
pub record LockRequest : Type 0 where
  pub path : Bytes
  pub scope : LockScope
  pub depth : Depth

-- The lock store of neon, by paths on the server of the session.
pub record Lockstore (S L : Type 0) : Type 0 where
  -- `ne_lockstore_findbyuri`, `ne_lockstore_add`, `ne_lockstore_remove`.
  pub findbyuri : Bytes → S → Option L
  pub add : L → S → S
  pub remove : L → S → S
  pub count : S → ℕ
  -- "Remove a lock from the store": what is found can be removed.
  pub remove_lem :
      (p : Bytes) (l : L) (s : S) → findbyuri p s ≡ some l → count (remove l s) < count s

pub data Request (L : Type 0) : Type 0 where
  ne_delete : Bytes → Request L
  ne_lock : LockRequest → Request L
  ne_unlock : L → Request L

module _ {S L : Type 0} (store : Lockstore S L) where
  -- The loop, on fuel. The depth is not looked at.
  unfoldable pub remove_locks : ℕ → Bytes → S → Option S
  remove_locks zero p s = none
  remove_locks (suc n) p s = elim (store.findbyuri p s) [
    | none ↦ some s
    | some lk ↦ remove_locks n p (store.remove lk s)
  ]

  -- A DELETE, and the locks that go with it; `deleted` says whether it succeeds.
  abbrev pub delete_request : ℕ → (Bytes → Bool) → Bytes → S → Option (List (Request L) × S)
  delete_request n deleted path s = do
    s' ← (if deleted path then remove_locks n path s else some s)
    some (ne_delete path ∷ [], s')

  unfoldable pub execute_delete :
      ℕ → (Bytes → Bool) → Bytes × Bool → S → Option (List (Request L) × S)
  execute_delete n deleted r s = if r.1 then some ([], s) else delete_request n deleted r.0 s

  unfoldable pub execute_rmcol :
      ℕ → (Bytes → Bool) → Bytes × Bool → S → Option (List (Request L) × S)
  execute_rmcol n deleted r s = if not r.1 then some ([], s) else delete_request n deleted r.0 s

  abbrev pub requested : LockScope → Depth → Bytes × Bool → LockRequest
  requested lockscope lockdepth r = record {
    path = r.0;
    scope = lockscope;
    depth = if r.1 then lockdepth else Depth.depth_zero;
  }

  abbrev pub stored : Option L → S → S
  stored none s = s
  stored (some lk) s = store.add lk s

  -- `granted` is the lock that the server grants, if it does.
  unfoldable pub execute_lock :
      LockScope → Depth → (LockRequest → Option L) → Bytes × Bool → S → List (Request L) × S
  execute_lock lockscope lockdepth granted r s =
      (let q = requested lockscope lockdepth r in (ne_lock q ∷ [], stored (granted q) s))

  abbrev pub unlock_typed : Option L → S → List (Request L) × S
  unlock_typed none s = ([], s)
  unlock_typed (some lk) s = (ne_unlock lk ∷ [], s)

  -- Where no lock is found, `typed` is the lock for the token that the user types, if one is typed.
  -- A lock that is found leaves the store whether the server unlocks or not.
  unfoldable pub execute_unlock : Option L → Bytes → S → List (Request L) × S
  execute_unlock typed path s = elim (store.findbyuri path s) [
    | none ↦ unlock_typed typed s
    | some lk ↦ (ne_unlock lk ∷ [], store.remove lk s)
  ]
