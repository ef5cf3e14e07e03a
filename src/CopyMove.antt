-- ===== src/CopyMove.antt =====
-- Copies and moves, src/commands.c: `do_copymove` plans all the operations and then makes the
-- requests; `execute_rename` makes one.
pub mod Plans
pub mod Names
mod Tests
use cadaver.BaseName.{base_name}
use cadaver.Common.{
  ℕ, ◌≡◌, Bool, true, false, not, ◌&&◌, List, [], ◌∷◌, ◌++◌, map, Option, none, some, if◌then◌else◌,
  but_last, last_or,
}
use cadaver.Common.Text.{Bytes, codes, streq}
use cadaver.Neon.{Neon}
use cadaver.Resolve.{Site, uri_resolve_native, uri_resolve_native_true}

-- The two errors that are reported.
pub data Refusal : Type 0 where
  server_root : Refusal
  onto_non_collection : Bytes → Bytes → Refusal

-- `fault` is the NULL that `getrestype` may read through.
pub data Plan {ℓ} (A : Type ℓ) : Type ℓ where
  planned : A → Plan A
  refused : Refusal → Plan A
  fault : Plan A

infixl 5 ◌>>=◌
abbrev pub ◌>>=◌ {ℓ κ} : {A : Type ℓ} {B : Type κ} → Plan A → (A → Plan B) → Plan B
planned a >>= f = f a
refused e >>= f = refused e
fault >>= f = fault

-- An element of `ops`.
pub record Op : Type 0 where
  pub src : Bytes
  pub dest : Bytes

abbrev pub root : Bytes
root = b'/' ∷ []

-- The chain of tests in the loop, on the resolved paths.
unfoldable pub translate : Bytes → Bool → Bytes × Bool → Plan Op
unfolding streq
translate dest dest_is_coll (src, src_is_coll) =
    if streq src root
    then refused server_root
    else if dest_is_coll && src_is_coll
    then planned (record { src = src; dest = dest ++ base_name (but_last src) })
    else if src_is_coll && not dest_is_coll
    then refused (onto_non_collection src dest)
    else if dest_is_coll
    then planned (record { src = src; dest = dest ++ base_name src })
    else planned (record { src = src; dest = dest })

abbrev pub resolved : Option (Bytes × Bool) → Plan (Bytes × Bool)
resolved none = fault
resolved (some r) = planned r

-- `NE_DEPTH_INFINITE` is the depth of every copy.
pub data Request : Type 0 where
  ne_move ne_copy : Bool → Bytes → Bytes → Request

-- The second loop: the callback on each operation, if there was no error.
abbrev pub perform : (Op → Request) → Plan (List Op) → List Request
perform cb (planned ops) = map cb ops
perform cb _ = []

-- `resolve` is `uri_resolve_native_true` on the server as it is while the plan is made.
module _ (resolve : Bytes → Option (Bytes × Bool)) where
  -- The first loop.
  unfoldable pub build : Bytes → Bool → List Bytes → Plan (List Op)
  unfolding translate
  build dest dest_is_coll [] = planned []
  build dest dest_is_coll (arg ∷ args) = do
    r ← resolved (resolve arg)
    op ← translate dest dest_is_coll r
    ops ← build dest dest_is_coll args
    planned (op ∷ ops)

  -- The last argument is the destination.
  unfoldable pub do_copymove : List Bytes → Plan (List Op)
  unfolding build
  do_copymove argv = do
    dest ← resolved (resolve (last_or argv []))
    build dest.0 dest.1 (but_last argv)

-- `overwrite` is the option of that name.
unfoldable pub simple_move : Bool → Op → Request
simple_move overwrite op = ne_move overwrite op.src op.dest

unfoldable pub simple_copy : Bool → Op → Request
simple_copy overwrite op = ne_copy overwrite op.src op.dest

-- The requests that a command sends, in order.
unfoldable pub multi_move : Neon → Site → Bool → List Bytes → List Request
unfolding do_copymove simple_move
multi_move n s overwrite argv =
    perform (simple_move overwrite) (do_copymove (uri_resolve_native_true n s) argv)

unfoldable pub multi_copy : Neon → Site → Bool → List Bytes → List Request
unfolding do_copymove simple_copy
multi_copy n s overwrite argv =
    perform (simple_copy overwrite) (do_copymove (uri_resolve_native_true n s) argv)

abbrev pub rename_resolved : Neon → Bytes → Option (Bytes × Bool) → List Request
rename_resolved n uri_dest none = []
rename_resolved n uri_dest (some (uri_src, src_is_coll)) =
    if not src_is_coll && n.path_has_trailing_slash uri_dest
    then []
    else ne_move false uri_src uri_dest ∷ []

unfoldable pub execute_rename : Neon → Site → Bytes → Bytes → List Request
execute_rename n s native_src native_dest =
    rename_resolved n (uri_resolve_native n s native_dest) (uri_resolve_native_true n s native_src)
