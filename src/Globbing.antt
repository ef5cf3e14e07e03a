-- ===== src/Globbing.antt =====
-- The directory functions of src/cmdline.c that the pattern expansion of lib/glob calls for remote
-- paths: `davglob_opendir`, `davglob_readdir` and `davglob_stat`.
pub mod Entries
mod Tests
use cadaver.Common.{
  ◌>>=◌, ℕ, zero, suc, ◌+◌, Bool, true, false, List, [], ◌∷◌, ◌++◌, Option, none, some, leb,
  if◌then◌else◌, length,
}
use cadaver.Common.Text.{Bytes}
use cadaver.Completion.{skip}
use cadaver.Credentials.{Buffers}
use cadaver.Listing.{ResourceType, Resource, is_collection}
use cadaver.Neon.{Neon}
use cadaver.Resolve.{Site, getrestype, uri_resolve_native_coll}

-- What `fetch_resource_list` returns for a collection and its members.
pub data Fetched : Type 0 where
  fetched : List Resource → Fetched
  auth failed : Fetched

-- The two values of `errno`.
pub data Errno : Type 0 where
  eacces enoent : Errno

-- `struct dg_ctx`; the entry is a result of its own.
pub record DgCtx : Type 0 where
  pub rootlen : ℕ
  pub files : List Resource
  pub current : List Resource

pub data Opendir : Type 0 where
  opened : DgCtx → Opendir
  refused : Errno → Opendir

unfoldable pub davglob_opendir : Neon → Site → (Bytes → Fetched) → Bytes → Opendir
davglob_opendir n s fetch dir =
    let uri_path = uri_resolve_native_coll n s dir in
    elim (fetch uri_path) [
      | fetched files ↦
          opened (record { rootlen = length uri_path; files = files; current = files })
      | auth ↦ refused eacces
      | failed ↦ refused enoent
    ]

-- `struct dirent`.
pub record Dirent : Type 0 where
  pub d_name : Bytes
  pub is_dir : Bool

-- An entry, or NULL at the end; in both cases with the context after the call.
pub record Read : Type 0 where
  pub entry : Option Dirent
  pub ctx : DgCtx

-- `native` is `native_path_from_uri`, with `none` for its NULL; the copy of that is a fault.
module _ (b : Buffers) (native : Bytes → Option Bytes) where
  abbrev pub entry_of : ℕ → Resource → Option Dirent
  entry_of rootlen r = do
    segment ← native (skip rootlen r.uri)
    some (record { d_name = b.strnzcpy segment 255; is_dir = is_collection r.type })

  -- The loop over what is not below the root, and the entry behind it.
  unfoldable pub read_from : DgCtx → List Resource → Option Read
  read_from ctx [] = some (record { entry = none; ctx = record ctx { current = [] } })
  read_from ctx (r ∷ rest) =
      let later = read_from ctx rest in
      if leb (length r.uri) ctx.rootlen then later else (do
        e ← entry_of ctx.rootlen r
        some (record { entry = some e; ctx = record ctx { current = rest } }))

  unfoldable pub davglob_readdir : DgCtx → Option Read
  unfolding read_from
  davglob_readdir ctx = read_from ctx ctx.current

-- Whether the mode is that of a directory; `none` is the fault of `getrestype`.
unfoldable pub davglob_stat : Neon → Site → Bytes → Option Bool
davglob_stat n s filename = do
  t ← getrestype n s (uri_resolve_native_coll n s filename)
  some (is_collection t)
