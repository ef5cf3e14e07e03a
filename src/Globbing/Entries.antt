-- ===== src/Globbing/Entries.antt =====
-- All the entries that lib/glob reads of a directory.
use cadaver.Common.{
  ◌>>=◌, ℕ, zero, suc, ◌≤◌, ◌≡◌, refl, true, false, List, [], ◌∷◌, ◌++◌, Option, none, some, arith,
  leb, length, length-append, append-nil, map,
}
use cadaver.Common.Text.{Bytes}
use cadaver.Completion.{skip}
use cadaver.Credentials.{Buffers}
use cadaver.Globbing.{
  Fetched, fetched, opened, DgCtx, Dirent, Read, davglob_opendir, davglob_readdir, read_from,
}
use cadaver.Listing.{Resource, is_collection}
use cadaver.Neon.{Neon}
use cadaver.Resolve.{Site, uri_resolve_native_coll}

-- A member of a collection: its path below the collection's, the name that this stands for, and the
-- resource.
abbrev pub Member : Type 0
Member = Bytes × Bytes × Resource

-- The resource of a member of the collection `root`.
abbrev pub member_of : Bytes → Member → Resource
member_of root (segment, name, r) = record r { uri = root ++ segment }

-- The members that are not the collection itself.
abbrev pub below : List Member → List Member
below [] = []
below (([], name, r) ∷ ms) = below ms
below ((c ∷ segment, name, r) ∷ ms) = (c ∷ segment, name, r) ∷ below ms

skip-append : (root p : Bytes) → skip (length root) (root ++ p) ≡ p
skip-append [] p = refl
skip-append (c ∷ root) p = skip-append root p

leb_refl : (n : ℕ) → leb n n ≡ true
leb_refl n = ground arith

-- What has a segment below the root is longer than the root.
longer :
    (root : Bytes) (c : ℕ) (segment : Bytes)
    → leb (length (root ++ c ∷ segment)) (length root) ≡ false
longer root c segment = ground (arith, length-append root (c ∷ segment))

module _ (b : Buffers) (native : Bytes → Option Bytes) where
  abbrev pub shown : Member → Dirent
  shown (segment, name, r) = record { d_name = b.strnzcpy name 255; is_dir = is_collection r.type }

  -- What is read until the NULL.
  abbrev pub then_read : (DgCtx → Option (List Dirent)) → Option Read → Option (List Dirent)
  then_read next none = none
  then_read next (some r) = elim r.entry [
    | none ↦ some []
    | some e ↦ next r.ctx >>= λ rest. some (e ∷ rest)
  ]

  unfoldable pub read_all : ℕ → DgCtx → Option (List Dirent)
  read_all zero ctx = none
  read_all (suc fuel) ctx = then_read (read_all fuel) (davglob_readdir b native ctx)

  -- Every member has the name that its path stands for.
  abbrev pub Named : List Member → Type 0
  Named [] = Unit
  Named ((segment, name, r) ∷ ms) = (native segment ≡ some name) × Named ms

  next_lem :
      (e : Dirent) (ctx : DgCtx) (fuel : ℕ) (rest : List Dirent)
      → then_read (read_all fuel) (read_from b native ctx ctx.current) ≡ some rest
      → then_read (read_all (suc fuel)) (some (record { entry = some e; ctx = ctx }))
        ≡ some (e ∷ rest)
  unfolding read_all davglob_readdir
  next_lem e ctx fuel rest h = rw h refl

  module _ (root : Bytes) (files : List Resource) where
    abbrev at_current : List Resource → DgCtx
    at_current current = record { rootlen = length root; files = files; current = current }

    read_from-shown :
        (current : List Resource) (ms : List Member) (fuel : ℕ)
        → Named ms
        → length ms ≤ fuel
        → then_read
            (read_all fuel)
            (read_from b native (at_current current) (map (member_of root) ms))
          ≡ some (map shown (below ms))
    unfolding read_from
    read_from-shown current [] fuel h l = refl
    read_from-shown current (([], name, r) ∷ ms) fuel h l =
        rw (append-nil root)
          (rw (leb_refl (length root)) (read_from-shown current ms fuel h.1 (omega (arith, l))))
    read_from-shown current ((c ∷ segment, name, r) ∷ ms) zero h l = absurd (omega arith)
    read_from-shown current ((c ∷ segment, name, r) ∷ ms) (suc fuel) h l =
        rw (longer root c segment) (
          rw (skip-append root (c ∷ segment)) (
            rw h.0 (
              next_lem (shown (c ∷ segment, name, r)) (at_current (map (member_of root) ms)) fuel _
                (read_from-shown (map (member_of root) ms) ms fuel h.1 (omega (arith, l))))))

  opens_lem :
      (n : Neon) (s : Site) (fetch : Bytes → Fetched) (dir : Bytes) (files : List Resource)
      → fetch (uri_resolve_native_coll n s dir) ≡ fetched files
      → davglob_opendir n s fetch dir
        ≡ opened (at_current (uri_resolve_native_coll n s dir) files files)
  unfolding davglob_opendir uri_resolve_native_coll
  opens_lem n s fetch dir files e = rw (e, davglob_opendir) refl

  -- What lib/glob reads of a directory on the server, until the NULL: the names of its members in
  -- order, each with
  -- whether it is a collection, less the directory itself. The names are those that the paths below
  -- the directory stand for, cut to the size of an entry.
  pub davglob-entries :
      (n : Neon) (s : Site) (fetch : Bytes → Fetched) (dir : Bytes) (ms : List Member) (fuel : ℕ)
      → fetch (uri_resolve_native_coll n s dir)
        ≡ fetched (map (member_of (uri_resolve_native_coll n s dir)) ms)
      → Named ms
      → length ms ≤ fuel
      → (ctx : DgCtx) × (davglob_opendir n s fetch dir ≡ opened ctx)
        × (read_all (suc fuel) ctx ≡ some (map shown (below ms)))
  davglob-entries n s fetch dir ms fuel e h l = (
    at_current root files files,
    opens_lem n s fetch dir files e,
    unfold read_all in unfold davglob_readdir in read_from-shown root files files ms fuel h l,
  )
    where
      root : Bytes
      root = uri_resolve_native_coll n s dir

      files : List Resource
      files = map (member_of root) ms
