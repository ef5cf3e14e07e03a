-- ===== src/Globbing/Tests.antt =====
-- Entries of a remote directory.
use cadaver.Common.{◌≡◌, refl, false, List, [], ◌∷◌, none, some, arith, map}
use cadaver.Common.Text.{Bytes, codes}
use cadaver.Credentials.Samples.{cut, length-cut}
use cadaver.Credentials.{Buffers}
use cadaver.Globbing.Entries.{Member, member_of, below, shown, read_all, davglob-entries}
use cadaver.Globbing.{Fetched, Errno, Opendir, DgCtx, davglob_opendir, davglob_readdir}
use cadaver.Listing.{ResourceType}
use cadaver.Neon.Samples.{plain, resource, site}
use cadaver.Resolve.{uri_resolve_native_coll}

abbrev buffers : Buffers
buffers = record { abufsiz = 256; strnzcpy = cut; strnzcpy_lem = length-cut }

abbrev file : Bytes → Member
file name = (name, name, resource [] ResourceType.resr_normal)

abbrev members : List Member
members =
    ([], [], resource [] ResourceType.resr_collection)
    ∷ (codes "sub/", codes "sub/", resource [] ResourceType.resr_collection)
    ∷ file (codes "a.txt")
    ∷ []

abbrev root : Bytes
root = uri_resolve_native_coll plain site (codes "dir")

abbrev listing : Bytes → Fetched
listing p = Fetched.fetched (map (member_of root) members)

denied : davglob_opendir plain site (λ p. Fetched.auth) (codes "dir") ≡ Opendir.refused Errno.eacces
unfolding davglob_opendir
denied = refl

entries :
    read_all buffers
      (λ p. some p)
      4
      (record {
        rootlen = 2;
        files = [];
        current =
            resource (codes "/d") ResourceType.resr_collection
            ∷ resource (codes "/dxy") ResourceType.resr_normal
            ∷ [];
      })
    ≡ some (record { d_name = codes "xy"; is_dir = false } ∷ [])
unfolding read_all davglob_readdir
entries = refl

-- A path that stands for no name is read through NULL.
null_name :
    read_all buffers
      (λ p. none)
      4
      (record {
        rootlen = 0;
        files = [];
        current = resource (codes "x") ResourceType.resr_normal ∷ [];
      })
    ≡ none
unfolding read_all davglob_readdir
null_name = refl

davglob-entries_example :
    (ctx : DgCtx) × (davglob_opendir plain site listing (codes "dir") ≡ Opendir.opened ctx)
    × (read_all buffers (λ p. some p) 4 ctx
        ≡ some (map (shown buffers (λ p. some p)) (below members)))
davglob-entries_example =
    davglob-entries buffers (λ p. some p) plain site listing (codes "dir") members 3 refl
      (refl, (refl, (refl, tt))) (omega arith)
