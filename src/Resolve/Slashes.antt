-- ===== src/Resolve/Slashes.antt =====
-- What the resolution of a path promises: the type that it reports is the server's answer about
-- the path that it returns, and collections end in a slash.
use cadaver.Common.{
  ◌≡◌, refl, ◌↔◌, ◌⊎◌, inl, inr, Bool, true, false, not, ◌&&◌, [], ◌∷◌, ◌++◌, Option, none, some,
  if◌then◌else◌, arith, Bool-cases,
}
use cadaver.Common.Text.{Bytes}
use cadaver.Listing.{ResourceType, is_collection}
use cadaver.Neon.{Uri, Neon, ends_with_slash}
use cadaver.Resolve.{
  Site, getrestype, add_slash, own_uri, follows, finish_true, redirected, uri_resolve_native,
  uri_resolve_native_true,
}

pub ends_with_slash-append : (p : Bytes) → ends_with_slash (p ++ b'/' ∷ []) ≡ true
ends_with_slash-append [] = refl
ends_with_slash-append (c ∷ []) = refl
ends_with_slash-append (c ∷ d ∷ p) = ends_with_slash-append (d ∷ p)

pub add_slash-ends : (n : Neon) (p : Bytes) → ends_with_slash (add_slash n p) ≡ true
add_slash-ends n p = elim (Bool-cases (n.path_has_trailing_slash p)) [
  | inl e ↦ rw e (ground (arith, n.trailing_slash_lem p))
  | inr e ↦ rw e (ends_with_slash-append p)
]

-- The path asked for, or where the server redirects it on itself.
abbrev pub Origin : Neon → Site → Bytes → Bytes → Type 0
Origin n s uri_path q =
    (q ≡ uri_path)
    ⊎ ((redir : Uri) × ((s.fetch uri_path).location ≡ some redir)
        × (q ≡ redir.path)
        × (n.uri_cmp redir (own_uri n s redir.path) ≡ true))

-- How a returned path `p` and its flag come from the server's answer about `q`.
pub record Answered (n : Neon) (s : Site) (uri_path p : Bytes) (collection : Bool) : Type 0 where
  pub q : Bytes
  pub type : ResourceType
  pub answer : getrestype n s q ≡ some type
  pub flag : collection ≡ is_collection type
  pub path : p ≡ (if collection then add_slash n q else q)
  pub origin : Origin n s uri_path q

module _ (n : Neon) (s : Site) where
  finish_true-Answered :
      (u q : Bytes) (o : Option ResourceType) {p : Bytes} {collection : Bool}
      → getrestype n s q ≡ o
      → Origin n s u q
      → finish_true n q o ≡ some (p, collection)
      → Answered n s u p collection
  finish_true-Answered u q none e from h = cc
  finish_true-Answered u q (some t) e from h = record {
    q = q;
    type = t;
    answer = e;
    flag = cc;
    path = ground arith;
    origin = from;
  }

  redirected-Answered :
      (u : Bytes) (o : Option ResourceType) {p : Bytes} {collection : Bool}
      → getrestype n s u ≡ o
      → redirected n s u o ≡ some (p, collection)
      → Answered n s u p collection
  redirected-Answered u none e h = cc
  redirected-Answered u (some t) {p} {collection} e h =
      go (s.fetch u).location refl
        (Bool-cases (not (is_collection t) && follows n s (s.fetch u).location))
    where
      go :
          (l : Option Uri)
          → (s.fetch u).location ≡ l
          → ((not (is_collection t) && follows n s (s.fetch u).location) ≡ true)
            ⊎ ((not (is_collection t) && follows n s (s.fetch u).location) ≡ false)
          → Answered n s u p collection
      go none l (inl b) = ground arith
      go (some redir) l (inl b) =
          finish_true-Answered u redir.path (getrestype n s redir.path) refl
            (inr (redir, l, refl, ground arith)) (ground arith)
      go _ l (inr b) = finish_true-Answered u u (some t) e (inl refl) (ground arith)

  -- The flag is the server's answer about the returned path, which is the one asked for or that of
  -- a redirection on the same server.
  pub true-Answered :
      (path : Bytes) {p : Bytes} {collection : Bool}
      → uri_resolve_native_true n s path ≡ some (p, collection)
      → Answered n s (uri_resolve_native n s path) p collection
  unfolding uri_resolve_native_true
  true-Answered path = redirected-Answered (uri_resolve_native n s path) _ refl

  -- A slash ends the path of every resource that is reported as a collection.
  pub true-ends_with_slash :
      (path : Bytes) {p : Bytes}
      → uri_resolve_native_true n s path ≡ some (p, true)
      → ends_with_slash p ≡ true
  true-ends_with_slash path h = let a = true-Answered path h in rw a.path (add_slash-ends n a.q)

  -- The only way to a read through NULL is an answer with no resource in it.
  pub getrestype_fault :
      (uri_path : Bytes) → (getrestype n s uri_path ≡ none) ↔ ((s.fetch uri_path).list ≡ some [])
  unfolding getrestype
  getrestype_fault uri_path = (λ h. ground arith, λ h. ground arith)
