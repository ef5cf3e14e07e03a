-- ===== src/Connection/Places.antt =====
-- Where a session is, without a heap: what `open`, `close` and `cd` do to it, and the strings that a
-- session owns there.
use cadaver.Common.{
  ◌>>=◌, ℕ, List, ◌<◌, ◌≡◌, ◌≢◌, ◌⊎◌, inl, inr, Bool, true, false, not, ◌&&◌, ◌||◌, ◌++◌, Option,
  none, some, ◌==◌, if◌then◌else◌,
}
use cadaver.Common.Text.{Bytes, codes, streq}
use cadaver.Connection.{Reply, Report, Server, check_address, scheme_calls}
use cadaver.Connection.Setup.{Call, Client, Settings}
use cadaver.Listing.{ResourceType, is_collection}
use cadaver.Neon.{Uri, Neon}
use cadaver.Session.{Session}
use cadaver.Session.Ownership.{Alone, Paired}

-- The previous collection: there is none, or its string, or a string that is freed already.
pub data Last : Type 0 where
  absent : Last
  kept : Bytes → Last
  freed : Last

-- A session without a connection, and whether `lastwp` is freed; or one at a collection.
pub data Place : Type 0 where
  away : Bool → Place
  at : Bytes → Last → Place

-- The previous collection of a session that is opened.
abbrev pub left : Bool → Last
left false = absent
left true = freed

-- What a close leaves; a freed string cannot be freed.
abbrev pub shut : Last → Option Bool
shut absent = some false
shut (kept previous) = some true
shut freed = none

abbrev pub leave : Place → Option Bool
leave (away d) = shut (left d)
leave (at current l) = shut l

abbrev pub with_slash : Neon → Bytes → Bytes
with_slash n path = if n.path_has_trailing_slash path then path else path ++ codes "/"

module _ (n : Neon) (c : Client) (o : Settings) (tolerant : Bool) where
  -- The collection that a URL opens, or what is said instead; `none` is a fault of `getrestype`.
  abbrev pub answer : Server → Bytes → Reply → Option (Report ⊎ Bytes)
  answer server path Reply.connect = some (inl Report.could_not_connect)
  answer server path Reply.lookup = some (inl Report.no_address)
  answer server path Reply.other = some (inl Report.could_not_open)
  answer server path (Reply.ok caps) =
      if not (server.class1 caps) && not tolerant
      then some (inl Report.no_class1)
      else (server.getrestype path >>= λ t.
          some (if is_collection t || tolerant then inr path else inl Report.not_webdav))

  abbrev pub reach : Server → Uri → (Report × List Call) ⊎ List Call → Option (Report ⊎ Bytes)
  reach server u (inl refused) = some (inl refused.0)
  reach server u (inr calls) =
      answer server (with_slash n u.path) (server.options2 u (with_slash n u.path))

  abbrev pub visit : Server → Report ⊎ Uri → Option (Report ⊎ Bytes)
  visit server (inl r) = some (inl r)
  visit server (inr u) = reach server u (scheme_calls c o server.has_ssl u)

  -- A URL that is not opened is closed once more.
  abbrev pub land : Bool → Report ⊎ Bytes → Option (Place × Report)
  land d (inl r) = shut (left d) >>= λ d. some (away d, r)
  land d (inr path) = some (at path (left d), Report.opened)

  abbrev pub open_at : Server → Bytes → Place → Option (Place × Report)
  open_at server url pl =
      leave pl >>= λ d. visit server (check_address n (server.uri_parse url)) >>= land d

module _ (tolerant : Bool) (resolve : Bytes → Bytes → Bytes)
    (getrestype : Bytes → Option ResourceType) where
  -- The previous collection has to be freed where the target is entered.
  abbrev pub entered : Bytes → Last → Bytes → ResourceType → Option Place
  entered current l target t =
      if is_collection t || tolerant
      then (shut l >>= λ d. some (at target (kept current)))
      else some (at current l)

  abbrev pub cd_back : Bytes → Last → Option Place
  cd_back current absent = some (at current absent)
  cd_back current (kept target) = getrestype target >>= λ t.
      some
        (if is_collection t || tolerant then at target (kept current) else at current (kept target))
  cd_back current freed = none

  abbrev pub cd_at : Bytes → Last → Bytes → Option Place
  cd_at current l name =
      if streq name (codes "-")
      then cd_back current l
      else (getrestype (resolve current name) >>= entered current l (resolve current name))

-- `lastwp` where it is no string: NULL, or a pointer that is not to `p` and was given out.
abbrev pub Trails : Session → ℕ → Bool → Type 0
Trails s p false = s.lastwp ≡ none
Trails s p true = (q : ℕ) × (s.lastwp ≡ some q) × (q < s.heap.next) × (p ≢ q)

-- The session owns its path only.
pub record Holds (s : Session) (current : Bytes) (d : Bool) : Type 0 where
  pub p : ℕ
  pub path : s.path ≡ some p
  pub below : p < s.heap.next
  pub trails : Trails s p d
  pub cells : (a : ℕ) → s.heap.cell a ≡ (if a == p then some current else none)

-- The session has no connection and owns no string.
pub record Away (s : Session) (d : Bool) : Type 0 where
  pub server : s.server ≡ none
  pub path : s.path ≡ none
  pub sess : s.sess ≡ false
  pub connected : s.connected ≡ false
  pub trails : Trails s s.heap.next d
  pub cells : (a : ℕ) → s.heap.cell a ≡ none

-- The session is at the place, and owns the strings of that place and no other.
abbrev pub Stands : Session → Place → Type 0
Stands s (away d) = Away s d
Stands s (at current absent) = Alone s current
Stands s (at current (kept previous)) = Paired s current previous
Stands s (at current freed) = Holds s current true × (s.connected ≡ true)
