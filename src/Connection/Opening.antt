-- ===== src/Connection/Opening.antt =====
-- What `open_connection` does to a session at a place.
use cadaver.Common.{
  bind_lem, ◌>>=◌, ℕ, ◌<◌, ◌≡◌, ◌∙◌, ◌⊎◌, inl, inr, refl, sym, subst, ap, Bool, true, false, not,
  ◌&&◌, ◌||◌, List, [], ◌∷◌, ◌++◌, Option, none, some, arith, if◌then◌else◌, Bool-cases,
}
use cadaver.Common.Text.{Bytes, codes}
use cadaver.Connection.{
  Address, Reply, Report, Server, Opened, fail, store_path, replace_path, terminated, parts,
  check_address, scheme_calls, settle, on_options, contact, proceed, open_connection,
}
use cadaver.Connection.Closing.{
  Leaves, close_connection-Holds, close_connection-Away, close_connection-Leaves,
}
use cadaver.Connection.Places.{
  Place, leave, left, shut, land, with_slash, answer, reach, visit, open_at, Trails, Holds, Away,
  Stands,
}
use cadaver.Connection.Setup.{Call, Client, Settings, configure}
use cadaver.Listing.{ResourceType, is_collection}
use cadaver.Neon.{Uri, Neon}
use cadaver.Session.{Session, alloc, close_connection, free, put, set_path}
use cadaver.Session.Ownership.{free_lem}
use Place.{away, at}

-- A result on the heap that stands for one of places; `none` is a fault on both sides.
abbrev pub Opens : Option Opened → Option (Place × Report) → Type 0
Opens r none = r ≡ none
Opens r (some (pl, report)) =
    (o : Opened) × (r ≡ some o) × (o.report ≡ report) × Stands o.session pl

fail-Opens :
    (r : Report) (calls : List Call) (s : Session) (d : Option Bool)
    → Leaves (close_connection s) d
    → Opens (fail r calls s) (d >>= λ d. some (away d, r))
fail-Opens r calls s none l =
    ap (λ x. x >>= λ s. some (record { session = s; report = r; calls = calls })) l
fail-Opens r calls s (some d) (s', e, a) =
    (record { session = s'; report = r; calls = calls }, bind_lem _ s' _ e, refl, a)

-- Another session with the same strings.
holds_lem :
    (s s' : Session) (current : Bytes) (d : Bool)
    → s'.path ≡ s.path
    → s'.lastwp ≡ s.lastwp
    → s'.heap ≡ s.heap
    → Holds s current d
    → Holds s' current d
holds_lem s s' current false e f g r = record {
  p = r.p;
  path = e ∙ r.path;
  below = subst (λ h. r.p < h.next) (sym g) r.below;
  trails = f ∙ r.trails;
  cells = λ a. ap (λ h. h.cell a) g ∙ r.cells a;
}
holds_lem s s' current true e f g r = record {
  p = r.p;
  path = e ∙ r.path;
  below = subst (λ h. r.p < h.next) (sym g) r.below;
  trails =
      (r.trails.0, f ∙ r.trails.1, subst (λ h. r.trails.0 < h.next) (sym g) r.trails.2, r.trails.3);
  cells = λ a. ap (λ h. h.cell a) g ∙ r.cells a;
}

store_path-Holds :
    (path : Bytes) (s : Session) (d : Bool) → Away s d → Holds (store_path (some path) s) path d
store_path-Holds path s false r = record {
  p = s.heap.next;
  path = refl;
  below = omega arith;
  trails = r.trails;
  cells = λ a. ground (arith, r.cells a);
}
store_path-Holds path s true r = record {
  p = s.heap.next;
  path = refl;
  below = omega arith;
  trails = (r.trails.0, r.trails.1, omega (arith, r.trails.2), r.trails.3);
  cells = λ a. ground (arith, r.cells a);
}

-- The string with a slash, in the place of the one without.
replace_path-Holds :
    (s : Session) (current new : Bytes) (d : Bool) (r : Holds s current d)
    → (s' : Session) × (replace_path s r.p (alloc new s.heap) ≡ some s') × Holds s' new d
replace_path-Holds s current new d r = (
  record s { path = some s.heap.next; heap = put (alloc new s.heap).1 r.p none },
  bind_lem (free r.p (alloc new s.heap).1) _ _
      (free_lem r.p (alloc new s.heap).1 current (ground (arith, r.cells r.p, r.below))),
  record {
    p = s.heap.next;
    path = refl;
    below = omega arith;
    trails = trails d r.trails;
    cells = λ a. ground (arith, r.cells a, r.below);
  },
)
  where
    trails :
        (d : Bool)
        → Trails s r.p d
        → Trails
            (record s { path = some s.heap.next; heap = put (alloc new s.heap).1 r.p none })
            s.heap.next
            d
    trails false t = t
    trails true t = (t.0, t.1, omega (arith, t.2), λ e. omega (arith, e, t.2))

terminated-Holds :
    (n : Neon) (s : Session) (current : Bytes) (d : Bool)
    → Holds s current d
    → (s' : Session) × (terminated n s ≡ some s') × Holds s' (with_slash n current) d
terminated-Holds n s current d r = elim (Bool-cases (n.path_has_trailing_slash current)) [
  | inl b ↦ (s, reads ∙ (rw b refl), rw b r)
  | inr b ↦
      let (s', e, h) = replace_path-Holds s current (current ++ codes "/") d r in
      (s', reads ∙ (rw b e), rw b h)
]
  where
    reads : terminated n s ≡ (
        if n.path_has_trailing_slash current
        then some s
        else replace_path s r.p (alloc (current ++ codes "/") s.heap))
    reads =
        bind_lem s.path r.p _ r.path
        ∙ bind_lem (s.heap.cell r.p) current _ (ground (arith, r.cells r.p))

module _ (n : Neon) (c : Client) (o : Settings) (tolerant : Bool) (server : Server) where
  opened_lem :
      (calls : List Call) (s : Session) (path : Bytes) (isdav : Bool) (d : Bool)
      → Holds s path d
      → Opens
          (settle n c o tolerant server calls s (some isdav))
          (some (at path (left d), Report.opened))
  opened_lem calls s path isdav false r = (
    _,
    refl,
    refl,
    record {
      p = r.p;
      path = r.path;
      lastwp = r.trails;
      connected = refl;
      below = r.below;
      cells = r.cells;
    },
  )
  opened_lem calls s path isdav true r =
      (_, refl, refl, (holds_lem s _ path true refl refl refl r, refl))

  refused_lem :
      (report : Report) (calls : List Call) (s : Session) (path : Bytes) (d : Bool)
      → Holds s path d
      → Opens (fail report calls s) (land n c o tolerant d (inl report))
  refused_lem report calls s path d r =
      fail-Opens report calls s (shut (left d)) (close_connection-Holds s path d r)

  on_options-Opens :
      (calls : List Call) (path : Bytes) (s : Session) (reply : Reply) (d : Bool)
      → Holds s path d
      → Opens
          (on_options n c o tolerant server calls path s reply)
          (answer n c o tolerant server path reply >>= land n c o tolerant d)
  unfolding set_path
  on_options-Opens calls path s Reply.connect d r =
      refused_lem Report.could_not_connect calls s path d r
  on_options-Opens calls path s Reply.lookup d r = refused_lem Report.no_address calls s path d r
  on_options-Opens calls path s Reply.other d r = refused_lem Report.could_not_open calls s path d r
  on_options-Opens calls path s (Reply.ok caps) d r =
      elim (Bool-cases (not (server.class1 caps) && not tolerant)) [
        | inl b ↦ rw b (refused_lem Report.no_class1 calls (record s { caps = caps }) path d r')
        | inr b ↦ rw b (go (server.getrestype path))
      ]
    where
      r' : Holds (record s { caps = caps }) path d
      r' = holds_lem s (record s { caps = caps }) path d refl refl refl r

      go :
          (t : Option ResourceType)
          → Opens
              (t >>= λ t.
                settle n c o tolerant server calls (record s { caps = caps }) (set_path tolerant t))
              ((t >>= λ t.
                  some (if is_collection t || tolerant then inr path else inl Report.not_webdav))
                >>= land n c o tolerant d)
      go none = refl
      go (some t) = elim (Bool-cases (is_collection t || tolerant)) [
        | inl b ↦ rw b (opened_lem calls (record s { caps = caps }) path (is_collection t) d r')
        | inr b ↦ rw b (refused_lem Report.not_webdav calls (record s { caps = caps }) path d r')
      ]

  contact-Opens :
      (u : Uri) (s : Session) (d : Bool) (x : (Report × List Call) ⊎ List Call)
      → Holds s (with_slash n u.path) d
      → Opens
          (contact n c o tolerant server u s x)
          (reach n c o tolerant server u x >>= land n c o tolerant d)
  contact-Opens u s d (inl refused) r = refused_lem refused.0 refused.1 s (with_slash n u.path) d r
  contact-Opens u s d (inr calls) r =
      subst (λ x. Opens x (answer n c o tolerant server path reply >>= land n c o tolerant d))
        (sym reads) (on_options-Opens _ path _ reply d (holds_lem s _ path d refl refl refl r))
    where
      path : Bytes
      path = with_slash n u.path

      reply : Reply
      reply = server.options2 u path

      reads :
          contact n c o tolerant server u s (inr calls)
          ≡ on_options n c o tolerant server
              (calls ++ configure c o ++ Call.options u path ∷ [])
              path
              (record s { connected = false; caps = 0 })
              reply
      reads =
          bind_lem s.path r.p _ r.path
          ∙ bind_lem (s.heap.cell r.p) path _ (ground (arith, r.cells r.p))

  -- A URL whose parts are known, and whose path is stored.
  good_lem :
      (u : Uri) (s : Session) (d : Bool)
      → Away s d
      → Opens
          (proceed n c o tolerant server (inr u) (store_path (some u.path) s))
          (visit n c o tolerant server (inr u) >>= land n c o tolerant d)
  good_lem u s d r =
      subst (λ x. Opens x (visit n c o tolerant server (inr u) >>= land n c o tolerant d))
        (sym (bind_lem (terminated n (store_path (some u.path) s)) t.0 _ t.1))
        (contact-Opens u (record t.0 { server = some u; sess = true }) d
          (scheme_calls c o server.has_ssl u)
          (holds_lem t.0 _ (with_slash n u.path) d refl refl refl t.2))
    where
      t :
          (s' : Session) × (terminated n (store_path (some u.path) s) ≡ some s')
          × Holds s' (with_slash n u.path) d
      t = terminated-Holds n (store_path (some u.path) s) u.path d (store_path-Holds u.path s d r)

  bad_lem :
      (report : Report) (path : Option Bytes) (s : Session) (d : Bool)
      → Away s d
      → Opens (fail report [] (store_path path s)) (land n c o tolerant d (inl report))
  bad_lem report none s d r =
      fail-Opens report [] (store_path none s) (shut (left d))
        (close_connection-Away (store_path none s) d (away_lem d r))
    where
      away_lem : (d : Bool) → Away s d → Away (store_path none s) d
      away_lem false r = record {
        server = r.server;
        path = refl;
        sess = r.sess;
        connected = r.connected;
        trails = r.trails;
        cells = r.cells;
      }
      away_lem true r = record {
        server = r.server;
        path = refl;
        sess = r.sess;
        connected = r.connected;
        trails = r.trails;
        cells = r.cells;
      }
  bad_lem report (some path) s d r =
      refused_lem report [] (store_path (some path) s) path d (store_path-Holds path s d r)

  parts-Opens :
      (path scheme host userinfo : Option Bytes) (port : ℕ) (s : Session) (d : Bool)
      → Away s d
      → Opens
          (proceed n c o tolerant server
            (parts n path scheme host userinfo port)
            (store_path path s))
          (visit n c o tolerant server (parts n path scheme host userinfo port)
            >>= land n c o tolerant d)
  parts-Opens (some path) (some scheme) (some host) none port s d r = good_lem _ s d r
  parts-Opens (some path) (some scheme) (some host) (some userinfo) port s d r =
      bad_lem Report.user_info (some path) s d r
  parts-Opens none scheme host userinfo port s d r = bad_lem Report.could_not_parse none s d r
  parts-Opens (some path) none host userinfo port s d r =
      bad_lem Report.could_not_parse (some path) s d r
  parts-Opens (some path) (some scheme) none userinfo port s d r =
      bad_lem Report.could_not_parse (some path) s d r

  proceed-Opens :
      (a : Address) (s : Session) (d : Bool)
      → Away s d
      → Opens
          (proceed n c o tolerant server (check_address n a) (store_path a.path s))
          (visit n c o tolerant server (check_address n a) >>= land n c o tolerant d)
  unfolding check_address
  proceed-Opens a s d r = elim (Bool-cases a.failed) [
    | inl b ↦ rw b (bad_lem Report.could_not_parse a.path s d r)
    | inr b ↦ rw b (parts-Opens a.path a.scheme a.host a.userinfo a.port s d r)
  ]

  -- `open_connection` at any place does what it does to places: it frees no string twice, reads none
  -- that is freed and leaks none, reports what it should and owns the strings of the place where it
  -- ends; it faults where and only where `lastwp` is freed already or `getrestype` faults.
  pub open_connection-Opens :
      (s : Session) (pl : Place) (url : Bytes)
      → Stands s pl
      → Opens (open_connection n c o tolerant server s url) (open_at n c o tolerant server url pl)
  unfolding open_connection
  open_connection-Opens s pl url r = go (leave pl) (close_connection-Leaves s pl r)
    where
      a : Address
      a = server.uri_parse url

      go :
          (x : Option Bool)
          → Leaves (close_connection s) x
          → Opens
              (close_connection s >>= λ s.
                proceed n c o tolerant server (check_address n a) (store_path a.path s))
              (x >>= λ d. visit n c o tolerant server (check_address n a) >>= land n c o tolerant d)
      go none l =
          ap
            (λ x.
              x >>= λ s. proceed n c o tolerant server (check_address n a) (store_path a.path s))
            l
      go (some d) (s', e, h) =
          subst
            (λ x.
              Opens
                (x >>= λ s. proceed n c o tolerant server (check_address n a) (store_path a.path s))
                (visit n c o tolerant server (check_address n a) >>= land n c o tolerant d))
            (sym e) (proceed-Opens a s' d h)
