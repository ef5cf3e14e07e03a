-- ===== src/Connection/Verified.antt =====
-- `cert_verify` is registered with neon before anything is asked of an https server.
use cadaver.Common.{
  ◌>>=◌, ℕ, zero, suc, ◌≡◌, ◌∙◌, ap, append_assoc, ◌⊎◌, inl, inr, refl, Bool, true, false, not,
  ◌&&◌, ◌||◌, List, [], ◌∷◌, ◌++◌, Option, none, some, Bool-cases, if◌then◌else◌,
}
use cadaver.Common.Text.{Bytes, codes, strcaseeq}
use cadaver.Connection.{
  Reply, Report, Server, Opened, fail, store_path, terminated, check_address, scheme_calls, settle,
  on_options, contact, proceed, open_connection,
}
use cadaver.Connection.Setup.{
  Call, Certificate, Client, Settings, unlock, unlocked, present, offered, chosen, proxies,
  configure, setup_ssl,
}
use cadaver.Listing.{ResourceType}
use cadaver.Neon.{Uri, Neon}
use cadaver.Session.{Session, close_connection, set_path}
use Call.{set_verify, options}

abbrev pub is_https : Uri → Bool
is_https u = strcaseeq u.scheme (codes "https")

-- Whether each request to an https server is made on a session that has `cert_verify` registered; `v`
-- says that the session created last has it.
unfoldable pub verified : Bool → List Call → Bool
verified v [] = true
verified v (Call.session_create scheme host port ∷ calls) = verified false calls
verified v (set_verify ∷ calls) = verified true calls
verified v (options u path ∷ calls) = (v || not (is_https u)) && verified v calls
verified v (_ ∷ calls) = verified v calls

-- Calls that neither create a session nor register anything.
abbrev IsNeutral : Bool → List Call → List Call × Bool → Type 0
IsNeutral v calls x = verified v (x.0 ++ calls) ≡ verified v calls

unlock_lem :
    (c : Client) (k : Certificate) (tries n : ℕ) (v : Bool) (calls : List Call)
    → IsNeutral v calls (unlock c k tries n)
unfolding verified unlock
unlock_lem c k zero n v calls = refl
unlock_lem c k (suc tries) n v calls = go (unlock_lem c k tries (suc n) v calls) (c.password n)
  where
    tried :
        (rest : List Call × Bool) (b : Bool) (pass : Bytes)
        → IsNeutral v calls rest
        → IsNeutral v calls (
            if b
            then (Call.clicert_decrypt pass ∷ [], true)
            else (Call.clicert_decrypt pass ∷ rest.0, rest.1))
    tried rest true pass h = refl
    tried rest false pass h = h

    go :
        IsNeutral v calls (unlock c k tries (suc n))
        → (o : Option Bytes)
        → IsNeutral v calls (elim o [
          | none ↦ ([], false)
          | some pass ↦ if k.decrypts pass then (Call.clicert_decrypt pass ∷ [], true) else (
            Call.clicert_decrypt pass ∷ (unlock c k tries (suc n)).0,
            (unlock c k tries (suc n)).1,
          )
        ])
    go h none = refl
    go h (some pass) = tried (unlock c k tries (suc n)) (k.decrypts pass) pass h

present_lem :
    (x : List Call × Bool) (v : Bool) (calls : List Call)
    → ((rest : List Call) → verified v (x.0 ++ rest) ≡ verified v rest)
    → verified v (present x ++ calls) ≡ verified v calls
unfolding verified
present_lem (tried, true) v calls h =
    ap (verified v) (append_assoc (tried ++ Call.set_clicert ∷ []) (Call.clicert_free ∷ []) calls)
    ∙ ap (verified v) (append_assoc tried (Call.set_clicert ∷ []) (Call.clicert_free ∷ calls))
    ∙ h (Call.set_clicert ∷ Call.clicert_free ∷ calls)
present_lem (tried, false) v calls h =
    ap (verified v) (append_assoc (tried ++ []) (Call.clicert_free ∷ []) calls)
    ∙ ap (verified v) (append_assoc tried [] (Call.clicert_free ∷ calls))
    ∙ h (Call.clicert_free ∷ calls)

offered_lem :
    (c : Client) (x : Option (Bytes × Option Certificate)) (v : Bool) (calls : List Call)
    → verified v (offered c x ++ calls) ≡ verified v calls
unfolding verified offered
offered_lem c none v calls = refl
offered_lem c (some (name, none)) v calls = refl
offered_lem c (some (name, some k)) v calls =
    present_lem (unlocked c k) v calls (λ rest. go k.encrypted rest)
  where
    go : (b : Bool) (rest : List Call) → IsNeutral v rest (if b then unlock c k 3 0 else ([], true))
    go true rest = unlock_lem c k 3 0 v rest
    go false rest = refl

-- A result whose calls are verified, where there is one.
abbrev pub IsVerified : Option Opened → Type 0
IsVerified none = Unit
IsVerified (some o) = verified false o.calls ≡ true

-- The calls of `configure` make no request and create no session.
configure_lem :
    (c : Client) (o : Settings) (v : Bool) (calls : List Call)
    → verified v (configure c o ++ calls) ≡ verified v calls
unfolding verified configure
configure_lem c o v calls = elim (Bool-cases o.systemproxy) [
  | inl b ↦ rw b refl
  | inr b ↦ rw b (go o.proxy)
]
  where
    go : (p : Option Bytes) → verified v (proxies c o p ++ calls) ≡ verified v calls
    go none = refl
    go (some host) = refl

module _ (n : Neon) (c : Client) (o : Settings) (tolerant : Bool) (server : Server) where
  fail-IsVerified :
      (r : Report) (calls : List Call) (s : Session)
      → verified false calls ≡ true
      → IsVerified (fail r calls s)
  fail-IsVerified r calls s h = go (close_connection s)
    where
      go :
          (x : Option Session)
          → IsVerified (x >>= λ s. some (record { session = s; report = r; calls = calls }))
      go none = tt
      go (some s) = h

  on_options-IsVerified :
      (calls : List Call) (path : Bytes) (s : Session) (reply : Reply)
      → verified false calls ≡ true
      → IsVerified (on_options n c o tolerant server calls path s reply)
  on_options-IsVerified calls path s Reply.connect h =
      fail-IsVerified Report.could_not_connect calls s h
  on_options-IsVerified calls path s Reply.lookup h = fail-IsVerified Report.no_address calls s h
  on_options-IsVerified calls path s Reply.other h = fail-IsVerified Report.could_not_open calls s h
  on_options-IsVerified calls path s (Reply.ok caps) h =
      elim (Bool-cases (not (server.class1 caps) && not tolerant)) [
        | inl b ↦ rw b (fail-IsVerified Report.no_class1 calls (record s { caps = caps }) h)
        | inr b ↦ rw b (go (server.getrestype path))
      ]
    where
      settled :
          (x : Option Bool)
          → IsVerified (settle n c o tolerant server calls (record s { caps = caps }) x)
      settled none = fail-IsVerified Report.not_webdav calls (record s { caps = caps }) h
      settled (some isdav) = h

      go :
          (t : Option ResourceType)
          → IsVerified (
              t >>= λ t.
              settle n c o tolerant server calls (record s { caps = caps }) (set_path tolerant t))
      go none = tt
      go (some t) = settled (set_path tolerant t)

  -- The calls of a scheme, with those of the first request behind them.
  scheme_calls_lem :
      (u : Uri) (s : Session)
      → IsVerified (contact n c o tolerant server u s (scheme_calls c o server.has_ssl u))
  unfolding verified setup_ssl
  scheme_calls_lem u s = elim (Bool-cases (is_https u)) [
    | inl b ↦ elim (Bool-cases server.has_ssl) [
      | inl d ↦
          rw (b, d)
            (sends (Call.session_create u.scheme u.host u.port ∷ setup_ssl c o) (λ path.
              ap (verified true) (
                append_assoc (offered c (chosen c o.clicert_uri o.clicert)) (configure c o)
                  (options u path ∷ []))
              ∙ offered_lem c (chosen c o.clicert_uri o.clicert) true
                  (configure c o ++ options u path ∷ [])
              ∙ configure_lem c o true (options u path ∷ [])))
      | inr d ↦ rw (b, d) (fail-IsVerified Report.no_ssl _ s refl)
    ]
    | inr b ↦ rw b (elim (Bool-cases (strcaseeq u.scheme (codes "http"))) [
      | inl d ↦ rw d (
          sends (Call.session_create u.scheme u.host u.port ∷ [])
            (λ path. rw (configure_lem c o false (options u path ∷ [])) (rw b refl)))
      | inr d ↦ rw d (fail-IsVerified Report.not_supported _ s refl)
    ])
  ]
    where
      sends :
          (calls : List Call)
          → ((path : Bytes) → verified false (calls ++ configure c o ++ options u path ∷ []) ≡ true)
          → IsVerified (contact n c o tolerant server u s (inr calls))
      sends calls h = go s.path
        where
          told :
              (path : Option Bytes)
              → IsVerified (
                  path >>= λ path.
                  on_options n c o tolerant server
                    (calls ++ configure c o ++ options u path ∷ [])
                    path
                    (record s { connected = false; caps = 0 })
                    (server.options2 u path))
          told none = tt
          told (some path) = on_options-IsVerified _ path _ (server.options2 u path) (h path)

          go :
              (p : Option ℕ)
              → IsVerified (
                  p >>= λ p. s.heap.cell p >>= λ path.
                  on_options n c o tolerant server
                    (calls ++ configure c o ++ options u path ∷ [])
                    path
                    (record s { connected = false; caps = 0 })
                    (server.options2 u path))
          go none = tt
          go (some p) = told (s.heap.cell p)

  proceed-IsVerified :
      (x : Report ⊎ Uri) (s : Session) → IsVerified (proceed n c o tolerant server x s)
  unfolding verified
  proceed-IsVerified (inl r) s = fail-IsVerified r [] s refl
  proceed-IsVerified (inr u) s = go (terminated n s)
    where
      go :
          (x : Option Session)
          → IsVerified (
              x >>= λ s.
              contact n c o tolerant server u
                (record s { server = some u; sess = true })
                (scheme_calls c o server.has_ssl u))
      go none = tt
      go (some s) = scheme_calls_lem u (record s { server = some u; sess = true })

  -- Whatever the URL, the options, the client certificates and the answers, `open_connection` sends an
  -- https server no request before it has registered `cert_verify` on the neon session that it has
  -- created for it.
  pub open_connection-IsVerified :
      (s : Session) (url : Bytes) → IsVerified (open_connection n c o tolerant server s url)
  unfolding open_connection
  open_connection-IsVerified s url = go (close_connection s)
    where
      go :
          (x : Option Session)
          → IsVerified (
              x >>= λ s.
              proceed n c o tolerant server
                (check_address n (server.uri_parse url))
                (store_path (server.uri_parse url).path s))
      go none = tt
      go (some s) =
          proceed-IsVerified (check_address n (server.uri_parse url))
            (store_path (server.uri_parse url).path s)
