-- ===== src/Connection/Setup.antt =====
-- The calls by which src/cadaver.c sets a neon session up: `setup_ssl`, and the middle of
-- `open_connection`. A setup is the list of its calls in order.
use cadaver.Common.{
  ℕ, zero, suc, Bool, true, false, List, [], ◌∷◌, ◌++◌, Option, none, some, if◌then◌else◌,
}
use cadaver.Common.Text.{Bytes}
use cadaver.Neon.{Uri}

pub data Call : Type 0 where
  session_create : Bytes → Bytes → ℕ → Call
  trust_default_ca set_verify : Call
  clicert_decrypt : Bytes → Call
  set_clicert clicert_free : Call
  lockstore_register redirect_register set_notifier : Call
  flag_persist flag_expect100 : Bool → Call
  set_useragent set_server_auth set_proxy_auth system_proxy : Call
  session_proxy : Bytes → ℕ → Call
  options : Uri → Bytes → Call

-- The options that the setup reads.
pub record Settings : Type 0 where
  pub clicert : Option Bytes
  pub clicert_uri : Option Bytes
  pub proxy : Option Bytes
  pub proxy_port : Option Bytes
  pub keepalive : Bool
  pub expect100 : Bool
  pub systemproxy : Bool

-- A client certificate as neon reads it; `decrypts` tells the passwords that open it.
pub record Certificate : Type 0 where
  pub encrypted : Bool
  pub decrypts : Bytes → Bool

-- What the setup takes from elsewhere: `clicert_fromuri` and `clicert_read` of neon, the passwords
-- that the user types in turn, with `none` where the input ends, and `atoi`.
pub record Client : Type 0 where
  pub clicert_fromuri : Bytes → Option Certificate
  pub clicert_read : Bytes → Option Certificate
  pub password : ℕ → Option Bytes
  pub atoi : Bytes → ℕ

-- The name of the certificate, where one is set, and what is read under it; neon has the version
-- that reads one from a URI.
abbrev pub chosen : Client → Option Bytes → Option Bytes → Option (Bytes × Option Certificate)
chosen c (some uri) ccfn = some (uri, c.clicert_fromuri uri)
chosen c none (some file) = some (file, c.clicert_read file)
chosen c none none = none

-- Passwords are asked for until one opens the certificate, none is typed or `tries` are used up: the
-- calls, and whether it is open then.
unfoldable pub unlock : Client → Certificate → ℕ → ℕ → List Call × Bool
unlock c cc zero n = ([], false)
unlock c cc (suc tries) n =
    let rest = unlock c cc tries (suc n) in
    elim (c.password n) [
      | none ↦ ([], false)
      | some pass ↦
          if cc.decrypts pass
          then (clicert_decrypt pass ∷ [], true)
          else (clicert_decrypt pass ∷ rest.0, rest.1)
    ]

abbrev pub unlocked : Client → Certificate → List Call × Bool
unlocked c cc = if cc.encrypted then unlock c cc 3 0 else ([], true)

abbrev pub present : List Call × Bool → List Call
present (calls, opens) = calls ++ (if opens then set_clicert ∷ [] else []) ++ clicert_free ∷ []

unfoldable pub offered : Client → Option (Bytes × Option Certificate) → List Call
unfolding unlock
offered c none = []
offered c (some (name, none)) = []
offered c (some (name, some cc)) = present (unlocked c cc)

unfoldable pub setup_ssl : Client → Settings → List Call
setup_ssl c o = trust_default_ca ∷ set_verify ∷ offered c (chosen c o.clicert_uri o.clicert)

-- A proxy that is set, on port 8080 unless another one is set.
abbrev pub proxy_port : Client → Option Bytes → ℕ
proxy_port c none = 8080
proxy_port c (some port) = c.atoi port

abbrev pub proxies : Client → Settings → Option Bytes → List Call
proxies c o none = []
proxies c o (some host) = session_proxy host (proxy_port c o.proxy_port) ∷ []

-- The calls between the test of the scheme and the first request.
unfoldable pub configure : Client → Settings → List Call
configure c o =
    lockstore_register
    ∷ redirect_register
    ∷ set_notifier
    ∷ flag_persist o.keepalive
    ∷ flag_expect100 o.expect100
    ∷ set_useragent
    ∷ set_server_auth
    ∷ set_proxy_auth
    ∷ (if o.systemproxy then system_proxy ∷ [] else proxies c o o.proxy)
