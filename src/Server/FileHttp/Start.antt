-- ===== src/Server/FileHttp/Start.antt =====
-- Chat-Server/http/FileHttpService.cpp: `start`, which decides whether and where the service listens, and
-- the setters. What Qt and the operating system do is `Network`.
use xychat_project.Prelude.{
  ℕ, ◌≡◌, refl, Bool, true, ◌||◌, ◌&&◌, not, List, [], ◌++◌, Option, none, some, if◌then◌else◌,
  arith, ◌==◌,
}
use xychat_project.Prelude.Json.{codes}
use xychat_project.Server.FileHttp.Windows.{is_empty}

pub record Network : Type 0 where
  pub initializes_database : Bool
  pub set_address : List ℕ → Option (List ℕ)
  pub is_loopback : List ℕ → Bool
  pub listens : Bool
  pub binds : Bool

-- The arguments of `start`, and the members that it reads.
pub record Settings : Type 0 where
  pub has_storage : Bool
  pub tls_enabled : Bool
  pub allow_plaintext : Bool
  pub bind_host : List ℕ
  pub allow_public_bind : Bool
  pub advertised_host : List ℕ

-- `setObjectStorage`, `setAdvertisedHost`, `setBindAddress` and `setAllowPublicBind`.
unfoldable pub set_object_storage : Settings → Bool → Settings
set_object_storage s storage = record s { has_storage = storage }

unfoldable pub set_advertised_host : Settings → List ℕ → Settings
set_advertised_host s host = if is_empty host then s else record s { advertised_host = host }

unfoldable pub set_bind_address : Settings → List ℕ → Settings
set_bind_address s host = record s { bind_host = host }

unfoldable pub set_allow_public_bind : Settings → Bool → Settings
set_allow_public_bind s allow = record s { allow_public_bind = allow }

pub data StartResult : Type 0 where
  not_started : StartResult
  listening : List ℕ → Bool → StartResult

abbrev pub local_host : List ℕ
local_host = codes "127.0.0.1"

abbrev pub bind_address : Network → Settings → Option (List ℕ)
bind_address n s = if is_empty s.bind_host then some local_host else n.set_address s.bind_host

abbrev pub listen_on : Network → Settings → Option (List ℕ) → StartResult
listen_on n s none = not_started
listen_on n s (some address) =
    if not (n.is_loopback address) && not s.allow_public_bind
    then not_started
    else if not n.listens
    then not_started
    else if not n.binds
    then not_started
    else listening address s.tls_enabled

unfoldable pub start : Network → Settings → StartResult
start n s =
    if not s.has_storage
    then not_started
    else if not n.initializes_database
    then not_started
    else if not s.tls_enabled && not s.allow_plaintext
    then not_started
    else listen_on n s (bind_address n s)

-- `baseUrl`; `number` is how Qt writes the port.
unfoldable pub base_url : (ℕ → List ℕ) → ℕ → Settings → List ℕ
base_url number port s =
    if port == 0
    then []
    else (if s.tls_enabled then codes "https" else codes "http")
      ++ (codes "://" ++ (s.advertised_host ++ (codes ":" ++ (number port ++ codes "/file"))))

bound_address :
    (n : Network) (s : Settings) (address : List ℕ) (o : Option (List ℕ)) (tls : Bool)
    → bind_address n s ≡ o
    → listen_on n s o ≡ listening address tls
    → (bind_address n s ≡ some address)
      × (tls ≡ s.tls_enabled)
      × (n.is_loopback address || s.allow_public_bind ≡ true)
bound_address n s address none tls e h = absurd (ground (arith, h))
bound_address n s address (some a) tls e h = ground (arith, e, h)

-- Where the service listens, it has a storage; without TLS only if plaintext is allowed; on an address
-- that is not a loopback address only if that is allowed; and the address is the one that was set, or
-- the local host where none was set, never another in place of one that cannot be read.
pub start-listening :
    (n : Network) (s : Settings) (address : List ℕ) (tls : Bool)
    → start n s ≡ listening address tls
    → (s.has_storage ≡ true)
      × (tls ≡ s.tls_enabled)
      × (s.tls_enabled || s.allow_plaintext ≡ true)
      × (n.is_loopback address || s.allow_public_bind ≡ true)
      × ((if is_empty s.bind_host then some local_host else n.set_address s.bind_host)
          ≡ some address)
unfolding start
start-listening n s address tls h =
    ground (arith, h, bound_address n s address (bind_address n s) tls refl)
