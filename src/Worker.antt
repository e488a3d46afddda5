-- ===== src/Worker.antt =====
-- The service worker of web/sw.js: how it cleans the caches up when it starts, and how it answers
-- a request from the network or from a cache. The caches of the browser are an argument with what
-- the worker relies on of them; the network is a function that gives no response where `fetch`
-- fails. A request is known by its address.
pub mod Caches
pub mod Offline
use mathlib.Core.Path.{◌≡◌}
use pomodorough_server.Js.Text.{after}
use pomodorough_server.Prelude.{
  Bool, List, Option, String, [], false, if◌then◌else◌, join, keep, length, member, none, not, some,
  str_eq, true, ◌&&◌, ◌==◌, ◌||◌, ◌∷◌,
}

pub record Response : Type 0 where
  pub ok_status : Bool
  pub kind : String
  pub body : String

pub record Request : Type 0 where
  pub method : String
  pub origin : String
  pub pathname : String
  pub search : String
  pub mode : String

-- The browser's caches as the worker uses them: `keys`, `delete`, `match` and `open(…).put(…)`.
pub record CacheStorage {ℓ} (S : Type ℓ) : Type ℓ where
  pub names : S → List String
  pub remove : String → S → S
  pub lookup : String → S → Option Response
  pub store : String → String → Response → S → S
  pub member-remove :
      (n m : String) (s : S)
      → member n (names (remove m s)) ≡ (member n (names s) && not (str_eq n m))
  pub lookup-store :
      (c k : String) (r : Response) (s : S) → lookup k s ≡ none → lookup k (store c k r s) ≡ some r
  pub lookup-store_other :
      (c k j : String) (r : Response) (s : S)
      → str_eq j k ≡ false
      → lookup j (store c k r s) ≡ lookup j s

abbrev pub cache_prefix : String
cache_prefix = "pomodorough-shell-"

-- `CACHE_NAME` for the version of the shared core
abbrev pub cache_name : String → String
cache_name version = join ("pomodorough-shell-v72-" ∷ version ∷ [])

-- `SHELL` for the address of the shared core
unfoldable pub shell : String → List String
shell wasm_url =
    "/" ∷ "/index.html" ∷ "/privacy" ∷ "/landing.css?v=2" ∷ "/platform-selector.js?v=1"
    ∷ "/landing.js?v=1" ∷ "/app" ∷ "/app.css?v=22" ∷ "/shared-core-metadata.js?v=5"
    ∷ "/shared-core.js?v=7" ∷ wasm_url ∷ "/sync-core.js?v=28" ∷ "/sync-authority.js?v=1"
    ∷ "/sync-storage-uuid.js?v=1" ∷ "/workspace-core.js?v=2" ∷ "/workspace-transaction.js?v=4"
    ∷ "/sync-storage.js?v=35" ∷ "/i18n.js?v=5" ∷ "/locales/en.json?v=4" ∷ "/locales/ar-XB.json?v=4"
    ∷ "/app-runtime.js?v=1" ∷ "/account-operation.js?v=1" ∷ "/app-state.js?v=10"
    ∷ "/app-storage.js?v=14" ∷ "/app-actions.js?v=12" ∷ "/app-sync.js?v=9" ∷ "/app-bootstrap.js?v=7"
    ∷ "/app-session.js?v=9" ∷ "/app-view.js?v=12" ∷ "/app.js?v=46" ∷ "/manifest.webmanifest"
    ∷ "/icon.svg" ∷ []

-- `SHELL.includes(address)`
unfoldable pub is_in_shell : String → String → Bool
unfolding shell
is_in_shell wasm_url place = member place (shell wasm_url)

abbrev pub starts_with : String → String → Bool
starts_with prefix s = elim (after prefix s) [ some rest ↦ true | none ↦ false ]

-- a cache of an earlier version of the shell
abbrev pub is_stale : String → String → Bool
is_stale version name = starts_with cache_prefix name && not (str_eq name (cache_name version))

-- `/api/…` and `/auth/…`
abbrev pub is_interface : Request → Bool
is_interface request = starts_with "/api/" request.pathname || starts_with "/auth/" request.pathname

-- what becomes of a request: nothing, or a response, with the caches afterwards
pub data Handling {ℓ} (S : Type ℓ) : Type ℓ where
  left_alone : Handling S
  answered : Option Response → S → Handling S

-- the caches after a request
abbrev pub after_it {ℓ} : {S : Type ℓ} → S → Handling S → S
after_it s left_alone = s
after_it s (answered response later) = later

-- a request, and the network that it meets
pub record Visit : Type 0 where
  pub request : Request
  pub network : Request → Option Response

abbrev pub given {ℓ} : {S : Type ℓ} → Option Response × S → Handling S
given (response, s) = answered response s

abbrev pub address : Request → String
address request = join (request.pathname ∷ request.search ∷ [])

module _ {ℓ} {S : Type ℓ} (caches : CacheStorage S) where
  abbrev pub remove_all : List String → S → S
  remove_all [] s = s
  remove_all (n ∷ ns) s = remove_all ns (caches.remove n s)

  -- the caches afterwards, and whether the open windows are loaded again
  unfoldable pub activate_shell : String → S → S × Bool
  activate_shell version s =
      let stale = keep (is_stale version) (caches.names s) in
      (remove_all stale s, not (length stale == 0))

  module _ (network : Request → Option Response) where
    -- `networkFirstNavigation` with what `fetch` gave: none where the error is thrown on
    abbrev pub page_of : Request → Option Response → S → Option Response
    page_of request (some response) s = some response
    page_of request none s =
        if str_eq request.pathname "/" || str_eq request.pathname "/index.html"
        then caches.lookup request.pathname s
        else if not (str_eq request.pathname "/app") && not (starts_with "/app/" request.pathname)
        then none
        else caches.lookup "/app" s

    unfoldable pub network_first_navigation : Request → S → Option Response
    network_first_navigation request s = page_of request (network request) s

    -- the response that `cacheFirst` gives from the network, and the caches afterwards
    abbrev pub kept_response : String → Request → Option Response → S → Option Response × S
    kept_response version request none s = (none, s)
    kept_response version request (some response) s =
        if response.ok_status && str_eq response.kind "basic"
        then (some response, caches.store (cache_name version) (address request) response s)
        else (some response, s)

    -- `cacheFirst` with what the caches had
    abbrev pub cached_or_kept : String → Request → Option Response → S → Option Response × S
    cached_or_kept version request (some cached) s = (some cached, s)
    cached_or_kept version request none s = kept_response version request (network request) s

    unfoldable pub cache_first : String → Request → S → Option Response × S
    cache_first version request s =
        cached_or_kept version request (caches.lookup (address request) s) s

    -- the listener of `fetch`, of a worker of this origin, version and address of the shared core
    unfoldable pub fetched : String → String → String → Request → S → Handling S
    fetched origin version wasm_url request s =
        if not (str_eq request.method "GET")
        then left_alone
        else if not (str_eq request.origin origin)
        then left_alone
        else if is_interface request
        then answered (network request) s
        else if str_eq request.mode "navigate"
        then answered (network_first_navigation request s) s
        else if not (is_in_shell wasm_url (address request))
        then answered (network request) s
        else given (cache_first version request s)
