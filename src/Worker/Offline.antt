-- ===== src/Worker/Offline.antt =====
-- What the worker may put into its cache, and that what it put there stays and is answered.
use mathlib.Core.Path.{refl, ◌≡◌}
use native.Mathlib.Omega.{arith}
use pomodorough_server.Js.Value.{get}
use pomodorough_server.Prelude.{
  List, [], ◌∷◌, Option, String, false, if-cases, none, not, not-eq-false, some, str_eq, true, ◌&&◌,
}
use pomodorough_server.Worker.{
  Visit, after_it, CacheStorage, Handling, Request, Response, address, answered, cache_first,
  cache_name, cached_or_kept, fetched, given, is_in_shell, is_interface, kept_response, left_alone,
}

module _ {ℓ} {S : Type ℓ} (caches : CacheStorage S) where
  -- What an answer may do to the caches: nothing, or put a good response of the network to a `GET`
  -- of the shell, which no cache had, into the worker's own cache.
  pub data IsKept (network : Request → Option Response) (version wasm_url : String)
      (request : Request) (s : S) : S → Type ℓ where
    unchanged : IsKept network version wasm_url request s s
    kept_good :
        (response : Response)
        → str_eq request.method "GET" ≡ true
        → is_interface request ≡ false
        → is_in_shell wasm_url (address request) ≡ true
        → caches.lookup (address request) s ≡ none
        → network request ≡ some response
        → response.ok_status ≡ true
        → IsKept network version wasm_url request s
            (caches.store (cache_name version) (address request) response s)

  abbrev pub Answered :
      (network : Request → Option Response) (version wasm_url : String) (request : Request) (s : S)
      → Handling S
      → Type ℓ
  Answered network version wasm_url request s left_alone = Unit
  Answered network version wasm_url request s (answered response after_it) =
      IsKept network version wasm_url request s after_it

  module _ (network : Request → Option Response) (version wasm_url : String) where
    kept_response-IsKept :
        (request : Request) (s : S) (answer : Option Response)
        → str_eq request.method "GET" ≡ true
        → is_interface request ≡ false
        → is_in_shell wasm_url (address request) ≡ true
        → caches.lookup (address request) s ≡ none
        → network request ≡ answer
        → IsKept network version wasm_url request s
            (kept_response caches network version request answer s).1
    kept_response-IsKept request s none get page listed missing up = unchanged
    kept_response-IsKept request s (some response) get page listed missing up =
        if-cases {A = Option Response × S} (λ r. IsKept network version wasm_url request s r.1)
          (response.ok_status && str_eq response.kind "basic")
          (λ good. kept_good response get page listed missing up (ground arith)) (λ bad. unchanged)

    cached_or_kept-IsKept :
        (request : Request) (s : S) (cached : Option Response)
        → str_eq request.method "GET" ≡ true
        → is_interface request ≡ false
        → is_in_shell wasm_url (address request) ≡ true
        → caches.lookup (address request) s ≡ cached
        → Answered network version wasm_url request s
            (given (cached_or_kept caches network version request cached s))
    cached_or_kept-IsKept request s (some cached) get page listed found = unchanged
    cached_or_kept-IsKept request s none get page listed found =
        kept_response-IsKept request s (network request) get page listed found refl

    -- An answer leaves the caches as they were, or puts a good response of the network to a `GET`
    -- of the shell, which no cache had, into the worker's own cache: nothing of the account's
    -- interfaces is ever kept_good.
    pub fetched-IsKept :
        (origin : String) (request : Request) (s : S)
        → Answered network version wasm_url request s
            (fetched caches network origin version wasm_url request s)
    unfolding fetched cache_first
    fetched-IsKept origin request s =
        let P = Answered network version wasm_url request s in
        if-cases P (not (str_eq request.method "GET")) (λ _. tt)
          (λ get.
            if-cases P (not (str_eq request.origin origin)) (λ _. tt)
              (λ same.
                if-cases P (is_interface request) (λ _. unchanged)
                  (λ page.
                    if-cases P (str_eq request.mode "navigate") (λ _. unchanged)
                      (λ _.
                        if-cases P (not (is_in_shell wasm_url (address request))) (λ _. unchanged)
                          (λ listed.
                            cached_or_kept-IsKept request s (caches.lookup (address request) s)
                              (not-eq-false _ get) page (not-eq-false _ listed) refl)))))

  module _ (version wasm_url origin : String) where
    -- one request after another, each with the network that it meets
    abbrev pub visited : List Visit → S → S
    visited [] s = s
    visited (v ∷ vs) s =
        visited vs (after_it s (fetched caches v.network origin version wasm_url v.request s))
