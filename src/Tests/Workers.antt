-- ===== src/Tests/Workers.antt =====
-- The service worker at concrete inputs, with caches that are a list of names and of entries.
use mathlib.Core.Path.{refl, ◌≡◌}
use native.Mathlib.Omega.{arith}
use pomodorough_server.Js.IdSet.{member-keep}
use pomodorough_server.Prelude.{
  Bool, Bool-cases, eq_iff, false, List, Option, String, [], if◌then◌else◌, inl, inr, keep, member,
  none, not, some, str_eq, true, ◌++◌, ◌∷◌,
}
use pomodorough_server.Worker.{CacheStorage, Request, Response, Visit, activate_shell, fetched}
use pomodorough_server.Worker.Offline.{Answered, fetched-IsKept}
use text.Mathlib.TextPositions.{eq_refl}

record Kept : Type 0 where
  cache : String
  place : String
  response : Response

record Memory : Type 0 where
  opened : List String
  entries : List Kept

abbrev keep_entries : (Kept → Bool) → List Kept → List Kept
keep_entries p [] = []
keep_entries p (e ∷ es) = let rest = keep_entries p es in if p e then e ∷ rest else rest

abbrev find_entry : String → List Kept → Option Response
find_entry k [] = none
find_entry k (e ∷ es) =
    let rest = find_entry k es in if str_eq e.place k then some e.response else rest

abbrev drop_cache : String → Memory → Memory
drop_cache n s = record {
  opened = keep (λ m. not (str_eq m n)) s.opened;
  entries = keep_entries (λ e. not (str_eq e.cache n)) s.entries;
}

abbrev add_entry : String → String → Response → Memory → Memory
add_entry c k r s = record {
  opened = if member c s.opened then s.opened else s.opened ++ c ∷ [];
  entries = s.entries ++ record { cache = c; place = k; response = r } ∷ [];
}

find_entry-append :
    (k c : String) (r : Response) (es : List Kept)
    → find_entry k es ≡ none
    → find_entry k (es ++ record { cache = c; place = k; response = r } ∷ []) ≡ some r
find_entry-append k c r [] h = rw (eq_refl k) refl
find_entry-append k c r (e ∷ es) h = elim (Bool-cases (str_eq e.place k)) [
  | inl same ↦ let found : some e.response ≡ none = rw same at h in cc
  | inr other ↦ rw other (find_entry-append k c r es (rw other at h))
]

find_entry-other :
    (k j c : String) (r : Response) (es : List Kept)
    → str_eq j k ≡ false
    → find_entry j (es ++ record { cache = c; place = k; response = r } ∷ []) ≡ find_entry j es
find_entry-other k j c r [] h =
    let turned : str_eq k j ≡ false = ground (arith, h, eq_iff k j, eq_iff j k) in rw turned refl
find_entry-other k j c r (e ∷ es) h = elim (Bool-cases (str_eq e.place j)) [
  | inl same ↦ rw same refl
  | inr other ↦ rw other (find_entry-other k j c r es h)
]

abbrev memory : CacheStorage Memory
memory = record {
  names = λ s. s.opened;
  remove = drop_cache;
  lookup = λ k s. find_entry k s.entries;
  store = add_entry;
  member-remove = λ n m s. rw (member-keep (λ x. not (str_eq x m)) n s.opened) (ground arith);
  lookup-store = λ c k r s h. find_entry-append k c r s.entries h;
  lookup-store_other = λ c k j r s h. find_entry-other k j c r s.entries h;
}

abbrev started : Memory
started = record {
  opened = "pomodorough-shell-v71-a" ∷ "pomodorough-shell-v72-b" ∷ "other" ∷ [];
  entries =
      record {
        cache = "pomodorough-shell-v72-b";
        place = "/app";
        response = record { ok_status = true; kind = "basic"; body = "app" };
      }
      ∷ [];
}

activated : (activate_shell memory "b" started).0.opened ≡ "pomodorough-shell-v72-b" ∷ "other" ∷ []
unfolding activate_shell
activated = refl

abbrev down : Request → Option Response
down request = none

abbrev page : Request
page = record {
  method = "GET";
  origin = "https://a";
  pathname = "/app/tasks";
  search = "";
  mode = "navigate";
}

fetched-IsKept_example :
    Answered memory down "b" "/core.wasm" page started
      (fetched memory down "https://a" "b" "/core.wasm" page started)
fetched-IsKept_example = fetched-IsKept memory down "b" "/core.wasm" "https://a" page started

abbrev icon : Request
icon = record {
  method = "GET";
  origin = "https://a";
  pathname = "/icon.svg";
  search = "";
  mode = "no-cors";
}

abbrev drawn : Response
drawn = record { ok_status = true; kind = "basic"; body = "icon" }

abbrev up : Request → Option Response
up request = some drawn

abbrev later_visits : List Visit
later_visits =
    record { request = page; network = down } ∷ record { request = icon; network = up } ∷ []
