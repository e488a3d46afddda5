-- ===== src/Worker/Caches.antt =====
-- Which caches are left when the worker has started.
use mathlib.Core.Path.{refl, ◌≡◌}
use native.Mathlib.Omega.{arith}
use pomodorough_server.Js.IdSet.{member-keep}
use pomodorough_server.Prelude.{
  Bool, Bool-cases, List, String, [], any, inl, inr, keep, length, member, not, ◌&&◌, ◌==◌, ◌∷◌,
}
use pomodorough_server.Worker.{CacheStorage, activate_shell, is_stale, remove_all}

length-keep-any : (p : String → Bool) (xs : List String) → not (length (keep p xs) == 0) ≡ any p xs
length-keep-any p [] = refl
length-keep-any p (x ∷ xs) = elim (Bool-cases (p x)) [
  | inl here_first ↦ rw here_first (ground arith)
  | inr other ↦ rw other (length-keep-any p xs)
]

module _ {ℓ} {S : Type ℓ} (caches : CacheStorage S) where
  member-remove_all :
      (n : String) (ns : List String) (s : S)
      → member n (caches.names (remove_all caches ns s))
        ≡ (member n (caches.names s) && not (member n ns))
  member-remove_all n [] s = ground arith
  member-remove_all n (m ∷ ns) s =
      ground (arith, member-remove_all n ns (caches.remove m s), caches.member-remove n m s)

  -- Starting the worker removes exactly the caches of earlier versions of the shell: any other
  -- cache is there exactly if it was, and the windows are loaded again exactly if one was removed.
  activate_shell_lem :
      (version n : String) (s : S)
      → (member n (caches.names (activate_shell caches version s).0)
          ≡ (member n (caches.names s) && not (is_stale version n)))
        × ((activate_shell caches version s).1 ≡ any (is_stale version) (caches.names s))
  unfolding activate_shell
  activate_shell_lem version n s =
      let stale = is_stale version in
      (
        rw
            (
              member-remove_all n (keep stale (caches.names s)) s,
              member-keep stale n (caches.names s),
            )
            (ground arith),
        length-keep-any stale (caches.names s),
      )
