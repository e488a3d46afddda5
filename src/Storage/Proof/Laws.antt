-- ===== src/Storage/Proof/Laws.antt =====
-- What a delivery proof holds after each operation on it.
use mathlib.Core.Path.{refl, ◌≡◌}
use native.Mathlib.Omega.{arith}
use pomodorough_server.Js.IdSet.{Distinct, Distinct-to_set, member-keep, to_set}
use pomodorough_server.Js.Value.{Value, get, is_object, items, str}
use pomodorough_server.Prelude.{
  Bool-cases, List, String, [], and-eq-true, eq_iff, false, if◌then◌else◌, inl, inr, member, not,
  str_eq, subst, true, ◌&&◌, ◌++◌, ◌||◌, ◌∷◌,
}
use pomodorough_server.Queue.{
  Domain, Operation, Queues, at, domain_name, ids, same_domain, tabulate,
}
use pomodorough_server.Storage.Proof.{
  add_proof_id, full_texts, never_sent_from_proof, remove_proof_ids, replace_queue,
  sanitize_delivery_proof,
}

at-tabulate {ℓ} : {A : Type ℓ} (f : Domain → A) (d : Domain) → at d (tabulate f) ≡ f d
at-tabulate f Domain.timer = refl
at-tabulate f Domain.task = refl
at-tabulate f Domain.duration = refl
at-tabulate f Domain.auto_start = refl
at-tabulate f Domain.selected_task = refl

-- A removed proof keeps exactly the identifiers that were not sent: no operation that was sent
-- counts as never sent.
pub member-remove_proof_ids :
    (proof : Value) (sent : Queues (List Operation)) (d : Domain) (id : String)
    → member id (at d (remove_proof_ids proof sent))
      ≡ (member id (at d (sanitize_delivery_proof proof)) && not (member id (ids (at d sent))))
unfolding remove_proof_ids
member-remove_proof_ids proof sent d id =
    rw (at-tabulate _ d, member-keep _ id (at d (sanitize_delivery_proof proof))) (ground arith)

-- An operation is never sent exactly when the proof names it, it is still queued and it is not
-- among the sent ones.
member-never_sent_from_proof :
    (proof : Value) (local sent : Queues (List Operation)) (d : Domain) (id : String)
    → member id (at d (never_sent_from_proof proof local sent)) ≡ (
        member id (at d (sanitize_delivery_proof proof))
        && (member id (ids (at d local)) && not (member id (ids (at d sent)))))
unfolding never_sent_from_proof
member-never_sent_from_proof proof local sent d id =
    rw (at-tabulate _ d, member-keep _ id (at d (sanitize_delivery_proof proof))) (ground arith)

-- A proof that was read back is a set of texts for each queue.
Distinct-sanitize_delivery_proof :
    (proof : Value) (d : Domain) → Distinct (at d (sanitize_delivery_proof proof))
unfolding sanitize_delivery_proof
Distinct-sanitize_delivery_proof proof d = elim (Bool-cases (is_object proof)) [
  | inl o ↦
      rw (o, at-tabulate (λ e. to_set (full_texts (items (get (domain_name e) proof)))) d)
        (Distinct-to_set (full_texts (items (get (domain_name d) proof))))
  | inr n ↦ rw (n, at-tabulate {A = List String} (λ e. []) d) tt
]

at-replace_queue {ℓ} :
    {A : Type ℓ} (d e : Domain) (a : A) (q : Queues A)
    → at e (replace_queue d a q) ≡ (if same_domain d e then a else at e q)
at-replace_queue d e a q = ground arith

member-snoc :
    (z s : String) (xs : List String) → member z (xs ++ s ∷ []) ≡ (member z xs || str_eq z s)
member-snoc z s [] = ground arith
member-snoc z s (x ∷ xs) = ground (arith, member-snoc z s xs)

same_domain-eq : (d e : Domain) → same_domain d e ≡ true → d ≡ e
same_domain-eq d e h = ground arith

known :
    (clean : Queues (List String)) (d e : Domain) (s id : String)
    → member s (at d clean) ≡ true
    → member id (at e clean) ≡ (member id (at e clean) || (str_eq id s && same_domain d e))
known clean d e s id there = elim (Bool-cases (str_eq id s && same_domain d e)) [
  | inl both ↦
      let (p, q) = and-eq-true (str_eq id s) (same_domain d e) both in
      let here : member id (at e clean) ≡ true =
        subst (λ x. member id (at x clean) ≡ true) (same_domain-eq d e q)
          (rw ((eq_iff id s).0 p) there) in
      rw here
  | inr neither ↦ rw neither (ground arith)
]

added :
    (clean : Queues (List String)) (d e : Domain) (s id : String)
    → member id (if same_domain d e then at d clean ++ s ∷ [] else at e clean)
      ≡ (member id (at e clean) || (str_eq id s && same_domain d e))
added clean d e s id = elim (Bool-cases (same_domain d e)) [
  | inl same ↦ rw (same, ← same_domain-eq d e same, member-snoc id s (at d clean)) (ground arith)
  | inr other ↦ rw other (ground arith)
]

-- Adding a text that is not empty to one queue adds it there, and changes no other membership.
pub member-add_proof_id :
    (proof : Value) (d e : Domain) (s id : String)
    → str_eq s "" ≡ false
    → member id (at e (add_proof_id proof d (str s)))
      ≡ (member id (at e (sanitize_delivery_proof proof)) || (str_eq id s && same_domain d e))
unfolding add_proof_id
member-add_proof_id proof d e s id full =
    let clean = sanitize_delivery_proof proof in
    elim (Bool-cases (member s (at d clean))) [
      | inl there ↦ rw (full, there) (known clean d e s id there)
      | inr fresh ↦
          rw (full, fresh, at-replace_queue d e (at d clean ++ s ∷ []) clean) (added clean d e s id)
    ]
