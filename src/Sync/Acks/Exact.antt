-- ===== src/Sync/Acks/Exact.antt =====
-- An accepted set of acknowledgements answers each sent operation exactly once.
use mathlib.Core.Path.{◌≡◌, refl, ap}
use text.Mathlib.TextPositions.{eq_refl}
use native.Mathlib.Omega.{arith}
use pomodorough_server.Prelude.{
  ◌+◌, Bool, true, false, ◌||◌, not, String, List, [], ◌∷◌, ◌↔◌, Option, some, ◌==◌, length, member,
  Bool-cases, Option-cases, inl, inr, sym, str_eq, eq_iff,
}
use pomodorough_server.Js.Value.{
  Value, Elems, Props, obj, field, str, arr, elems, get, is_string, text_of, text_of-eq-some,
}
use pomodorough_server.Js.Result.{ok, bind-eq-ok}
use pomodorough_server.Js.IdSet.{
  to_set, Distinct, Within, Distinct_of_length, Within-of_length, member-to_set, to_set_of_Distinct,
}
use pomodorough_server.Queue.{Operation, ids}
use pomodorough_server.Sync.Acks.{
  Acknowledged, is_ack_outcome, refused, collect, checked, of_list, sent_ids,
  exact_acknowledgements,
}

-- An acknowledgement of the operation `id`, with one of the three outcomes and a text for a reason.
pub record IsAckOf (id_field id : String) (ack : Value) : Type 0 where
  pub names : get id_field ack ≡ str id
  pub outcome : is_ack_outcome (get "outcome" ack) ≡ true
  pub reason : is_string (get "reason" ack) ≡ true

-- The acknowledgements and the identifiers that they answer, last first.
abbrev pub Answers : String → List Value → List String → List String → Type 0
Answers f [] seen done = done ≡ seen
Answers f (ack ∷ acks) seen done =
    (id : String) × IsAckOf f id ack × Answers f acks (id ∷ seen) done

accepted :
    (expected seen : List String) (id : String) (ack : Value)
    → refused expected seen id ack ≡ false
    → (member id expected ≡ true)
      × (member id seen ≡ false)
      × (is_ack_outcome (get "outcome" ack) ≡ true)
      × (is_string (get "reason" ack) ≡ true)
unfolding refused
accepted expected seen id ack h = ground arith

collect_step :
    (name f : String) (expected seen : List String) (ack : Value) (acks : List Value)
    → {done : List String} → collect name f expected seen (ack ∷ acks) ≡ ok done
    → (id : String) × (text_of (get f ack) ≡ some id)
      × (refused expected seen id ack ≡ false)
      × (collect name f expected (id ∷ seen) acks ≡ ok done)
unfolding collect
collect_step name f expected seen ack acks e = elim (Option-cases (text_of (get f ack))) [
  | inl missing ↦ ground (arith, missing)
  | inr (id, found) ↦ (id, found, ground (arith, found), ground (arith, found))
]

Within-cons :
    (id : String) (seen expected : List String)
    → member id expected ≡ true
    → Within seen expected
    → Within (id ∷ seen) expected
Within-cons id seen expected known w x h = elim (Bool-cases (str_eq x id)) [
  | inl same ↦ rw ((eq_iff x id).0 same) known
  | inr other ↦ w x (ground arith)
]

collect_sound :
    (name f : String) (expected seen : List String) (acks : List Value) (done : List String)
    → Distinct seen
    → Within seen expected
    → collect name f expected seen acks ≡ ok done
    → Answers f acks seen done
      × Distinct done
      × Within done expected
      × (length done ≡ length seen + length acks)
unfolding collect
collect_sound name f expected seen [] done d w e =
    let same : done ≡ seen = cc in (same, rw same d, rw same w, omega (arith, ap length same))
collect_sound name f expected seen (ack ∷ acks) done d w e =
    let (id, named, passed, e') = collect_step name f expected seen ack acks e in
    let (known, fresh, outcome, reason) = accepted expected seen id ack passed in
    let w' : Within (id ∷ seen) expected = Within-cons id seen expected known w in
    let (answers, d', w'', len) =
      collect_sound name f expected (id ∷ seen) acks done (fresh, d) w' e' in
    let is_ack : IsAckOf f id ack = record {
      names = text_of-eq-some _ id named;
      outcome = outcome;
      reason = reason;
    } in
    ((id, is_ack, answers), d', w'', omega (arith, len))

-- What acceptance says of the sent operations and of the acknowledgements.
pub record IsExact (f : String) (sent : List String) (r : Acknowledged) : Type 0 where
  pub once : Distinct sent
  pub answers : Answers f r.acknowledgements [] r.acknowledged_ids
  pub distinct : Distinct r.acknowledged_ids
  pub same : (id : String) → member id r.acknowledged_ids ≡ member id sent
  pub count : length r.acknowledgements ≡ length sent

bool_ext : (a b : Bool) → (a ≡ true → b ≡ true) → (b ≡ true → a ≡ true) → a ≡ b
bool_ext true b f g = sym (f refl)
bool_ext false true f g = g refl
bool_ext false false f g = refl

abbrev result : List Value → List String → Acknowledged
result acks seen = record { acknowledgements = acks; acknowledged_ids = seen }

checked_parts :
    (name f : String) (sent : List String) (acks : List Value) {r : Acknowledged}
    → checked name f sent acks ≡ ok r
    → (length (to_set sent) ≡ length sent)
      × (length acks ≡ length (to_set sent))
      × (seen : List String) × (collect name f (to_set sent) [] acks ≡ ok seen)
      × (r ≡ result acks seen)
checked_parts name f sent acks e =
    elim (Bool-cases
      (not (length (to_set sent) == length sent) || not (length acks == length (to_set sent)))) [
        | inl bad ↦ cc (rw bad at e)
        | inr good ↦
            let (seen, p, q) = bind-eq-ok (collect name f (to_set sent) [] acks) _ (rw good at e) in
            (ground arith, ground arith, seen, p, cc)
      ]

checked-sound :
    (name f : String) (sent : List String) (acks : List Value) (r : Acknowledged)
    → checked name f sent acks ≡ ok r
    → IsExact f sent r
checked-sound name f sent acks r e =
    let (single, count, seen, collected, same) = checked_parts name f sent acks e in
    let (answers, d, w, len) =
      collect_sound name f (to_set sent) [] acks seen tt (λ x h. cc) collected in
    let back : Within (to_set sent) seen = Within-of_length seen (to_set sent) d w (omega arith) in
    rw same (record {
      once = Distinct_of_length sent (omega arith);
      answers = answers;
      distinct = d;
      same = λ id.
          bool_ext _ _ (λ h. rw (← member-to_set id sent) (w id h))
            (λ h. back id (rw (member-to_set id sent) h));
      count = omega arith;
    })

Answers-Distinct :
    (f : String) (acks : List Value) (seen done : List String)
    → Answers f acks seen done
    → Distinct done
    → Distinct seen
Answers-Distinct f [] seen done same d = rw (← same) d
Answers-Distinct f (ack ∷ acks) seen done (id, a, rest) d =
    (Answers-Distinct f acks (id ∷ seen) done rest d).1

Answers-Within :
    (f : String) (acks : List Value) (seen done : List String)
    → Answers f acks seen done
    → Within seen done
Answers-Within f [] seen done same = λ x h. rw same h
Answers-Within f (ack ∷ acks) seen done (id, a, rest) =
    λ x h. Answers-Within f acks (id ∷ seen) done rest x (ground (arith, h))

collect_complete :
    (name f : String) (expected seen : List String) (acks : List Value) (done : List String)
    → Answers f acks seen done
    → Distinct done
    → Within done expected
    → collect name f expected seen acks ≡ ok done
unfolding collect
collect_complete name f expected seen [] done same d w = ap ok (sym same)
collect_complete name f expected seen (ack ∷ acks) done (id, a, rest) d w =
    let (fresh, _) = Answers-Distinct f acks (id ∷ seen) done rest d in
    let here : member id done ≡ true =
      Answers-Within f acks (id ∷ seen) done rest id (ground (arith, eq_refl id)) in
    let go : refused expected seen id ack ≡ false =
      unfold refused in ground (arith, w id here, fresh, a.outcome, a.reason) in
    let rec : collect name f expected (id ∷ seen) acks ≡ ok done =
      collect_complete name f expected (id ∷ seen) acks done rest d w in
    let named = a.names in ground (arith, named, go, rec)

checked_complete :
    (name f : String) (sent : List String) (r : Acknowledged)
    → IsExact f sent r
    → checked name f sent r.acknowledgements ≡ ok r
checked_complete name f sent r x =
    let single : to_set sent ≡ sent = to_set_of_Distinct sent x.once in
    let seen = r.acknowledged_ids in
    let c : collect name f sent [] r.acknowledgements ≡ ok seen =
      collect_complete name f sent [] r.acknowledgements seen x.answers x.distinct
        (λ id h. rw (← x.same id) h) in
    let count = x.count in ground (arith, single, c, count)

of_list_array :
    (name f : String) (sent : Option (List Operation)) (v : Value) {r : Acknowledged}
    → of_list name f sent v ≡ ok r
    → (es : Elems) × (v ≡ arr es) × (checked name f (sent_ids sent) (elems es) ≡ ok r)
of_list_array name f sent (arr es) e = (es, refl, e)
of_list_array name f sent _ e = cc

checked_acknowledgements :
    (name f : String) (sent : List String) (acks : List Value) {r : Acknowledged}
    → checked name f sent acks ≡ ok r
    → r.acknowledgements ≡ acks
checked_acknowledgements name f sent acks e =
    let (_, _, seen, _, same) = checked_parts name f sent acks e in
    ap (λ (t : Acknowledged). t.acknowledgements) same

-- The response's acknowledgements of a queue that was sent are accepted exactly when they are an
-- array that answers each operation of the queue once, each by its identifier, with a known
-- outcome and a text for a reason, and no operation stands in the queue twice.
pub exact_acknowledgements_iff :
    (ps : Props) (name : String) (sent : List Operation) (f : String) (r : Acknowledged)
    → (exact_acknowledgements (obj ps) name (some sent) f ≡ ok r) ↔ (
        ((es : Elems) × (field name ps ≡ arr es) × (r.acknowledgements ≡ elems es))
        × IsExact f (ids sent) r)
unfolding exact_acknowledgements
exact_acknowledgements_iff ps name sent f r = (
  λ e.
      let (es, array, done) = of_list_array name f (some sent) (field name ps) e in
      (
        (es, array, checked_acknowledgements name f (ids sent) (elems es) done),
        checked-sound name f (ids sent) (elems es) r done,
      ),
  λ h.
      let ((es, array, same), exact) = h in
      rw array (rw (← same) (checked_complete name f (ids sent) r exact)),
)
