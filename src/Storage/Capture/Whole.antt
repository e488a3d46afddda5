-- ===== src/Storage/Capture/Whole.antt =====
-- A captured claim that has passed its checks: what the claim is, and what its request is.
use mathlib.Core.Path.{refl, ◌≡◌}
use native.Mathlib.Omega.{arith}
use pomodorough_server.Js.Num.{is_between, max_safe}
use pomodorough_server.Js.Value.{
  Value, get, int, is_array, is_full_text, is_nullish, is_object, is_string, str, strict_eq,
}
use pomodorough_server.Prelude.{
  Bool, String, any, false, inl, inr, not, not-eq-false, or-eq-false, true, ℕ, ◌&&◌, ◌||◌, ◌≤◌, ◌⊎◌,
}
use pomodorough_server.Prelude.Int.{pos}
use pomodorough_server.Queue.{
  Domain, auto_start, domain_name, domains, duration, selected_task, task, timer,
}
use pomodorough_server.Storage.Capture.{is_inexact, is_other_request}
use pomodorough_server.Sync.Canonical.Parts.{is_between-natural}
use pomodorough_server.Sync.DateTime.{valid_date_time}
use pomodorough_server.Workspace.Canonical.{records_equal}

-- A captured claim that is whole: an object with a request, a date-time and, where it has an
-- identifier, one that is not empty, of the account `owner_id` and of the operations `sent`.
pub record IsWhole (claim sent owner_id : Value) : Type 0 where
  pub object : is_object claim ≡ true
  pub request_text : (text : String) × (get "body" claim ≡ str text)
  pub retired : valid_date_time (get "retiredAt" claim) ≡ true
  pub named :
      (is_nullish (get "claimId" claim) ≡ true) ⊎ (is_full_text (get "claimId" claim) ≡ true)
  pub owned : strict_eq (get "ownerId" claim) owner_id ≡ true
  pub same_sent : records_equal (get "sent" claim) sent ≡ true

-- A request that was made by the device for the operations `sent`.
pub record IsRequestOf (body device_id sent : Value) : Type 0 where
  pub device : strict_eq (get "deviceId" body) device_id ≡ true
  pub revision : (n : ℕ) × (get "lastRevision" body ≡ int (pos n)) × (n ≤ 9007199254740991)
  pub queues :
      (d : Domain)
      → (is_array (get (domain_name d) body) ≡ true)
        × (records_equal (get (domain_name d) body) (get (domain_name d) sent) ≡ true)

is_string-str : (v : Value) → is_string v ≡ true → (s : String) × (v ≡ str s)
is_string-str (str s) h = (s, refl)
is_string-str _ h = cc

-- what stands in the six tests on a claim
six :
    (a b c d e f g : Bool)
    → (not a || not b || not c || not d && not e || not f || not g) ≡ false
    → (a ≡ true) × (b ≡ true) × (c ≡ true) × ((d ≡ true) ⊎ (e ≡ true)) × (g ≡ true)
six a b c true e f g h =
    (ground (arith, h), ground (arith, h), ground (arith, h), inl refl, ground (arith, h))
six a b c false e f g h = (
  ground (arith, h),
  ground (arith, h),
  ground (arith, h),
  inr (ground (arith, h)),
  ground (arith, h),
)

pub is_inexact-IsWhole :
    (claim sent owner_id : Value)
    → is_inexact claim sent ≡ false
    → strict_eq (get "ownerId" claim) owner_id ≡ true
    → IsWhole claim sent owner_id
unfolding is_inexact
is_inexact-IsWhole claim sent owner_id h own =
    let (object, text, date, name, same) =
      six (is_object claim) (is_string (get "body" claim)) (valid_date_time (get "retiredAt" claim))
        (is_nullish (get "claimId" claim)) (is_full_text (get "claimId" claim))
        (is_object (get "sent" claim)) (records_equal (get "sent" claim) sent) h in
    record {
      object = object;
      request_text = is_string-str (get "body" claim) text;
      retired = date;
      named = name;
      owned = own;
      same_sent = same;
    }

-- the test on one queue of the request
other_queue : Value → Value → Domain → Bool
other_queue body sent d =
    not (is_array (get (domain_name d) body))
    || not (records_equal (get (domain_name d) body) (get (domain_name d) sent))

same_queue :
    (body sent : Value) (d : Domain)
    → other_queue body sent d ≡ false
    → (is_array (get (domain_name d) body) ≡ true)
      × (records_equal (get (domain_name d) body) (get (domain_name d) sent) ≡ true)
unfolding other_queue
same_queue body sent d h =
    let (a, b) =
      or-eq-false (not (is_array (get (domain_name d) body)))
        (not (records_equal (get (domain_name d) body) (get (domain_name d) sent))) h in
    (not-eq-false _ a, not-eq-false _ b)

each_queue :
    (body sent : Value)
    → any (other_queue body sent) domains ≡ false
    → (d : Domain) → other_queue body sent d ≡ false
each_queue body sent h timer = ground (arith, h)
each_queue body sent h task = ground (arith, h)
each_queue body sent h duration = ground (arith, h)
each_queue body sent h auto_start = ground (arith, h)
each_queue body sent h selected_task = ground (arith, h)

pub is_other_request-IsRequestOf :
    (body device_id sent : Value)
    → is_other_request body device_id sent ≡ false
    → IsRequestOf body device_id sent
unfolding is_other_request other_queue
is_other_request-IsRequestOf body device_id sent h =
    let (ab, queues) =
      or-eq-false
        (not (strict_eq (get "deviceId" body) device_id)
          || not (is_between 0 max_safe (get "lastRevision" body)))
        (any (other_queue body sent) domains) h in
    let (device, revision) =
      or-eq-false (not (strict_eq (get "deviceId" body) device_id))
        (not (is_between 0 max_safe (get "lastRevision" body))) ab in
    let (n, number, _, safe) =
      is_between-natural 0 max_safe (get "lastRevision" body) (not-eq-false _ revision) in
    record {
      device = not-eq-false (strict_eq (get "deviceId" body) device_id) device;
      revision = (n, number, safe);
      queues = λ d. same_queue body sent d (each_queue body sent queues d);
    }
