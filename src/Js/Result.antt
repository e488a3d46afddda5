-- ===== src/Js/Result.antt =====
-- A computation that may throw: the error's class and its message.
use mathlib.Core.Path.{refl, ◌≡◌}
use pomodorough_server.Js.Text.{after}
use pomodorough_server.Js.Value.{Value, get, null, undefined}
use pomodorough_server.Prelude.{All, ap, if◌then◌else◌, inl, inr, ◌⊎◌}
use Prim.Native.String.{String}
use mathlib.Core.Bool.{Bool, true, false}
use mathlib.Core.List.{List, [], ◌∷◌}

pub data Kind : Type 0 where
  plain type_error range_error uuid_range account_ownership bootstrap_gate clock_range : Kind

pub data Thrown : Type 0 where
  thrown : Kind → String → Thrown

pub data Result {ℓ} (A : Type ℓ) : Type ℓ where
  err : Thrown → Result A
  ok : A → Result A

module _ {ℓ κ} {A : Type ℓ} {B : Type κ} where
  infixl 5 ◌>>=◌
  abbrev pub ◌>>=◌ : Result A → (A → Result B) → Result B
  err thrown_before >>= next = err thrown_before
  ok value >>= next = next value

  -- Inversion of a successful bind.
  pub bind-eq-ok :
      (r : Result A) (next : A → Result B) {b : B}
      → (r >>= next) ≡ ok b
      → (a : A) × (r ≡ ok a) × (next a ≡ ok b)
  bind-eq-ok (err e) next h = cc
  bind-eq-ok (ok a) next h = (a, refl, h)

-- one statement after another
infixl 5 ◌>>◌
abbrev pub ◌>>◌ {ℓ} : {B : Type ℓ} → Result (Unit {0}) → Result B → Result B
before >> after = before >>= (λ done. after)

-- `if (test) throw new Error(message)`
abbrev pub throw_if : Bool → String → Result (Unit {0})
throw_if true message = err (thrown plain message)
throw_if false message = ok tt

-- `v.k`, which throws of undefined and null
abbrev pub dot : String → Value → Result Value
dot k undefined = err (thrown type_error "Cannot read properties of undefined")
dot k null = err (thrown type_error "Cannot read properties of null")
dot k v = ok (get k v)

-- `items.map(f)` for an `f` that may throw
abbrev pub traverse {ℓ κ} : {A : Type ℓ} {B : Type κ} → (A → Result B) → List A → Result (List B)
traverse f [] = ok []
traverse f (x ∷ xs) = f x >>= λ y. traverse f xs >>= λ ys. ok (y ∷ ys)

pub throw_if-eq-ok : (b : Bool) (m : String) {u : Unit {0}} → throw_if b m ≡ ok u → b ≡ false
throw_if-eq-ok true m h = cc
throw_if-eq-ok false m h = refl

-- Statements that do no more than throw, in order.
abbrev pub each : List (Result (Unit {0})) → Result (Unit {0})
each [] = ok tt
each (ok u ∷ rest) = each rest
each (err e ∷ rest) = err e

pub each-eq-ok :
    (checks : List (Result (Unit {0}))) → each checks ≡ ok tt → All (λ c. c ≡ ok tt) checks
each-eq-ok [] h = tt
each-eq-ok (ok u ∷ rest) h = (refl, each-eq-ok rest h)
each-eq-ok (err e ∷ rest) h = cc

pub Result-cases {ℓ} :
    {A : Type ℓ} (m : Result A) → ((a : A) × (m ≡ ok a)) ⊎ ((e : Thrown) × (m ≡ err e))
Result-cases (ok a) = inl (a, refl)
Result-cases (err e) = inr (e, refl)

-- `if (test) throw …`, of a computation that does not.
pub if-eq-ok {ℓ} :
    {A : Type ℓ} (test : Bool) (e : Thrown) (m : Result A) {a : A}
    → (if test then err e else m) ≡ ok a
    → (test ≡ false) × (m ≡ ok a)
if-eq-ok true e m h = cc
if-eq-ok false e m h = (refl, h)

pub ok-injective {ℓ} : {A : Type ℓ} {a b : A} → ok a ≡ ok b → a ≡ b
ok-injective h = cc

-- What a pair holds second, of two successful computations that are the same.
pub second {ℓ κ} : {A : Type ℓ} {B : Type κ} {p q : A × B} → ok p ≡ ok q → p.1 ≡ q.1
second h = ap (λ p. p.1) (ok-injective h)
