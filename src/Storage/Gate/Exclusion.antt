-- ===== src/Storage/Gate/Exclusion.antt =====
-- One tab at a time: what the tabs of a browser that ask for the gate and clear it do to it, in any
-- order.
use mathlib.Core.Path.{◌≡◌}
use native.Mathlib.Omega.{arith}
use pomodorough_server.Js.Result.{ok}
use pomodorough_server.Prelude.{String, ap, false, some, str_eq, ℕ, ◌<◌, ◌∙◌}
use pomodorough_server.Storage.Gate.{
  Acquisition, Gate, GateStore, LeaseInput, Resolution, acquire_bootstrap_gate,
  clear_bootstrap_gate, lease_is_live,
}

-- The store and the wall clock that the tabs read.
pub record World : Type 0 where
  pub store : GateStore
  pub now : ℕ

-- What tabs with other tokens than `mine` do in any order, and time that passes before `until`: a
-- tab asks for the gate at the present time, or clears it.
pub data Run (mine : String) (until : ℕ) (w : World) : World → Type 0 where
  here : Run mine until w w
  next_ask :
      {v u : World}
      → Run mine until w v
      → (input : LeaseInput) → input.now_ms ≡ v.now
      → str_eq mine input.token ≡ false
      → u ≡ record v { store = (acquire_bootstrap_gate input v.store).1 }
      → Run mine until w u
  next_clear :
      {v u : World}
      → Run mine until w v
      → (token : String) (store : GateStore) → str_eq mine token ≡ false
      → clear_bootstrap_gate token v.store ≡ ok store
      → u ≡ record v { store = store }
      → Run mine until w u
  next_wait :
      {v u : World}
      → Run mine until w v
      → (later : ℕ) → later < until
      → u ≡ record v { now = later }
      → Run mine until w u

-- The gate `g` is held and its lease has not run out.
pub record IsHolding (g : Gate) (w : World) : Type 0 where
  pub held : w.store.gate ≡ some g
  pub live : w.now < g.expires_at_ms

ask-refused :
    (g : Gate) (store : GateStore) (input : LeaseInput)
    → store.gate ≡ some g
    → input.now_ms < g.expires_at_ms
    → str_eq g.token "" ≡ false
    → str_eq g.token input.token ≡ false
    → (acquire_bootstrap_gate input store ≡ (
      record {
        acquired = false;
        taken_over = false;
        gate = store.gate;
        resolution = store.resolution;
      },
      store,
    ))
unfolding acquire_bootstrap_gate lease_is_live
ask-refused g store input h l full other = ground (arith, h, l, full, other)

clear-refused :
    (g : Gate) (store : GateStore) (token : String) (cleared : GateStore)
    → store.gate ≡ some g
    → str_eq g.token token ≡ false
    → clear_bootstrap_gate token store ≡ ok cleared
    → ⊥
unfolding clear_bootstrap_gate
clear-refused g store token cleared h other e = ground (arith, h, other, e)

-- While the lease of a tab lasts, other tabs that ask for the gate or clear it with their tokens, in
-- whatever order, neither acquire it nor clear it: the gate stays as its holder left it. Other ways
-- to the store, as the removal of the account's local data, are not among these steps.
pub Run-IsHolding :
    (g : Gate) (w v : World)
    → str_eq g.token "" ≡ false
    → IsHolding g w
    → Run g.token g.expires_at_ms w v
    → IsHolding g v
Run-IsHolding g w v full h here = h
Run-IsHolding g w v full h (next_ask {v = x} r input at_now other same) =
    let ih = Run-IsHolding g w x full h r in
    let held = ih.held in
    let live = ih.live in
    let refused = ask-refused g x.store input held (rw at_now live) full other in
    let kept : v.store ≡ x.store =
      ap (λ (z : World). z.store) same ∙ ap (λ (z : Acquisition × GateStore). z.1) refused in
    record {
      held = ap (λ (z : GateStore). z.gate) kept ∙ held;
      live = omega (arith, live, ap (λ (z : World). z.now) same);
    }
Run-IsHolding g w v full h (next_clear {v = x} r token store other cleared same) =
    let ih = Run-IsHolding g w x full h r in
    let held = ih.held in absurd (clear-refused g x.store token store held other cleared)
Run-IsHolding g w v full h (next_wait {v = x} r later before same) =
    let ih = Run-IsHolding g w x full h r in
    record {
      held = ap (λ (z : World). z.store.gate) same ∙ ih.held;
      live = omega (arith, before, ap (λ (z : World). z.now) same);
    }

-- What any tabs do in any order: a tab asks for the gate, or clears it.
pub data Turns (start : GateStore) : GateStore → Type 0 where
  at_start : Turns start start
  asked :
      {s t : GateStore}
      → Turns start s
      → (input : LeaseInput) → t ≡ (acquire_bootstrap_gate input s).1
      → Turns start t
  cleared :
      {s t : GateStore}
      → Turns start s
      → (token : String) → clear_bootstrap_gate token s ≡ ok t
      → Turns start t

-- A saved resolution goes with a gate that is held, by the one that the resolution names.
abbrev pub IsPaired : GateStore → Type 0
IsPaired s =
    (r : Resolution)
    → s.resolution ≡ some r
    → (g : Gate) × (s.gate ≡ some g) × (r.gate_token ≡ g.token)
