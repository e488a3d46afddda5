-- ===== src/Tests/Gates.antt =====
-- The bootstrap gate at concrete inputs.
use mathlib.Core.Path.{refl, ◌≡◌}
use native.Mathlib.Omega.{arith}
use pomodorough_server.Prelude.{none, some}
use pomodorough_server.Js.Value.{null}
use pomodorough_server.Storage.Gate.{
  Gate, GateStore, LeaseInput, Resolution, acquire_bootstrap_gate, lease_is_live,
}
use pomodorough_server.Storage.Gate.Exclusion.{
  IsHolding, Run, Run-IsHolding, World, here, next_ask, next_wait,
}

abbrev mine : Gate
mine = record {
  token = "tab-1";
  acquired_at_ms = 100;
  expires_at_ms = 400;
  account_owner_id = none;
}

abbrev other_lease : LeaseInput
other_lease = record { token = "tab-2"; now_ms = 200; lease_ms = 300; current_user_id = none }

abbrev held : World
held = record { store = record { gate = some mine; resolution = none }; now = 200 }

asked_before :
    Run "tab-1" 400 held
      (record { store = record { gate = some mine; resolution = none }; now = 300 })
unfolding acquire_bootstrap_gate lease_is_live
asked_before = next_wait (next_ask here other_lease refl refl refl) 300 (omega arith) refl

Run-IsHolding_example :
    IsHolding mine (record { store = record { gate = some mine; resolution = none }; now = 300 })
Run-IsHolding_example =
    Run-IsHolding mine held
      (record { store = record { gate = some mine; resolution = none }; now = 300 }) refl
      (record { held = refl; live = omega arith }) asked_before

abbrev late_lease : LeaseInput
late_lease = record { token = "tab-2"; now_ms = 500; lease_ms = 300; current_user_id = none }

abbrev saved_choice : Resolution
saved_choice = record { gate_token = "tab-1"; content = null }

abbrev resolving : GateStore
resolving = record { gate = some mine; resolution = some saved_choice }

taken_over :
    (acquire_bootstrap_gate late_lease resolving).1.resolution
    ≡ some (record { gate_token = "tab-2"; content = null })
unfolding acquire_bootstrap_gate lease_is_live
taken_over = refl
