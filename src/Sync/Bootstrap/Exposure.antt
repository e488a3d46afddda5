-- ===== src/Sync/Bootstrap/Exposure.antt =====
-- Whose state may be shown, and which part of the dialog is.
use mathlib.Core.Path.{◌≡◌}
use native.Mathlib.Omega.{arith}
use pomodorough_server.Js.Value.{is_true, truthy}
use pomodorough_server.Prelude.{Bool, false, true, ◌||◌, ◌⊎◌}
use pomodorough_server.Sync.Bootstrap.{
  DialogInput, OwnerInput, ResolutionInput, bootstrap_dialog_view, can_expose_owner_state,
  can_use_cached_owner_offline, requires_bootstrap_resolution,
}

-- exactly one of three tests holds
abbrev pub ExactlyOne : Bool → Bool → Bool → Type 0
ExactlyOne a b c =
    ((a ≡ true) × (b ≡ false) × (c ≡ false))
    ⊎ ((a ≡ false) × (b ≡ true) × (c ≡ false))
    ⊎ ((a ≡ false) × (b ≡ false) × (c ≡ true))

-- A dialog that is open shows exactly one of the choice, the confirmation and the failure, and only
-- to an authenticated user whose bootstrap is blocked.
pub bootstrap_dialog_view_modes :
    (input : DialogInput)
    → (bootstrap_dialog_view input).shown ≡ true
    → ExactlyOne
        (bootstrap_dialog_view input).choosing
        (bootstrap_dialog_view input).confirming
        (bootstrap_dialog_view input).failed
      × (is_true input.blocked ≡ true)
      × (is_true input.authenticated ≡ true)
unfolding bootstrap_dialog_view
bootstrap_dialog_view_modes input h = ground arith

-- State that is exposed to the validated user is not the state that is used offline for the cached
-- one, and its owner asks for no resolution of its own: one is needed only for a block, a gate or a
-- saved resolution.
pub can_expose_owner_state-exclusive :
    (input : OwnerInput) (r : ResolutionInput)
    → r.local_owner_id ≡ input.local_owner_id
    → r.current_user_id ≡ input.current_user_id
    → can_expose_owner_state input ≡ true
    → (can_use_cached_owner_offline input ≡ false)
      × (requires_bootstrap_resolution r
          ≡ (is_true r.blocked || is_true r.persisted_gate || truthy r.pending))
unfolding can_expose_owner_state can_use_cached_owner_offline requires_bootstrap_resolution
can_expose_owner_state-exclusive input r p q h = ground (arith, p, q)
