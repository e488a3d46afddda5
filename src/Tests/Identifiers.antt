-- ===== src/Tests/Identifiers.antt =====
-- Version 7 identifiers at concrete inputs.
use mathlib.Core.Path.{refl, ◌≡◌}
use pomodorough_server.Js.Result.{ok}
use pomodorough_server.Js.Text.{codes}
use pomodorough_server.Prelude.{All, List, Option, [], none, some, suc, ℕ, ◌+◌, ◌∷◌, ◌≤◌}
use pomodorough_server.Uuid.Parts.{
  assemble, from_parts, hex, max_timestamp_ms, parts, random_max, read_form, read_hex, read_uuid,
  split, uuid_text,
}
use pomodorough_server.Uuid.Parts.Roundtrip.{parts-from_parts}
use pomodorough_server.Uuid.Reserve.{
  consecutive, latest_pending, parsed, previous_parts, reserve, sequential,
}
use pomodorough_server.Uuid.Reserve.After.{reserve-after}
use pomodorough_server.Uuid.Reserve.Batches.{run}
use pomodorough_server.Uuid.Reserve.Known.{ReadsBefore}

abbrev source : ℕ → List ℕ
source attempt = 1 ∷ 35 ∷ 69 ∷ 103 ∷ 137 ∷ 171 ∷ 205 ∷ 239 ∷ 1 ∷ attempt ∷ []

abbrev pending : List (List ℕ)
pending = codes "an old identifier" ∷ codes "0192f3a4-5b6c-7000-8000-000000000000" ∷ []

made :
    from_parts 1730000000000 81985529216486895 ≡ ok (codes "0192cc09-1400-7000-8123-456789abcdef")
unfolding from_parts uuid_text hex assemble
made = refl

parts-from_parts_example :
    parts (codes "0192cc09-1400-7000-8123-456789abcdef")
    ≡ ok (record {
      integer = assemble 1730000000000 81985529216486895;
      timestamp_ms = 1730000000000;
      random_value = 81985529216486895;
    })
parts-from_parts_example = parts-from_parts 1730000000000 81985529216486895 made

abbrev next_ids : List (List ℕ)
next_ids =
    codes "0192f3a4-5b6c-7000-8000-000000000001" ∷ codes "0192f3a4-5b6c-7000-8000-000000000002" ∷ []

reserved : reserve source 1730000000000 2 none pending ≡ ok next_ids
unfolding reserve previous_parts latest_pending parsed parts read_uuid read_form read_hex split
    sequential consecutive from_parts uuid_text hex assemble
reserved = refl

reserve-after_example :
    (time : ℕ) × (random : ℕ) × (next_ids ≡ run time random 2)
    × (1730000000000 ≤ time)
    × (time ≤ max_timestamp_ms)
    × (random + 2 ≤ suc random_max)
    × All (ReadsBefore (assemble time random)) pending
    × ((text : List ℕ)
        → ◌≡◌ {A = Option (List ℕ)} none (some text)
        → ReadsBefore (assemble time random) text)
reserve-after_example = reserve-after source 1730000000000 2 none pending reserved
