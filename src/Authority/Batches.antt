-- ===== src/Authority/Batches.antt =====
-- The clocks of a batch.
use mathlib.Core.Path.{refl, ◌≡◌}
use native.Mathlib.Omega.{arith}
use pomodorough_server.Authority.{
  allocate_hlc_batch, tick_hlc, tick_input, ticks, validate_hlc_tick,
}
use pomodorough_server.Js.Num.{is_between, max_safe}
use pomodorough_server.Js.Result.{Result, ok}
use pomodorough_server.Js.Text.{compare_units, sort_texts}
use pomodorough_server.Js.Value.{Value, end, int, obj, prop, undefined}
use pomodorough_server.Prelude.{ap, suc, true, zero, ℕ, ◌+◌, ◌-◌, ◌<◌, ◌≤◌}
use pomodorough_server.Prelude.Int.{pos}
use pomodorough_server.Sync.Clock.{natural}

-- a clock of the shared core
abbrev pub clock : ℕ → ℕ → Value
clock wall counter = obj (prop "wallMs" (int (pos wall)) (prop "counter" (int (pos counter)) end))

clock-valid :
    (w c : ℕ) → w ≤ max_safe → c ≤ max_safe → validate_hlc_tick (clock w c) ≡ ok (clock w c)
unfolding validate_hlc_tick sort_texts compare_units
clock-valid w c h k = ground (arith, h, k)

-- What the shared core documents of its clock: a clock that is not behind the physical time is
-- followed by the same time with the next counter.
abbrev pub Counts : (Value → Result Value) → ℕ → Type 0
Counts core now =
    (w c : ℕ)
    → now ≤ w
    → c < max_safe
    → core (tick_input (clock w c) (int (pos now)) undefined) ≡ ok (clock w (c + 1))

tick_next :
    (core : Value → Result Value) (now w c : ℕ)
    → Counts core now
    → now ≤ w
    → w ≤ max_safe
    → c < max_safe
    → tick_hlc core (clock w c) (int (pos now)) undefined ≡ ok (clock w (c + 1))
unfolding tick_hlc
tick_next core now w c counts h k l =
    rw (counts w c h l) (clock-valid w (c + 1) k (omega (arith, l)))

ticks-clock :
    (core : Value → Result Value) (now w : ℕ) (n c : ℕ)
    → Counts core now
    → now ≤ w
    → w ≤ max_safe
    → c + n ≤ max_safe
    → ticks core (clock w c) (int (pos now)) n ≡ ok (clock w (c + n))
unfolding ticks
ticks-clock core now w zero c counts h k l = ap (λ m. ok (clock w m)) (omega arith)
ticks-clock core now w (suc n) c counts h k l =
    let rest : ticks core (clock w (c + 1)) (int (pos now)) n ≡ ok (clock w (c + 1 + n)) =
      ticks-clock core now w n (c + 1) counts h k (omega (arith, l)) in
    rw (tick_next core now w c counts h k (omega (arith, l)), rest)
      (ap (λ m. ok (clock w m)) (omega arith))

tick_first :
    (core : Value → Result Value) (local : Value) (now w c : ℕ)
    → core (tick_input local (int (pos now)) undefined) ≡ ok (clock w c)
    → w ≤ max_safe
    → c ≤ max_safe
    → tick_hlc core local (int (pos now)) undefined ≡ ok (clock w c)
unfolding tick_hlc
tick_first core local now w c first k l = rw first (clock-valid w c k l)

-- If the core counts on at one time, and its first clock of a batch is not behind the physical
-- time and leaves room for the batch, then the batch is allocated: all its clocks have the time of
-- the first, and their counters are as many as asked for, one after the other.
pub allocate_hlc_batch_lem :
    (core : Value → Result Value) (local : Value) (now w c n : ℕ)
    → Counts core now
    → core (tick_input local (int (pos now)) undefined) ≡ ok (clock w c)
    → now ≤ w
    → w ≤ max_safe
    → n < max_safe
    → c + n ≤ max_safe
    → allocate_hlc_batch core local (int (pos now)) (int (pos (n + 1)))
      ≡ ok (record {
        wall_ms = int (pos w);
        first_counter = int (pos c);
        counter = int (pos (c + n));
      })
unfolding allocate_hlc_batch
allocate_hlc_batch_lem core local now w c n counts first h k few l =
    let allowed : is_between 1 max_safe (int (pos (n + 1))) ≡ true = ground (arith, few) in
    let one_less : natural (int (pos (n + 1))) - 1 ≡ n = omega arith in
    rw
      (
        allowed,
        tick_first core local now w c first k (omega (arith, l)),
        one_less,
        ticks-clock core now w n c counts h k l,
      )
      refl
