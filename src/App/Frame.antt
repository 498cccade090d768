-- ===== src/App/Frame.antt =====
-- The main loop of src/neschan.cpp. Each round is given what SDL returns in it: whether it reports
-- that the user quits, and its counter. `to_cycles` is the arithmetic of doubles that turns ticks of the
-- counter into cycles (`ms_to_nes_cycle` of lib/inc/nes_cycle.h).
pub mod Rounds
use neschan.Base.{
  ℕ, zero, suc, ◌+◌, ◌-◌, ◌==◌, ltb, if◌then◌else◌, sub64, Bool, true, false, not, ◌||◌, Bytes,
  Option, none, some, List, [], ◌∷◌,
}
use neschan.Base.Chain.{◌>>=◌}
use neschan.Ppu.State.{frame_buffer}
use neschan.Cpu.Exec.{Outcome, done, faulted, out_of_fuel}
use neschan.System.State.{System}
use neschan.System.Run.{step}
use neschan.App.Video.{copy_frame}

-- `NES_CLOCK_HZ`.
abbrev pub clock_hz : ℕ
clock_hz = 5369318

-- The cycles of a round, at least for one tick, and at most a second.
unfoldable pub frame_cycles : (ℕ → ℕ) → ℕ → ℕ → ℕ
frame_cycles to_cycles prev_counter cur_counter =
    let delta_ticks = sub64 cur_counter prev_counter in
    let cycles = to_cycles (if delta_ticks == 0 then 1 else delta_ticks) in
    if ltb clock_hz cycles then clock_hz else cycles

-- `for (...) system.step(nes_cycle_t(1))`.
unfoldable pub run_cycles : ℕ → System → Outcome
run_cycles zero s = done s
run_cycles (suc left) s = elim (step 1 s) [
  | done t ↦ run_cycles left t
  | faulted ↦ faulted
  | out_of_fuel ↦ out_of_fuel
]

pub record Game : Type 0 where
  pub system : System
  pub prev_counter : ℕ
  pub pixels : Bytes
  pub quit : Bool

pub record Tick : Type 0 where
  pub quits : Bool
  pub counter : ℕ

-- The end of a round: a machine that has not stopped in the middle of an instruction is drawn.
unfoldable pub draw : ℕ → Bool → Bytes → Outcome → Option Game
unfolding frame_buffer
draw counter quit pixels (done s) = copy_frame (frame_buffer s.ppu) pixels >>= λ more.
    some (record { system = s; prev_counter = counter; pixels = more; quit = quit })
draw counter quit pixels faulted = none
draw counter quit pixels out_of_fuel = none

unfoldable pub round : (ℕ → ℕ) → Tick → Game → Option Game
unfolding frame_cycles draw
round to_cycles tick g =
    draw tick.counter (tick.quits || g.quit) g.pixels
      (run_cycles (frame_cycles to_cycles g.prev_counter tick.counter) g.system)

-- `while (!quit)`, for the rounds that are given.
unfoldable pub game_loop : (ℕ → ℕ) → List Tick → Game → Option Game
unfolding round
game_loop to_cycles [] g = some g
game_loop to_cycles (tick ∷ ticks) g = elim g.quit [
  | true ↦ some g
  | false ↦ round to_cycles tick g >>= λ h. game_loop to_cycles ticks h
]
