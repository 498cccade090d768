-- ===== src/Examples/WitnessesApp.antt =====
-- The application's theorems at concrete inputs.
use neschan.Base.{
  ℕ, suc, ◌+◌, ◌%◌, ◌<◌, ◌≡◌, refl, arith, ◌==◌, if◌then◌else◌, Bool, true, false, Bytes, none,
  some, [], ◌∷◌,
}
use neschan.Input.{Input, poll_flags, register_input}
use neschan.Input.Serial.{read_times, results, strobed}
use neschan.Ppu.Position.{IsOnScreen}
use neschan.System.Clocks.Step.{IsStepped}
use neschan.App.Keys.{
  Scancode, key_j, key_w, Button, button_start, dpad_up, gather, get_status, poll_status,
  controller_device, register_pads, register_inputs,
}
use neschan.App.Keys.Buttons.{down, port, register_inputs-keys}
use neschan.App.Video.{copy_frame}
use neschan.App.Video.Pixels.{IsCopied, copy_frame-IsCopied, copy_frame-none}
use neschan.App.Frame.{Game, run_cycles, game_loop}
use neschan.App.Frame.Rounds.{run_cycles-IsStepped}
use neschan.Examples.Machine.{blank_system, blank_input, zeros}

-- `J` and `W` are held.
abbrev held : ℕ → Scancode → Bool
held k key_j = true
held k key_w = true
held k key = false

abbrev no_pads : ℕ → ℕ → Button → ℕ
no_pads id k button = 0

register_inputs-keys_example :
    results (
      read_times 8 0 (strobed (register_inputs 0 no_pads (λ k key. down (held k key)) blank_input)))
    ≡ some (
        port false
        ∷ port true
        ∷ port false
        ∷ port false
        ∷ port true
        ∷ port false
        ∷ port false
        ∷ port false
        ∷ [])
register_inputs-keys_example = register_inputs-keys held no_pads blank_input

-- `start` on both of the game controllers, and up on the second.
abbrev two_pads : ℕ → ℕ → Button → ℕ
two_pads id k button_start = 1
two_pads id k dpad_up = id
two_pads id k button = 0

two_players : Input
unfolding register_inputs register_pads register_input controller_device poll_status
two_players = register_inputs 2 two_pads (λ k key. down (held k key)) blank_input

-- The first player's keyboard counts too, the second's does not.
first_player : poll_flags (two_players.user_inputs 0) ≡ 0x58
unfolding two_players gather get_status
first_player = refl

second_player : poll_flags (two_players.user_inputs 1) ≡ 0x18
unfolding two_players gather get_status
second_player = refl

-- A frame with every fourth byte of another colour.
abbrev striped : Bytes
striped i = if i % 4 == 0 then 0x21 else 0x0f

striped_is_known : (i : ℕ) → i < 61440 → striped i < 64
striped_is_known i h = ground arith

copy_frame-IsCopied_example : IsCopied 0 61440 striped zeros (copy_frame striped zeros)
copy_frame-IsCopied_example = copy_frame-IsCopied striped zeros striped_is_known

-- A byte of the palette memory that a program has set to 0xff.
abbrev spotted : Bytes
spotted i = if i == 1000 then 0xff else 0x0f

copy_frame-none_example : copy_frame spotted zeros ≡ none
copy_frame-none_example =
    copy_frame-none 1000 spotted zeros (omega arith) (omega arith) (omega arith)

started : IsOnScreen blank_system.ppu
started = record { cycle = omega arith; scanline = omega arith }

run_cycles-IsStepped_example :
    IsStepped (blank_system.master_cycle + suc 89341) (run_cycles (suc 89341) blank_system)
run_cycles-IsStepped_example = run_cycles-IsStepped 89341 blank_system started

abbrev left_game : Game
left_game = record { system = blank_system; prev_counter = 0; pixels = zeros; quit = true }

-- Once the user has quit, no round is played.
quit_at_once :
    game_loop (λ n. n) (record { quits = false; counter = 9 } ∷ []) left_game ≡ some left_game
unfolding game_loop
quit_at_once = refl
