-- ===== src/App/Keys.antt =====
-- The input devices of src/neschan.cpp. SDL's scancodes and buttons are their names, and its
-- `SDL_GetKeyboardState` and `SDL_GameControllerGetButton` are functions of the number of the poll.
pub mod Buttons
use neschan.Base.{
  ℕ, zero, suc, ◌+◌, bit_or, ◌<<<◌, ◌==◌, ltb, if◌then◌else◌, u8, Bool, List, [], ◌∷◌,
}
use neschan.Input.{Input, InputDevice, register_input}

pub data Scancode : Type 0 where
  key_l key_j key_space key_return key_w key_s key_a key_d : Scancode

pub data Button : Type 0 where
  button_a button_x button_guide button_start dpad_up dpad_down dpad_left dpad_right : Button

-- `sdl_keyboard_controller::s_buttons` and `sdl_game_controller::s_buttons`.
abbrev pub keyboard_buttons : List Scancode
keyboard_buttons = key_l ∷ key_j ∷ key_space ∷ key_return ∷ key_w ∷ key_s ∷ key_a ∷ key_d ∷ []

abbrev pub controller_buttons : List Button
controller_buttons =
    button_a ∷ button_x ∷ button_guide ∷ button_start ∷ dpad_up ∷ dpad_down ∷ dpad_left ∷ dpad_right
    ∷ []

-- The loop over the buttons: `flags <<= 1; flags |= state`, in a `uint8_t`.
unfoldable pub gather : {B : Type 0} → (B → ℕ) → List B → ℕ → ℕ
gather state [] flags = flags
gather state (b ∷ bs) flags = gather state bs (u8 (bit_or (u8 (flags <<< 1)) (state b)))

-- `sdl_keyboard_controller::get_status`.
unfoldable pub get_status : (Scancode → ℕ) → ℕ
unfolding gather
get_status states = gather states keyboard_buttons 0

-- `sdl_game_controller::poll_status`. The first player may use the keyboard too.
unfoldable pub poll_status : ℕ → (Button → ℕ) → (Scancode → ℕ) → ℕ
unfolding gather get_status
poll_status id pad states =
    let flags = gather pad controller_buttons 0 in
    if id == 0 then bit_or flags (get_status states) else flags

-- The keyboard, and a game controller with it.
unfoldable pub keyboard_device : (ℕ → Scancode → ℕ) → InputDevice
unfolding get_status
keyboard_device states = record { poll_status = λ n. get_status (states n); polls = 0 }

unfoldable pub controller_device : ℕ → (ℕ → Button → ℕ) → (ℕ → Scancode → ℕ) → InputDevice
controller_device id pad states = record {
  poll_status = λ n. poll_status id (pad n) (states n);
  polls = 0;
}

abbrev pub max_player : ℕ
max_player = 4

-- The loop over the joysticks, from number `i` on.
unfoldable pub register_pads : ℕ → ℕ → (ℕ → ℕ → Button → ℕ) → (ℕ → Scancode → ℕ) → Input → Input
unfolding register_input controller_device
register_pads zero i pads states n = n
register_pads (suc left) i pads states n =
    let m = register_input i (controller_device i (pads i) states) n in
    register_pads left (i + 1) pads states (if ltb i max_player then m else n)

-- `main`, once the number of joysticks is known.
unfoldable pub register_inputs : ℕ → (ℕ → ℕ → Button → ℕ) → (ℕ → Scancode → ℕ) → Input → Input
unfolding register_pads register_input keyboard_device
register_inputs num_joysticks pads states n =
    if num_joysticks == 0
    then register_input 0 (keyboard_device states) n
    else register_pads num_joysticks 0 pads states n
