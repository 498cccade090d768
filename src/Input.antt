-- ===== src/Input.antt =====
-- The controllers: `nes_input` of lib/inc/nes_input.h.
-- A device is the platform's (SDL in src/neschan.cpp). Here it is the list of what its
-- `poll_status` returns at each call, and the count of the calls made so far.
pub mod Serial
use neschan.Base.{
  ℕ, ◌+◌, ◌-◌, bit_and, bit_or, ◌>>>◌, ◌==◌, leb, if◌then◌else◌, u8, test_bits, Bool, false, not,
  ◌&&◌, Option, none, some, Bytes, update,
}

pub record InputDevice : Type 0 where
  pub poll_status : ℕ → ℕ
  pub polls : ℕ

pub record Input : Type 0 where
  pub strobe_on : Bool
  pub button_flags : Bytes  -- nes_button_flags[4]
  pub button_id : Bytes  -- uint8_t[4]
  pub user_inputs : ℕ → Option InputDevice  -- shared_ptr<nes_input_device>[4]

unfoldable pub register_input : ℕ → InputDevice → Input → Input
register_input id input n = record n { user_inputs = update n.user_inputs id (some input) }

unfoldable pub unregister_input : ℕ → Input → Input
unregister_input id n = record n { user_inputs = update n.user_inputs id none }

unfoldable pub unregister_all_inputs : Input → Input
unregister_all_inputs n = record n { user_inputs = λ _. none }

-- `NES_MAX_PLAYER` rounds, each on one entry of the two arrays.
abbrev pub clear_players : Bytes → Bytes
clear_players f = update (update (update (update f 0 0) 1 0) 2 0) 3 0

unfoldable pub init : Input → Input
init n = record n {
  strobe_on = false;
  button_flags = clear_players n.button_flags;
  button_id = clear_players n.button_id;
}

-- What `poll_status()` returns now, and the device afterwards.
abbrev pub poll_flags : Option InputDevice → ℕ
poll_flags none = 0
poll_flags (some d) = d.poll_status d.polls

abbrev pub polled : Option InputDevice → Option InputDevice
polled none = none
polled (some d) = some (record d { polls = d.polls + 1 })

-- One round of the loop of `reload`.
unfoldable pub reload_player : ℕ → Input → Input
reload_player i n = record n {
  button_flags = update n.button_flags i (poll_flags (n.user_inputs i));
  button_id = update n.button_id i 0;
  user_inputs = update n.user_inputs i (polled (n.user_inputs i));
}

unfoldable pub reload : Input → Input
unfolding reload_player
reload n = reload_player 3 (reload_player 2 (reload_player 1 (reload_player 0 n)))

unfoldable pub write_controller : ℕ → Input → Input
unfolding reload
write_controller val n =
    let m = record n { strobe_on = test_bits val 0x1 } in
    if n.strobe_on && not m.strobe_on then reload m else m

-- A shift by `7 - _button_id[id]` is undefined once eight bits are read: `none`.
unfoldable pub shift_out : ℕ → Input → Option (ℕ × Input)
shift_out id n =
    if leb (n.button_id id) 7
    then some (
      bit_or 0x40 (bit_and (n.button_flags id >>> (7 - n.button_id id)) 0x1),
      record n { button_id = update n.button_id id (u8 (n.button_id id + 1)) },
    )
    else none

unfoldable pub read_controller : ℕ → Input → Option (ℕ × Input)
unfolding reload shift_out
read_controller id n = shift_out id (if n.strobe_on then reload n else n)
