-- ===== src/App/Keys/Buttons.antt =====
-- The keys that the program on the console sees.
use neschan.Base.{
  ℕ, ◌≡◌, refl, ◌∙◌, ap, arith, ◌==◌, ==_iff, ◌&&◌, if◌then◌else◌, Bool, true, false, some, List,
  [], ◌∷◌,
}
use neschan.Input.{Input, register_input}
use neschan.Input.Serial.{read_times, results, strobed, buttons, read_times-strobed}
use neschan.App.Keys.{
  Scancode, Button, key_l, key_j, key_space, key_return, key_w, key_s, key_a, key_d, gather,
  get_status, keyboard_device, register_inputs,
}

-- SDL gives 1 for a key that is down and 0 for one that is up.
abbrev pub down : Bool → ℕ
down b = if b then 1 else 0

-- What a read of the controller's port gives for it.
abbrev pub port : Bool → ℕ
port b = if b then 0x41 else 0x40

all_bool : (Bool → Bool) → Bool
all_bool f = f true && f false

all_bool_sound : (f : Bool → Bool) (b : Bool) → all_bool f ≡ true → f b ≡ true
unfolding all_bool
all_bool_sound f true h = ground (arith, h)
all_bool_sound f false h = ground (arith, h)

same : List ℕ → List ℕ → Bool
same [] [] = true
same (x ∷ xs) (y ∷ ys) = (x == y) && same xs ys
same _ _ = false

same_sound : (xs ys : List ℕ) → same xs ys ≡ true → xs ≡ ys
unfolding same
same_sound [] [] h = refl
same_sound [] (y ∷ ys) h = grind (arith, h)
same_sound (x ∷ xs) [] h = grind (arith, h)
same_sound (x ∷ xs) (y ∷ ys) h =
    cc ((==_iff x y).0 (ground (arith, h)), same_sound xs ys (ground (arith, h)))

-- The byte of eight keys, as the loop makes it.
abbrev keys_byte : (a b c d e f g h : Bool) → ℕ
keys_byte a b c d e f g h = gather (λ (b : Bool). down b) (a ∷ b ∷ c ∷ d ∷ e ∷ f ∷ g ∷ h ∷ []) 0

abbrev ports : (a b c d e f g h : Bool) → List ℕ
ports a b c d e f g h = port a ∷ port b ∷ port c ∷ port d ∷ port e ∷ port f ∷ port g ∷ port h ∷ []

abbrev is_right : (a b c d e f g h : Bool) → Bool
is_right a b c d e f g h = same (buttons (keys_byte a b c d e f g h)) (ports a b c d e f g h)

table :
    (all_bool λ a. all_bool λ b. all_bool λ c.
      all_bool
        λ d. all_bool λ e. all_bool λ f. all_bool λ g. all_bool λ h. is_right a b c d e f g h)
    ≡ true
unfolding all_bool same gather
table = refl

all_keys : (a b c d e f g h : Bool) → buttons (keys_byte a b c d e f g h) ≡ ports a b c d e f g h
all_keys a b c d e f g h =
    same_sound (buttons (keys_byte a b c d e f g h)) (ports a b c d e f g h) (
      all_bool_sound (λ h. is_right a b c d e f g h) h
        (all_bool_sound (λ g. all_bool λ h. is_right a b c d e f g h) g
          (all_bool_sound (λ f. all_bool λ g. all_bool λ h. is_right a b c d e f g h) f
            (all_bool_sound
              (λ e. all_bool λ f. all_bool λ g. all_bool λ h. is_right a b c d e f g h) e
              (all_bool_sound
                (λ d.
                  all_bool λ e. all_bool λ f. all_bool λ g. all_bool λ h. is_right a b c d e f g h)
                d
                (all_bool_sound
                  (λ c. all_bool λ d.
                    all_bool
                      λ e. all_bool λ f. all_bool λ g. all_bool λ h. is_right a b c d e f g h)
                  c
                  (all_bool_sound
                    (λ b. all_bool λ c. all_bool λ d.
                      all_bool
                        λ e. all_bool λ f. all_bool λ g. all_bool λ h. is_right a b c d e f g h)
                    b
                    (all_bool_sound
                      (λ a. all_bool λ b. all_bool λ c. all_bool λ d.
                        all_bool
                          λ e. all_bool λ f. all_bool λ g. all_bool λ h. is_right a b c d e f g h)
                      a table))))))))

-- With no joystick the keyboard is the first controller: after the strobe, eight reads of its port give
-- the keys L, J, space, return, W, S, A and D, in this order, bit 0 set for each key that is down.
pub register_inputs-keys :
    (pressed : ℕ → Scancode → Bool) (pads : ℕ → ℕ → Button → ℕ) (n : Input)
    → results (read_times 8 0 (strobed (register_inputs 0 pads (λ k key. down (pressed k key)) n)))
      ≡ some (
          port (pressed 0 key_l)
          ∷ port (pressed 0 key_j)
          ∷ port (pressed 0 key_space)
          ∷ port (pressed 0 key_return)
          ∷ port (pressed 0 key_w)
          ∷ port (pressed 0 key_s)
          ∷ port (pressed 0 key_a)
          ∷ port (pressed 0 key_d)
          ∷ [])
unfolding register_inputs register_input keyboard_device get_status gather
register_inputs-keys pressed pads n =
    (read_times-strobed (register_inputs 0 pads (λ k key. down (pressed k key)) n) 0
      (omega arith)).0
    ∙ ap some (
        all_keys (pressed 0 key_l) (pressed 0 key_j) (pressed 0 key_space) (pressed 0 key_return)
          (pressed 0 key_w) (pressed 0 key_s) (pressed 0 key_a) (pressed 0 key_d))
