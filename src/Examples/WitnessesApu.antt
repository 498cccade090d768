-- ===== src/Examples/WitnessesApu.antt =====
-- Examples for the audio buffer and the registers of lib/inc/nes_apu.h.
use neschan.Base.{
  ℕ, ◌%◌, ◌==◌, ◌+◌, ◌<◌, ◌≡◌, refl, arith, Bool, true, false, Bytes, Option, some, none,
}
use neschan.Apu.Audio.{
  Audio, read_buffer, write_buffer, source, silence, store, wrapped, read_around, read_front,
  write_ahead, write_behind, write_straight, write_split, move_write,
}
use neschan.Apu.Audio.Queue.{heard}
use neschan.Apu.Audio.Valid.{IsValid, contents}
use neschan.Apu.Audio.Read.Taken.{IsLeft}
use neschan.Apu.Audio.Read.Refine.{read_buffer-heard, read_buffer-IsLeft}
use neschan.Apu.Audio.Write.Refine.{IsAdded, write_buffer-IsAdded}
use neschan.Apu.Pulse.{Pulse, init, write_timer, write_length_counter}
use neschan.Apu.Pulse.Fields.{
  length, write, InRange, write-InRange, write_length_counter-write_timer,
}
use neschan.Apu.Status.{
  Apu, power_on, reset, step_to, write_status, read_status, write_frame_counter, write_pulse_1_duty,
  write_pulse_1_sweep, write_pulse_1_timer_low, write_pulse_1_length_counter,
}

-- Eight bytes, of which six are sound: two at the end and four at the start.
abbrev ring : Audio
ring = record {
  buf_full = false;
  write_offset = 4;
  read_offset = 6;
  size = 8;
  audio_buffer = λ i. i + 10;
}

ring-IsValid : IsValid ring
ring-IsValid = record {
  nonempty = omega arith;
  small = omega arith;
  read_in = omega arith;
  write_in = omega arith;
  write_end = λ e. absurd (omega (arith, e));
  full = λ e. grind (arith, e);
}

abbrev sound : Bytes
sound i = 100 + i

read_buffer-heard_example :
    (out : Bytes) × (a' : Audio) × (read_buffer sound 7 ring ≡ some (out, a'))
    × ((i : ℕ) → i < 7 → out i ≡ heard (contents ring) i)
read_buffer-heard_example = read_buffer-heard sound 7 ring ring-IsValid

read_buffer-IsLeft_example :
    (out : Bytes) × (a' : Audio) × (read_buffer sound 2 ring ≡ some (out, a')) × IsLeft 2 ring a'
read_buffer-IsLeft_example = read_buffer-IsLeft sound 2 ring ring-IsValid (omega arith) refl

write_buffer-IsAdded_example :
    (a' : Audio) × (write_buffer sound 2 ring ≡ some a') × IsAdded sound 2 ring a'
write_buffer-IsAdded_example = write_buffer-IsAdded sound 2 ring ring-IsValid (omega arith) refl

-- The offset that a read across the end leaves.
offset_of : Option (Bytes × Audio) → ℕ
offset_of none = 0
offset_of (some (out, a)) = a.read_offset

-- A read of three bytes that goes on at the start of the vector leaves the offset 7, where the fourth
-- byte of the queue is at 1.
crossing_read : offset_of (read_buffer sound 3 ring) ≡ 7
unfolding offset_of read_buffer read_around read_front source silence
crossing_read = refl

full_of : Option Audio → Bool
full_of none = false
full_of (some a) = a.buf_full

-- A write that goes on at the start of the vector and fills it does not set the flag.
crossing_write :
    full_of (write_buffer sound 5 (record ring { write_offset = 6; read_offset = 3 })) ≡ false
unfolding full_of write_buffer write_ahead write_behind write_straight write_split store wrapped
    move_write
crossing_write = refl

abbrev quiet : Pulse
quiet = record {
  duty_cycle = 0;
  length_counter_halt = false;
  constant_volume = false;
  volume = 0;
  cur_timer = 0;
  timer = 0x1ab;
  length_counter = 0;
  divider = 0;
  sweep_enabled = false;
  period = 0;
  negate = false;
  shift_count = 0;
}

quiet-InRange : InRange quiet
quiet-InRange = record {
  duty = omega arith;
  volume = omega arith;
  timer = omega arith;
  cur_timer = omega arith;
  length = omega arith;
  period = omega arith;
  shift = omega arith;
  divider = omega arith;
}

write-InRange_example : InRange (write (length 0xff) quiet)
write-InRange_example = write-InRange (length 0xff) quiet (omega arith) quiet-InRange

-- A channel whose timer has been written before.
abbrev tuned : Pulse
tuned = record quiet { timer = 0x4f0 }

write_length_counter-write_timer_example :
    (let q = write_length_counter 0x0a (write_timer 0x0f tuned) in
      (q.timer ≡ 0x2ff)
      × ((q.timer % 256 == 0x0f) ≡ false)
      × (q.cur_timer ≡ q.timer)
      × (q.length_counter ≡ 1))
write_length_counter-write_timer_example =
    write_length_counter-write_timer 0x0f 0x0a tuned (omega arith) (omega arith) (omega arith)

-- A second low byte is added to the bits of the first.
timer_twice : (write_timer 0x0f (write_timer 0xf0 (init quiet))).timer ≡ 0xff
unfolding init write_timer
timer_twice = refl

abbrev chip : Apu
chip = record {
  dmc_enabled = true;
  noise_enabled = true;
  triangle_enabled = false;
  pulse_2_enabled = true;
  pulse_1_enabled = true;
  frame_counter_mode = 1;
  irq_inhibit = false;
}

-- What the status register says is running after a write of all five channels is always 0.
status_run :
    read_status (
      step_to 5 (
        write_pulse_1_duty 1 (
          write_pulse_1_sweep 2 (
            write_pulse_1_timer_low 3 (
              write_pulse_1_length_counter 4
                (write_status 0x1f (write_frame_counter 0xc0 (reset (power_on chip)))))))))
    ≡ 0
unfolding read_status
status_run = refl
