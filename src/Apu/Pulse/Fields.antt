-- ===== src/Apu/Pulse/Fields.antt =====
-- What the register writes leave in the fields of a pulse channel.
use neschan.Base.{
  ℕ, ◌+◌, ◌*◌, ◌/◌, ◌%◌, ◌<◌, ◌≡◌, refl, ap, ◌∙◌, ◌==◌, arith, ltb, bit_and, bit_or, ◌<<<◌, ◌>>>◌,
  u16, true,
}
use neschan.Base.Bits.{equal_below, equal_below₂}
use neschan.Base.Table.{all_below, all_below_sound}
use neschan.Apu.Pulse.{Pulse, init, write_duty, write_sweep, write_timer, write_length_counter}

-- A write to one of the four registers of the channel.
pub data Write : Type 0 where
  duty : ℕ → Write
  sweep : ℕ → Write
  timer_low : ℕ → Write
  length : ℕ → Write

abbrev pub value : Write → ℕ
value (duty v) = v
value (sweep v) = v
value (timer_low v) = v
value (length v) = v

abbrev pub write : Write → Pulse → Pulse
write (duty v) p = write_duty v p
write (sweep v) p = write_sweep v p
write (timer_low v) p = write_timer v p
write (length v) p = write_length_counter v p

-- Each field has the bits that the chip gives it: two for the duty cycle, four for the volume, eleven for
-- the timer, five for the length counter, and three for each number of the sweep.
pub record InRange (p : Pulse) : Type 0 where
  pub duty : p.duty_cycle < 4
  pub volume : p.volume < 16
  pub timer : p.timer < 2048
  pub cur_timer : p.cur_timer < 2048
  pub length : p.length_counter < 32
  pub period : p.period < 8
  pub shift : p.shift_count < 8
  pub divider : p.divider < 8

-- A bound on what bytes give, by evaluation.
below :
    (f : ℕ → ℕ) (bound val : ℕ)
    → all_below 256 (λ v. ltb (f v) bound) ≡ true
    → val < 256
    → f val < bound
below f bound val table h = ground (arith, all_below_sound 256 (λ v. ltb (f v) bound) val table h)

-- The timer register takes a byte into a timer of eleven bits.
or_below : (t v : ℕ) → t < 2048 → v < 256 → bit_or t v < 2048
or_below t v ht hv =
    below (λ w. bit_or t w) 2048 v
      (all_below_sound 2048 (λ t. all_below 256 (λ w. ltb (bit_or t w) 2048)) t
        (unfold all_below in refl) ht)
      hv

low_bits : (t : ℕ) → t < 2048 → bit_and t 0xff ≡ t % 256
low_bits t ht =
    equal_below 2048 (λ t. bit_and t 0xff) (λ t. t % 256) t (unfold all_below in refl) ht

length_timer :
    (t v : ℕ)
    → t < 2048
    → v < 256
    → u16 (bit_or (bit_and t 0xff) (bit_and v 0x7 <<< 8)) ≡ v % 8 * 256 + t % 256
length_timer t v ht hv = rw (low_bits t ht) (
    equal_below₂ 256 256 (λ t v. u16 (bit_or t (bit_and v 0x7 <<< 8))) (λ t v. v % 8 * 256 + t)
      (t % 256) v (unfold all_below in refl) (omega arith) hv)

low_or : (t v : ℕ) → t < 2048 → v < 256 → bit_or t v % 256 ≡ bit_or (t % 256) v
low_or t v ht hv =
    equal_below₂ 2048 256 (λ t v. bit_or t v % 256) (λ t v. bit_or (t % 256) v) t v
      (unfold all_below in refl) ht hv

init-InRange : (p : Pulse) → InRange p → InRange (init p)
unfolding init
init-InRange p r = record {
  duty = r.duty;
  volume = r.volume;
  timer = omega arith;
  cur_timer = omega arith;
  length = r.length;
  period = r.period;
  shift = r.shift;
  divider = r.divider;
}

-- Every register write of a byte keeps the fields of the pulse channel within the bits that the chip has
-- for them: the timer and its counter below 2048, the length counter below 32, the volume below 16, the
-- duty cycle below 4, and the sweep's period, its shift count and its divider below 8.
pub write-InRange : (w : Write) (p : Pulse) → value w < 256 → InRange p → InRange (write w p)
unfolding write_duty write_sweep write_timer write_length_counter
write-InRange (duty v) p h r = record {
  duty = below (λ v. bit_and v 0xc0 >>> 6) 4 v (unfold all_below in refl) h;
  volume = below (λ v. bit_and v 0x7) 16 v (unfold all_below in refl) h;
  timer = r.timer;
  cur_timer = r.cur_timer;
  length = r.length;
  period = r.period;
  shift = r.shift;
  divider = r.divider;
}
write-InRange (sweep v) p h r = record {
  duty = r.duty;
  volume = r.volume;
  timer = r.timer;
  cur_timer = r.cur_timer;
  length = r.length;
  period = below (λ v. bit_and v 0x70 >>> 4) 8 v (unfold all_below in refl) h;
  shift = below (λ v. bit_and v 0x7) 8 v (unfold all_below in refl) h;
  divider = r.divider;
}
write-InRange (timer_low v) p h r = record {
  duty = r.duty;
  volume = r.volume;
  timer = or_below p.timer v r.timer h;
  cur_timer = r.cur_timer;
  length = r.length;
  period = r.period;
  shift = r.shift;
  divider = r.divider;
}
write-InRange (length v) p h r = record {
  duty = r.duty;
  volume = r.volume;
  timer = in_timer;
  cur_timer = in_timer;
  length = omega arith;
  period = r.period;
  shift = r.shift;
  divider = r.divider;
}
  where
    in_timer : u16 (bit_or (bit_and p.timer 0xff) (bit_and v 0x7 <<< 8)) < 2048
    in_timer = omega (arith, length_timer p.timer v r.timer h)

-- The two timer registers, written one after the other to any channel whose timer is in its range: the
-- timer takes its upper three bits from the second byte, but its low byte is the bitwise or of the first
-- byte with the low byte that was there, so that it is the first byte exactly when the old one has no
-- other bits. The counter starts at the timer, and the length counter has the upper five bits of the
-- second byte.
pub write_length_counter-write_timer :
    (lo hi : ℕ) (p : Pulse)
    → lo < 256
    → hi < 256
    → p.timer < 2048
    → (let q = write_length_counter hi (write_timer lo p) in
        (q.timer ≡ hi % 8 * 256 + bit_or (p.timer % 256) lo)
        × ((q.timer % 256 == lo) ≡ (bit_or (p.timer % 256) lo == lo))
        × (q.cur_timer ≡ q.timer)
        × (q.length_counter ≡ hi / 8))
unfolding write_timer write_length_counter
write_length_counter-write_timer lo hi p hl hh ht =
    let e : u16 (bit_or (bit_and (bit_or p.timer lo) 0xff) (bit_and hi 0x7 <<< 8))
        ≡ hi % 8 * 256 + bit_or (p.timer % 256) lo =
      length_timer (bit_or p.timer lo) hi (or_below p.timer lo ht hl) hh
      ∙ ap (λ (n : ℕ). hi % 8 * 256 + n) (low_or p.timer lo ht hl) in
    (
      e,
      ap (λ (n : ℕ). n % 256 == lo) e
          ∙ ap (λ (n : ℕ). n == lo) (omega (arith, low_or p.timer lo ht hl)),
      refl,
      refl,
    )
