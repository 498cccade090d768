-- ===== src/Examples/Machine.antt =====
-- A machine as the constructors leave it, with zeros where they write nothing, then powered on.
use neschan.Base.{ℕ, zero, suc, List, [], ◌∷◌, true, false, none, Bytes}
use neschan.Cpu.State.{Cpu}
use neschan.Ppu.State.{Ppu}
use neschan.Ppu.Sprites.{blank_sprite}
use neschan.Input.{Input}
use neschan.System.State.{Memory, System}

abbrev pub zeros : Bytes
zeros _ = 0

abbrev pub bytes : List ℕ → Bytes
bytes [] i = 0
bytes (x ∷ xs) zero = x
bytes (x ∷ xs) (suc i) = bytes xs i

abbrev pub blank_cpu : Cpu
blank_cpu = record {
  a = 0;
  x = 0;
  y = 0;
  pc = 0;
  s = 0xfd;
  p = 0x24;
  cycle = 0;
  nmi_pending = false;
  dma_pending = false;
  dma_addr = 0;
  stop_at_infinite_loop = false;
  is_stop_at_addr = false;
  stop_at_addr = 0;
}

abbrev pub blank_ppu : Ppu
blank_ppu = record {
  vram = zeros;
  oam = zeros;
  name_tbl_addr = 0;
  bg_pattern_tbl_addr = 0;
  sprite_pattern_tbl_addr = 0;
  ppu_addr_inc = 1;
  vblank_nmi = false;
  use_8x16_sprite = false;
  sprite_height = 8;
  show_bg = false;
  show_sprites = false;
  gray_scale_mode = false;
  latch = 0;
  sprite_overflow = false;
  vblank_started = false;
  sprite_0_hit = false;
  oam_addr = 0;
  addr_toggle = false;
  ppu_addr = 0;
  temp_ppu_addr = 0;
  fine_x_scroll = 0;
  scroll_y = 0;
  vram_read_buf = 0;
  master_cycle = 0;
  scanline_cycle = 0;
  cur_scanline = 0;
  frame_count = 0;
  protect_register = false;
  stop_after_frame = 0xffffffff;
  auto_stop = false;
  tile_index = 0;
  tile_palette_bit32 = 0;
  bitplane0 = 0;
  on_buffer_1 = true;
  frame_buffer_1 = zeros;
  frame_buffer_bg = zeros;
  frame_buffer_2 = zeros;
  pixel_cycle = zeros;
  x_offset = 0;
  sprite_buf = λ _. blank_sprite;
  last_sprite_id = 0;
  has_sprite_0 = false;
  mask_oam_read = false;
  sprite_pos_y = 0;
  mirroring_flags = 2;
}

abbrev pub blank_input : Input
blank_input = record {
  strobe_on = false;
  button_flags = zeros;
  button_id = zeros;
  user_inputs = λ _. none;
}

abbrev pub blank_memory : Memory
blank_memory = record {
  ram = zeros;
  mapper = none;
  mapper_info = record { code_addr = 0; reg_start = 0; reg_end = 0; flags = 0 };
}

abbrev pub blank_system : System
blank_system = record {
  cpu = blank_cpu;
  mem = blank_memory;
  ppu = blank_ppu;
  input = blank_input;
  master_cycle = 0;
  stop_requested = false;
}
