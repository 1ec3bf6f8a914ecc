-- ===== src/Fsck/Samples/Drive.antt =====
-- A file system of 8192-byte zones with an empty root directory, on a device that never fails. Its
-- state is the super block in the buffer.
use hddchecker.Prelude.{ℕ, ◌*◌, ◌/◌, ◌%◌, true, false, some, [], ret, if◌then◌else◌, ◌==◌}
use hddchecker.Fsck.Prompts.{Session}
use hddchecker.Fsck.Layout.{Super, Mount, BlockInfo, Inode, Entry, fetched}
use hddchecker.Fsck.Device.{Device, Pfs, Kernel}
use hddchecker.Fsck.Run.{Env, Status}
use hddchecker.Fsck.Samples.{clean_cache}

abbrev pub super : Super
super = record {
  magic = 1346786048;
  version = 3;
  zone_size = 8192;
  num_subs = 1;
  fsck_stat = 1;
  root_sub = 0;
  root_number = 520;
  log_count = 16;
}

abbrev pub drive : Device Super
drive = record {
  get_sub_number = λ w. (1, w);
  get_size = λ sub w. (if sub == 0 then 262144 else 65536, w);
  read = λ sub sector count w. (ret 0, w);
  write = λ sub sector count w. (ret 0, w);
  flush_cache = λ w. (tt, w);
  get_super = λ w. (w, w);
  put_super = λ s w. (tt, s);
  get_word = λ i w. (0, w);
  put_word = λ i v w. (tt, w);
  fill_ones = λ w. (tt, w);
  fill_attribute = λ w. (tt, w);
  attribute = record {
    rewind = λ w. w;
    read = λ n w. (ret (n * 512), w);
    write_zeros = λ n w. (ret (n * 512), w);
  };
  clear_part_error = λ w. w;
  transfer = record { read = λ s old w. (ret 0, λ x. 0, w); write = λ s new w. (ret 0, w) };
}

abbrev pub block : BlockInfo
block = record { number = 520; subpart = 0; count = 1 }

abbrev pub root : Inode
root = record {
  mode = 4607;
  is_closed = false;
  size = 512;
  subpart = 0;
  number_blocks = 1;
  number_data = 1;
  number_segdesg = 1;
  inode_block = block;
  last_segment = block;
  next_segment = record { number = 0; subpart = 0; count = 0 };
}

-- An entry `.` of an odd length.
abbrev pub entry : Entry
entry = record { inode = 520; sub = 0; p_len = 1; a_len = 4109; path0 = 46; path1 = 0; path2 = 0 }

abbrev pub library_of : {W : Type 0} → Pfs W
library_of = record {
  scale = λ size base. if base == 512 then 4 else 3;
  bitmap_blocks = λ scale size. 1;
  fix_index = λ i. i % 114;
  setup_info = λ m sub number. record { chunk = 0; index = number / 32; bit = number % 32 };
  meta_size = 1024;
  block_size = 1;
  restore_journal = λ m w. (ret 0, w);
  calc_free_zones = λ m sub w. (1000, w);
  flush_dirty = λ w. (tt, w);
  close_cache = λ w. (tt, w);
  get_block = λ load sub number w. (fetched 2, w);
  inode_data = λ sub number w. (fetched 1, w);
  bitmap_chunk = λ sub chunk w. (some 3, w);
  entries_chunk = λ pos w. (fetched 4, w);
  sync_position = λ pos size n w. ((ret 0, pos), w);
  use_link = λ h w. (tt, w);
  free = λ h w. (tt, w);
  mark_dirty = λ h w. (tt, w);
  get_sub = λ h w. (0, w);
  get_number = λ h w. (4160, w);
  get_inode = λ h w. (root, w);
  put_inode = λ h ino w. (tt, w);
  get_data = λ h i w. (block, w);
  get_bits = λ h i w. (4294967295, w);
  put_bits = λ h i v w. (tt, w);
  clear_entries = λ h w. (tt, w);
  get_entry = λ h at w. (entry, w);
  put_entry = λ h at e w. (tt, w);
}

abbrev pub library : Pfs Super
library = library_of

abbrev pub kernel : Kernel Super
kernel = record {
  get_type = λ w. ((ret 0, 256), w);
  type_pfs = 256;
  has_device = λ w. (true, w);
  open_file = λ w. (ret 3, w);
  close_file = λ fd w. (tt, w);
  start_thread = λ w. (ret 0, w);
  get_time = λ w. ((0, 0), w);
  usec_part = λ t. 250;
}

abbrev pub mounted : Mount
mounted = record {
  num_subs = 1;
  zsize = 8192;
  sector_scale = 4;
  inode_scale = 3;
  root_sub = 0;
  root_number = 520;
  log_count = 16;
  total_zones = 20480;
  zfree = 2000;
  zone_sizes = λ i. if i == 0 then 262144 else 65536;
  zone_map = λ i. if i == 0 then 0 else 16384;
}

abbrev pub idle_status : Status
idle_status = record { zone_used = 18480; block_count = 0; files = 0; directories = 0; level = 0 }

abbrev pub automatic : Session
automatic = record {
  write_enabled = true;
  auto_mode = true;
  errors = 0;
  fixed = 0;
  has_error = false;
}

abbrev pub locked : Session
locked = record automatic { write_enabled = false }

abbrev pub resting : {W : Type 0} → W → Session → Env W
resting w c = record {
  session = c;
  keys = [];
  status = idle_status;
  is_stopped = false;
  requests = [];
  clears = 0;
  is_done = false;
  fd = 0;
  mount = mounted;
  cache = clean_cache;
  world = w;
}

abbrev pub at_rest : Session → Env Super
at_rest c = resting super c

-- A device whose state is the words of IOBuffer.
abbrev pub words : Device (ℕ → ℕ)
words = record {
  get_sub_number = λ w. (0, w);
  get_size = λ sub w. (262144, w);
  read = λ sub sector count w. (ret 0, w);
  write = λ sub sector count w. (ret 0, w);
  flush_cache = λ w. (tt, w);
  get_super = λ w. (super, w);
  put_super = λ s w. (tt, w);
  get_word = λ i w. (w i, w);
  put_word = λ i v w. (tt, λ j. if j == i then v else w j);
  fill_ones = λ w. (tt, λ j. 4294967295);
  fill_attribute = λ w. (tt, λ j. 0);
  attribute = record {
    rewind = λ w. w;
    read = λ n w. (ret (n * 512), w);
    write_zeros = λ n w. (ret (n * 512), w);
  };
  clear_part_error = λ w. w;
  transfer = record { read = λ s old w. (ret 0, λ x. 0, w); write = λ s new w. (ret 0, w) };
}

abbrev pub filled : Env (ℕ → ℕ)
filled = record {
  session = automatic;
  keys = [];
  status = idle_status;
  is_stopped = false;
  requests = [];
  clears = 0;
  is_done = false;
  fd = 3;
  mount = mounted;
  cache = clean_cache;
  world = λ j. if j == 2 then 7 else 0;
}
