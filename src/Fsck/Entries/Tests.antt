-- ===== src/Fsck/Entries/Tests.antt =====
-- A block of two entries, of which the second is too short for its name and for what is left.
use hddchecker.Prelude.{ℕ, ◌==◌, if◌then◌else◌}
use hddchecker.Fsck.Layout.{Entry}
use hddchecker.Fsck.Device.{Pfs}
use hddchecker.Fsck.Samples.Drive.{library_of, entry}

-- The entries by their offsets.
abbrev Chunk : Type 0
Chunk = ℕ → Entry

abbrev chunk : Pfs Chunk
chunk = record library_of {
  get_entry = λ link at w. (w at, w);
  put_entry = λ link at e w. (tt, λ o. if o == at then e else w o);
}

-- `..` and the rest of the block, 500 bytes, and a file of 20 characters in the last 12 bytes.
abbrev two : Chunk
two o =
    if o == 500
    then record entry { p_len = 20; a_len = 8200 }
    else record entry { p_len = 2; a_len = 4596 }
