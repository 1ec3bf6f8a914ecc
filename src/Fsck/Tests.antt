-- ===== src/Fsck/Tests.antt =====
-- The theorems on the scan of a file system at a drive.
use hddchecker.Prelude.{false, ◌≡◌, refl, inr, true, arith}
use hddchecker.Fsck.Layout.{Super}
use hddchecker.Fsck.Run.{Env}
use hddchecker.Fsck.Run.Keeps.{Holds, Within}
use hddchecker.Fsck.Run.Leads.{Ends}
use hddchecker.Fsck.Run.Settled.{IsQuiet, IsStopped, IsReadOnly}
use hddchecker.Fsck.Samples.Drive.{
  words, filled, drive, library, kernel, mounted, block, at_rest, automatic, locked,
}
use hddchecker.Fsck.FileBitmap.{check_file_bitmap}
use hddchecker.Fsck.FileBitmap.Ending.{check_file_bitmap-IsQuiet}
use hddchecker.Fsck.Compare.{compare_words}
use hddchecker.Fsck.Compare.Copies.{BufferLaws, IsCopied, compare_words-Agrees}
use hddchecker.Fsck.Files.{check_files}
use hddchecker.Fsck.Files.Ending.{check_files-IsStopped}
use hddchecker.Fsck.Thread.{thread}
use hddchecker.Fsck.Thread.Kept.{IsEnded, thread-IsEnded}
use hddchecker.Fsck.Thread.ReadOnly.{thread-IsReadOnly}
use hddchecker.Fsck.Open.{open_fsck}
use hddchecker.Fsck.Open.Opening.{IsBegun, open_fsck-IsBegun}
use hddchecker.Fsck.Control.{estimate, control, wait}
use hddchecker.Fsck.Control.Estimate.{IsEstimate, estimate-IsEstimate}
use hddchecker.Fsck.Control.Signals.{IsStep, IsWaiting, signals, control-IsStep}

abbrev stopping : Env Super
stopping = record (at_rest automatic) { is_stopped = true }

abbrev ended : Env Super
ended = record (at_rest automatic) { is_done = true }

check_files-IsStopped_example :
    Ends ⊥ (λ a. IsStopped) (check_files drive library mounted 64 1 1 stopping)
check_files-IsStopped_example = check_files-IsStopped drive library mounted 63 1 1 stopping refl

thread-IsEnded_example :
    Ends
      (Unit {0})
      (λ a s'. IsEnded 0 s' × (s'.is_done ≡ true))
      (thread drive library mounted (at_rest automatic))
thread-IsEnded_example = thread-IsEnded drive library mounted (at_rest automatic) (λ e. refl)

thread-IsReadOnly_example :
    Holds (Within (IsReadOnly 0)) (thread drive library mounted (at_rest locked))
thread-IsReadOnly_example = thread-IsReadOnly drive library mounted (at_rest locked) refl

-- The mode 3 is FSCK_MODE_WRITE and FSCK_MODE_AUTO.
open_fsck-IsBegun_example :
    Ends (Unit {0}) IsBegun (open_fsck drive library kernel 3 (at_rest locked))
open_fsck-IsBegun_example = open_fsck-IsBegun drive library kernel 3 (at_rest locked)

estimate-IsEstimate_example :
    Ends ⊥ (λ n s'. IsEstimate 18480 n) (estimate drive kernel (at_rest automatic))
estimate-IsEstimate_example = estimate-IsEstimate drive kernel (at_rest automatic) (omega arith)

control-IsStep_example :
    Ends (IsWaiting wait ended) (IsStep wait (signals ended)) (control drive kernel wait ended)
control-IsStep_example = control-IsStep drive kernel wait ended

check_file_bitmap-IsQuiet_example :
    Ends ⊥ (λ r. IsQuiet) (check_file_bitmap library mounted block (at_rest automatic))
check_file_bitmap-IsQuiet_example =
    check_file_bitmap-IsQuiet library mounted block (at_rest automatic) (omega arith) (omega arith)
      (inr refl)

words_laws : BufferLaws words (λ w. w)
words_laws = record { got = λ i w. refl; kept = λ i j w. refl; put = λ i v j w. refl }

-- The third of 64 words differs from the bitmap, which is empty.
compare_words-Agrees_example :
    Ends ⊥ (IsCopied (λ w. w) 64 1 0 filled) (compare_words words 64 0 1 0 false filled)
compare_words-Agrees_example =
    compare_words-Agrees words (λ w. w) words_laws 64 1 0 filled (refl, refl)
