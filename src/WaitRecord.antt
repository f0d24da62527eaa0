-- ===== src/WaitRecord.antt =====
-- src/wait_record.ts: decodeWaitRecord and waitRequest. The record is the kernel's
-- `yurt_wait_result_v2`: the process, its exit code, its signal and flags, four bytes each, and two times.
mod Tests
use yurt_playground.Base.{
  ℕ, ◌+◌, ◌-◌, ◌*◌, ◌/◌, ◌%◌, ◌^◌, ◌≤◌, ◌<◌, ◌≡◌, refl, sym, ap, ◌∙◌, Bool, true, false, List, [],
  ◌∷◌, ◌++◌, Outcome, ok, err, ltb, ◌==◌, if◌then◌else◌, length, take, drop, ℤ, pos, negsuc, arith,
}
use yurt_playground.StoreLog.Record.{little_endian, read_little_endian, slice}
use yurt_playground.StoreLog.Record.Trip.{read_little_endian-little_endian}
use yurt_playground.Executions.Signals.{WaitStatus, exit_code, signal_death}

abbrev wait_record_len : ℕ
wait_record_len = 32

pub data WaitRecordError : Type 0 where
  short_record : ℕ → WaitRecordError

-- `getInt32` of four bytes, in two's complement.
unfoldable pub int32 : ℕ → ℤ
int32 value = if ltb value 2147483648 then pos value else negsuc (4294967296 - value - 1)

status_of : ℤ → ℤ → Bool → WaitStatus
status_of code (pos signal) core = if ltb 0 signal then signal_death signal core else exit_code code
status_of code (negsuc n) core = exit_code code

-- The lowest bit of the flags is that of the first byte.
unfoldable pub decode_wait_record : List ℕ → Outcome WaitRecordError WaitStatus
unfolding int32 status_of
decode_wait_record bytes =
    if ltb (length bytes) wait_record_len
    then err (short_record (length bytes))
    else ok (
        status_of (int32 (read_little_endian (slice 4 4 bytes)))
          (int32 (read_little_endian (slice 8 4 bytes)))
          (read_little_endian (slice 12 4 bytes) % 2 == 1))

-- The process, and WNOHANG.
wait_request : ℕ → List ℕ
wait_request pid = little_endian 4 (pid % 4294967296) ++ little_endian 4 1

-- The kernel's record of a process's end.
abbrev pub kernel_record : ℕ → ℕ → ℕ → ℕ → List ℕ → List ℕ
kernel_record pid code signal flags times =
    little_endian 4 pid
    ++ (little_endian 4 code ++ (little_endian 4 signal ++ (little_endian 4 flags ++ times)))

decode-kernel_record :
    (pid code signal flags : ℕ) (times : List ℕ)
    → code < 256 ^ 4
    → signal < 256 ^ 4
    → flags < 256 ^ 4
    → 16 ≤ length times
    → decode_wait_record (kernel_record pid code signal flags times)
      ≡ ok (status_of (int32 code) (int32 signal) (flags % 2 == 1))
unfolding decode_wait_record little_endian
decode-kernel_record pid code signal flags times a b c d =
    rw
      (
        read_little_endian-little_endian 4 code a,
        read_little_endian-little_endian 4 signal b,
        read_little_endian-little_endian 4 flags c,
      )
      (ground arith)

-- The kernel's record of a process that a signal ended, of a number below 2 ^ 31, is decoded to that
-- signal and to whether the flags have the core-dump bit; that of one that no signal ended, to its exit
-- code, in two's complement. The times, sixteen bytes at least, play no part.
pub decode_wait_record-kernel_record :
    (pid code signal flags : ℕ) (times : List ℕ)
    → code < 256 ^ 4
    → signal < 2147483648
    → flags < 256 ^ 4
    → 16 ≤ length times
    → decode_wait_record (kernel_record pid code signal flags times)
      ≡ ok (if ltb 0 signal then signal_death signal (flags % 2 == 1) else exit_code (int32 code))
unfolding status_of int32
decode_wait_record-kernel_record pid code signal flags times a b c d =
    decode-kernel_record pid code signal flags times a (omega arith) c d
    ∙ ap (λ s. ok (status_of (int32 code) s (flags % 2 == 1))) small
  where
    small : int32 signal ≡ pos signal
    small = ground arith
