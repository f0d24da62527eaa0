-- ===== src/WaitRecord/Tests.antt =====
-- A process that SIGKILL ended, and one that exited with 9.
use yurt_playground.Base.{◌≡◌, true, ok, arith, replicate}
use yurt_playground.Executions.Signals.{signal_death}
use yurt_playground.WaitRecord.{decode_wait_record, kernel_record, decode_wait_record-kernel_record}

decode_wait_record-kernel_record_example :
    decode_wait_record (kernel_record 12 0 9 1 (replicate 16 0)) ≡ ok (signal_death 9 true)
decode_wait_record-kernel_record_example =
    decode_wait_record-kernel_record 12 0 9 1 (replicate 16 0) (omega arith) (omega arith)
      (omega arith) (omega arith)
