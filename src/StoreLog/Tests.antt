-- ===== src/StoreLog/Tests.antt =====
-- A small export that is written and replayed, and the theorems there.
use yurt_playground.Base.{
  ℕ, ◌≤◌, ◌≡◌, refl, true, false, List, [], ◌∷◌, Text, chars, All, ok, arith, text_eq,
}
use yurt_playground.StoreLog.{
  StoreCall, writes, sets_length, StoreTotals, meta, store_piece_bytes, write, set_length, begin,
  finish_order, is_store_file_name,
}
use yurt_playground.StoreLog.Reader.{new_reader, push_chunk, write_meta}
use yurt_playground.StoreLog.Reader.Bound.{sum, piece_size, closed_file, closed_length, call_name}
use yurt_playground.StoreLog.Reader.Feed.{flatten, replayed, push_chunks, push_chunks-flatten}
use yurt_playground.StoreLog.Reader.Safety.{push_chunks-bound, push_chunks-meta}
use yurt_playground.StoreLog.Writer.{StoreLogWriter, new_writer, write_calls, write_call}
use yurt_playground.StoreLog.Writer.Trip.{
  Replays, push_chunks-write_calls, finish_order-write_calls,
}

-- TextEncoder and TextDecoder on ASCII.
abbrev same : Text → Text
same s = s

abbrev export_calls : List StoreCall
export_calls =
    writes (chars "content/2") 0 (1 ∷ 2 ∷ 3 ∷ [])
    ∷ sets_length (chars "content/2") 3
    ∷ sets_length (chars "content/7") 65536
    ∷ writes (chars "journal-a") 0 (4 ∷ [])
    ∷ sets_length (chars "journal-a") 1
    ∷ writes (chars "meta") 0 (5 ∷ 6 ∷ [])
    ∷ sets_length (chars "meta") 2
    ∷ []

abbrev export_totals : StoreTotals
export_totals = record { files = 4; bytes = 65542; piece_bytes = 6 }

abbrev export_writer : StoreLogWriter
export_writer = (write_calls same export_calls new_writer).0

written_test : write_calls same export_calls new_writer ≡ (export_writer, ok tt)
unfolding write_calls write_call write set_length begin is_store_file_name
written_test = refl

finished_test : finish_order export_writer.order ≡ ok export_totals
unfolding write_calls write_call write set_length begin is_store_file_name finish_order
finished_test = refl

push_chunks-write_calls_example :
    Replays export_calls (push_chunks same export_writer.chunks (new_reader export_totals))
push_chunks-write_calls_example =
    push_chunks-write_calls same same (λ s plain. (refl, refl)) export_calls export_writer
      export_totals written_test finished_test (omega arith) export_writer.chunks refl

finish_order_test :
    (export_totals.files ≡ sum closed_file export_calls)
    × (export_totals.bytes ≡ sum closed_length export_calls)
    × (export_totals.piece_bytes ≡ sum piece_size export_calls)
finish_order_test =
    finish_order-write_calls same export_calls export_writer export_totals written_test
      finished_test

-- Two chunks that cut a record, and a third with a record of no known tag.
abbrev cut_chunks : List (List ℕ)
cut_chunks =
    (76 ∷ 9 ∷ 99 ∷ [])
    ∷ (111 ∷ 110 ∷ 116 ∷ 101 ∷ 110 ∷ 116 ∷ 47 ∷ 50 ∷ 3 ∷ 0 ∷ 0 ∷ 0 ∷ 0 ∷ 0 ∷ 0 ∷ 0 ∷ [])
    ∷ (1 ∷ 1 ∷ [])
    ∷ []

push_chunks-flatten_example :
    replayed (push_chunks same cut_chunks (new_reader export_totals))
    ≡ replayed (push_chunk same (flatten cut_chunks) (new_reader export_totals))
push_chunks-flatten_example = push_chunks-flatten same export_totals cut_chunks

push_chunks-bound_example :
    let calls =
      (write_meta (push_chunks same cut_chunks (new_reader export_totals)).0).replay.target in
    (sum closed_file calls ≤ 4) × (sum closed_length calls ≤ 65542) × (sum piece_size calls ≤ 6)
push_chunks-bound_example = push_chunks-bound same export_totals cut_chunks

push_chunks-meta_example :
    let replay = (push_chunks same cut_chunks (new_reader export_totals)).0.replay in
    All (λ call. text_eq (call_name call) meta ≡ false) replay.target
    × All (λ call. text_eq (call_name call) meta ≡ true) replay.held
    × (sum piece_size replay.held ≤ store_piece_bytes)
push_chunks-meta_example = push_chunks-meta same export_totals cut_chunks
