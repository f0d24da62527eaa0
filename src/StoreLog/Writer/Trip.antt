-- ===== src/StoreLog/Writer/Trip.antt =====
-- The round trip: an export that is written to a log, and the log replayed.
use yurt_playground.Base.{
  ℕ, suc, ◌≤◌, ◌≡◌, refl, ap, ◌∙◌, List, [], Text, Outcome, ok, arith, length,
}
use yurt_playground.StoreLog.{StoreTotals, StoreCall, new_order, store_piece_bytes, finish_order}
use yurt_playground.StoreLog.Names.{IsAscii}
use yurt_playground.StoreLog.Reader.{
  ReplayError, StoreLogReader, new_reader, new_replay, write_meta, finish_reader,
}
use yurt_playground.StoreLog.Reader.Bound.{sum, piece_size, closed_file, closed_length}
use yurt_playground.StoreLog.Reader.Chunks.{drain_all}
use yurt_playground.StoreLog.Reader.Feed.{
  flatten, push_chunks, push_chunks-drain_all, replayed-ok, finish_reader-whole,
}
use yurt_playground.StoreLog.Reader.Held.{kept, after_calls}
use yurt_playground.StoreLog.Reader.Progress.{finish_order-totals, finish_order-eq}
use yurt_playground.StoreLog.Writer.{
  StoreLogWriter, new_writer, write_calls, write_calls-Accepts, log_of,
}
use yurt_playground.StoreLog.Writer.Extent.{Accepts-Extends, Accepts-totals}
use yurt_playground.StoreLog.Writer.Replayed.{drain-log_of, length-log_of}
use yurt_playground.StoreLog.Writer.Last.{sent-kept}

abbrev pub Replays : List StoreCall → StoreLogReader × Outcome ReplayError (Unit {0}) → Type 0
Replays calls (reader, outcome) =
    (outcome ≡ ok tt) × (finish_reader reader ≡ ok tt) × ((write_meta reader).replay.target ≡ calls)

module _ (encode : Text → List ℕ) (decode : List ℕ → Text)
    (ascii : (s : Text) → IsAscii s → (encode s ≡ s) × (decode s ≡ s)) where
  module _ (calls : List StoreCall) (w : StoreLogWriter) (totals : StoreTotals)
      (written : write_calls encode calls new_writer ≡ (w, ok tt))
      (finished : finish_order w.order ≡ ok totals)
      (small : sum piece_size (kept calls) ≤ store_piece_bytes) where
    drain_all-log_of :
        drain_all decode (new_replay totals) (log_of encode calls)
        ≡ (after_calls calls w.order (new_replay totals), ok [])
    unfolding drain_all
    drain_all-log_of =
        let taken = write_calls-Accepts encode calls new_writer w written in
        let later = Accepts-Extends calls new_order w.order tt taken.0 in
        let ends = finish_order-totals w.order totals later.0 finished in
        drain-log_of encode decode ascii calls (suc (length (log_of encode calls)))
          (new_replay totals) w.order (omega (arith, length-log_of encode decode ascii calls)) tt
          taken.0 (omega (arith, ends.0), omega (arith, ends.1), omega (arith, ends.2))
          (omega (arith, small))

    push_chunks-eq :
        (chunks : List (List ℕ))
        → flatten chunks ≡ flatten w.chunks
        → push_chunks decode chunks (new_reader totals)
          ≡ (record { replay = after_calls calls w.order (new_replay totals); pending = [] }, ok tt)
    push_chunks-eq chunks same =
        replayed-ok (push_chunks decode chunks (new_reader totals))
          (after_calls calls w.order (new_replay totals)) []
          (push_chunks-drain_all decode totals chunks
            ∙ ap (drain_all decode (new_replay totals))
                (same ∙ (write_calls-Accepts encode calls new_writer w written).1)
            ∙ drain_all-log_of)

    -- When the writer takes a whole export, whose `meta` is one piece at most, a reader whose bound is
    -- the export's totals replays the log, in whatever chunks it is fed: it takes every chunk, it
    -- finishes, and once the meta is written its target has had the export's calls, in their order.
    pub push_chunks-write_calls :
        (chunks : List (List ℕ))
        → flatten chunks ≡ flatten w.chunks
        → Replays calls (push_chunks decode chunks (new_reader totals))
    unfolding write_meta
    push_chunks-write_calls chunks same = rw (push_chunks-eq chunks same) (
      refl,
      finish_reader-whole (after_calls calls w.order (new_replay totals)) finished,
      sent-kept calls new_order w.order tt
          (write_calls-Accepts encode calls new_writer w written).0,
    )

-- When the writer takes a whole export, its totals are what the calls say: how many lengths there are,
-- their sum, and the bytes of the pieces.
pub finish_order-write_calls :
    (encode : Text → List ℕ) (calls : List StoreCall) (w : StoreLogWriter) (totals : StoreTotals)
    → write_calls encode calls new_writer ≡ (w, ok tt)
    → finish_order w.order ≡ ok totals
    → (totals.files ≡ sum closed_file calls)
      × (totals.bytes ≡ sum closed_length calls)
      × (totals.piece_bytes ≡ sum piece_size calls)
finish_order-write_calls encode calls w totals written finished = ground (
  arith,
  finish_order-eq w.order totals finished,
  Accepts-totals calls new_order w.order (write_calls-Accepts encode calls new_writer w written).0,
)
