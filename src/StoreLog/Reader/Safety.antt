-- ===== src/StoreLog/Reader/Safety.antt =====
-- What holds of a replay whatever bytes it is fed, in whatever chunks, refused ones included.
use yurt_playground.Base.{
  ℕ, zero, suc, ◌≤◌, ◌≡◌, refl, ◌∙◌, List, [], ◌∷◌, ◌++◌, Option, Text, All, Outcome, ok, err,
  arith, drop, length, text_eq, false, true,
}
use yurt_playground.StoreLog.{StoreTotals, store_piece_bytes, meta}
use yurt_playground.StoreLog.Record.{Parsed, incomplete, refused, piece, closing, parse}
use yurt_playground.StoreLog.Reader.{
  Replay, ReplayError, drain, after_parse, after_call, perform_piece, perform_length,
  StoreLogReader, push_chunk, pushed, new_reader, write_meta,
}
use yurt_playground.StoreLog.Reader.Feed.{push_chunks, and_then}
use yurt_playground.StoreLog.Reader.Bound.{
  IsWithin, KeepsMeta, sum, sum-append, piece_size, closed_file, closed_length, call_name,
  perform_piece-IsWithin, perform_length-IsWithin, perform_piece-KeepsMeta,
  perform_length-KeepsMeta, perform_piece-bound, perform_length-bound,
}

-- A property of the replay that each record keeps, each refused one too.
module _ (decode : List ℕ → Text) (P : Replay → Type 0)
    (piece_keeps : (name : Text) (offset : Option ℕ) (bytes : List ℕ) (r : Replay)
      → P r
      → P (perform_piece name offset bytes r).0)
    (length_keeps : (name : Text) (n : Option ℕ) (r : Replay)
      → P r
      → P (perform_length name n r).0) where
  after_call-kept :
      (next : Replay → List ℕ → Replay × Outcome ReplayError (List ℕ))
      (m : Replay × Outcome ReplayError (Unit {0})) (rest : List ℕ)
      → ((r : Replay) → P r → P (next r rest).0)
      → P m.0
      → P (after_call next m rest).0
  unfolding after_call
  after_call-kept next (r, err e) rest keeps p = p
  after_call-kept next (r, ok _) rest keeps p = keeps r p

  after_parse-kept :
      (next : Replay → List ℕ → Replay × Outcome ReplayError (List ℕ)) (r : Replay) (bytes : List ℕ)
      (record_read : Parsed)
      → ((rest : List ℕ) (r : Replay) → P r → P (next r rest).0)
      → P r
      → P (after_parse next r bytes record_read).0
  unfolding after_parse
  after_parse-kept next r bytes incomplete keeps p = p
  after_parse-kept next r bytes (refused e) keeps p = p
  after_parse-kept next r bytes (piece name offset body used) keeps p =
      after_call-kept next (perform_piece name offset body r) (drop used bytes)
        (keeps (drop used bytes)) (piece_keeps name offset body r p)
  after_parse-kept next r bytes (closing name n used) keeps p =
      after_call-kept next (perform_length name n r) (drop used bytes) (keeps (drop used bytes))
        (length_keeps name n r p)

  drain-kept : (rounds : ℕ) (bytes : List ℕ) (r : Replay) → P r → P (drain decode rounds r bytes).0
  unfolding drain
  drain-kept zero bytes r p = p
  drain-kept (suc rounds) bytes r p =
      after_parse-kept (drain decode rounds) r bytes (parse decode bytes) (drain-kept rounds) p

  pushed-kept :
      (pending : List ℕ) (m : Replay × Outcome ReplayError (List ℕ))
      → P m.0
      → P (pushed pending m).0.replay
  unfolding pushed
  pushed-kept pending (r, err e) p = p
  pushed-kept pending (r, ok rest) p = p

  and_then-kept :
      (next : StoreLogReader → StoreLogReader × Outcome ReplayError (Unit {0}))
      (m : StoreLogReader × Outcome ReplayError (Unit {0}))
      → ((reader : StoreLogReader) → P reader.replay → P (next reader).0.replay)
      → P m.0.replay
      → P (and_then next m).0.replay
  and_then-kept next (reader, err e) keeps p = p
  and_then-kept next (reader, ok _) keeps p = keeps reader p

  push_chunks-kept :
      (chunks : List (List ℕ)) (reader : StoreLogReader)
      → P reader.replay
      → P (push_chunks decode chunks reader).0.replay
  unfolding push_chunks push_chunk
  push_chunks-kept [] reader p = p
  push_chunks-kept (chunk ∷ chunks) reader p =
      and_then-kept (push_chunks decode chunks) (push_chunk decode chunk reader)
        (push_chunks-kept chunks)
        (pushed-kept reader.pending
          (drain decode (suc (length (reader.pending ++ chunk))) reader.replay
            (reader.pending ++ chunk))
          (drain-kept (suc (length (reader.pending ++ chunk))) (reader.pending ++ chunk)
            reader.replay p))

module _ (decode : List ℕ → Text) (bound : StoreTotals) (chunks : List (List ℕ)) where
  abbrev fed : StoreLogReader
  fed = (push_chunks decode chunks (new_reader bound)).0

  fed-bound : fed.replay.bound ≡ bound
  fed-bound =
      push_chunks-kept decode (λ r. r.bound ≡ bound)
        (λ name offset bytes r e. perform_piece-bound name offset bytes r ∙ e)
        (λ name n r e. perform_length-bound name n r ∙ e) chunks (new_reader bound) refl

  fed-IsWithin : IsWithin fed.replay
  fed-IsWithin =
      push_chunks-kept decode IsWithin perform_piece-IsWithin perform_length-IsWithin chunks
        (new_reader bound) (ground arith)

  fed-KeepsMeta : KeepsMeta fed.replay
  fed-KeepsMeta =
      push_chunks-kept decode KeepsMeta perform_piece-KeepsMeta perform_length-KeepsMeta chunks
        (new_reader bound) (ground arith)

  -- Whatever bytes a new reader is fed, the calls that its target got, with those that it holds for
  -- `meta`, close no more files than the bound has, give them no more length, and write no more bytes.
  pub push_chunks-bound :
      let calls = (write_meta fed).replay.target in
      (sum closed_file calls ≤ bound.files)
      × (sum closed_length calls ≤ bound.bytes)
      × (sum piece_size calls ≤ bound.piece_bytes)
  unfolding write_meta
  push_chunks-bound = ground (
    arith,
    fed-bound,
    fed-IsWithin,
    sum-append closed_file fed.replay.target fed.replay.held,
    sum-append closed_length fed.replay.target fed.replay.held,
    sum-append piece_size fed.replay.target fed.replay.held,
  )

  -- Whatever bytes a new reader is fed, its target gets no call that names `meta`: those calls are
  -- held, and they hold one piece's bytes at most, until the meta is written.
  pub push_chunks-meta :
      All (λ call. text_eq (call_name call) meta ≡ false) fed.replay.target
      × All (λ call. text_eq (call_name call) meta ≡ true) fed.replay.held
      × (sum piece_size fed.replay.held ≤ store_piece_bytes)
  push_chunks-meta = (fed-KeepsMeta.0, fed-KeepsMeta.1, fed-KeepsMeta.3)
