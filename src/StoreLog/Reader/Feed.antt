-- ===== src/StoreLog/Reader/Feed.antt =====
-- A log fed chunk by chunk, as the restore reads it (src/sandbox_snapshot.ts).
use yurt_playground.Base.{
  ℕ, suc, ◌≡◌, refl, sym, ap, ◌∙◌, List, [], ◌∷◌, ◌++◌, Text, Outcome, ok, err, length,
  length-append, arith, append_assoc, append-nil,
}
use yurt_playground.StoreLog.{StoreTotals, finish_order}
use yurt_playground.StoreLog.Record.{parse}
use yurt_playground.StoreLog.Reader.{
  Replay, ReplayError, drain, StoreLogReader, push_chunk, pushed, new_reader, new_replay,
  after_parse, finish_reader, finished, same_totals,
}
use yurt_playground.StoreLog.Reader.Chunks.{Replayed, drain-append, drain_all, go_on, drain-rounds}

abbrev pub flatten : List (List ℕ) → List ℕ
flatten [] = []
flatten (chunk ∷ chunks) = chunk ++ flatten chunks

-- The replay after some chunks: its state, and what it threw or what is still unread.
abbrev pub replayed : StoreLogReader × Outcome ReplayError (Unit {0}) → Replayed
replayed (reader, err e) = (reader.replay, err e)
replayed (reader, ok _) = (reader.replay, ok reader.pending)

replayed-pushed : (pending : List ℕ) (m : Replayed) → replayed (pushed pending m) ≡ m
unfolding pushed
replayed-pushed pending (r, err e) = refl
replayed-pushed pending (r, ok rest) = refl

abbrev pub and_then :
    (StoreLogReader → StoreLogReader × Outcome ReplayError (Unit {0}))
    → StoreLogReader × Outcome ReplayError (Unit {0})
    → StoreLogReader × Outcome ReplayError (Unit {0})
and_then next (reader, err e) = (reader, err e)
and_then next (reader, ok _) = next reader

module _ (decode : List ℕ → Text) where
  unfoldable pub push_chunks :
      List (List ℕ) → StoreLogReader → StoreLogReader × Outcome ReplayError (Unit {0})
  push_chunks [] reader = (reader, ok tt)
  push_chunks (chunk ∷ chunks) reader =
      and_then (push_chunks chunks) (push_chunk decode chunk reader)

  replayed-push_chunk :
      (chunk : List ℕ) (reader : StoreLogReader)
      → replayed (push_chunk decode chunk reader)
        ≡ drain_all decode reader.replay (reader.pending ++ chunk)
  unfolding push_chunk drain_all
  replayed-push_chunk chunk reader =
      replayed-pushed reader.pending (drain_all decode reader.replay (reader.pending ++ chunk))

  drain_all-append :
      (r : Replay) (bytes more : List ℕ)
      → drain_all decode r (bytes ++ more) ≡ go_on decode more (drain_all decode r bytes)
  unfolding drain_all
  drain_all-append r bytes more =
      drain-append decode (suc (length (bytes ++ more))) r bytes more (omega arith)
      ∙ ap (go_on decode more) (
          drain-rounds decode (suc (length (bytes ++ more))) (suc (length bytes)) r bytes
            (omega (arith, length-append bytes more)) (omega arith))

  -- What a replay left unread is no whole record.
  drain_all-settled :
      (r q : Replay) (bytes rest : List ℕ)
      → drain_all decode r bytes ≡ (q, ok rest)
      → drain_all decode q rest ≡ (q, ok rest)
  unfolding go_on
  drain_all-settled r q bytes rest e =
      ap (drain_all decode q) (sym (append-nil rest))
      ∙ ap (go_on decode []) (sym e)
      ∙ sym (drain_all-append r bytes [])
      ∙ ap (drain_all decode r) (append-nil bytes)
      ∙ e

  drain_all_nil : (r : Replay) → drain_all decode r [] ≡ (r, ok [])
  unfolding drain_all drain after_parse parse
  drain_all_nil r = refl

  push_chunks-replayed :
      (chunks : List (List ℕ)) (reader : StoreLogReader)
      → drain_all decode reader.replay reader.pending ≡ (reader.replay, ok reader.pending)
      → replayed (push_chunks chunks reader)
        ≡ drain_all decode reader.replay (reader.pending ++ flatten chunks)
  unfolding push_chunks go_on
  push_chunks-replayed [] reader settled =
      sym settled ∙ ap (drain_all decode reader.replay) (sym (append-nil reader.pending))
  push_chunks-replayed (chunk ∷ chunks) reader settled =
      fed (push_chunk decode chunk reader) (replayed-push_chunk chunk reader)
        (push_chunks-replayed chunks)
      ∙ sym (drain_all-append reader.replay (reader.pending ++ chunk) (flatten chunks))
      ∙ ap (drain_all decode reader.replay) (append_assoc reader.pending chunk (flatten chunks))
    where
      fed :
          (m : StoreLogReader × Outcome ReplayError (Unit {0}))
          → replayed m ≡ drain_all decode reader.replay (reader.pending ++ chunk)
          → ((next : StoreLogReader)
              → drain_all decode next.replay next.pending ≡ (next.replay, ok next.pending)
              → replayed (push_chunks chunks next)
                ≡ drain_all decode next.replay (next.pending ++ flatten chunks))
          → replayed (and_then (push_chunks chunks) m)
            ≡ go_on decode
                (flatten chunks)
                (drain_all decode reader.replay (reader.pending ++ chunk))
      fed (next, err t) e goes = ap (go_on decode (flatten chunks)) e
      fed (next, ok _) e goes =
          goes next (
            drain_all-settled reader.replay next.replay (reader.pending ++ chunk) next.pending
              (sym e))
          ∙ ap (go_on decode (flatten chunks)) e

  -- However a log is cut into chunks, feeding them to a new reader gives the same calls to the target,
  -- the same error if any, and the same unread bytes as feeding it whole.
  pub push_chunks-flatten :
      (bound : StoreTotals) (chunks : List (List ℕ))
      → replayed (push_chunks chunks (new_reader bound))
        ≡ replayed (push_chunk decode (flatten chunks) (new_reader bound))
  push_chunks-flatten bound chunks =
      push_chunks-replayed chunks (new_reader bound) (drain_all_nil (new_replay bound))
      ∙ sym (replayed-push_chunk (flatten chunks) (new_reader bound))

  pub push_chunks-drain_all :
      (bound : StoreTotals) (chunks : List (List ℕ))
      → replayed (push_chunks chunks (new_reader bound))
        ≡ drain_all decode (new_replay bound) (flatten chunks)
  push_chunks-drain_all bound chunks =
      push_chunks-replayed chunks (new_reader bound) (drain_all_nil (new_replay bound))

pub replayed-ok :
    (m : StoreLogReader × Outcome ReplayError (Unit {0})) (r : Replay) (rest : List ℕ)
    → replayed m ≡ (r, ok rest)
    → m ≡ (record { replay = r; pending = rest }, ok tt)
replayed-ok (reader, err e) r rest h = cc
replayed-ok (reader, ok _) r rest h = cc

pub finish_reader-whole :
    (r : Replay)
    → finish_order r.order ≡ ok r.bound
    → finish_reader (record { replay = r; pending = [] }) ≡ ok tt
unfolding finish_reader finished same_totals
finish_reader-whole r h = rw h (ground arith)
