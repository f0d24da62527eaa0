-- ===== src/StoreLog/Reader.antt =====
-- src/store_log.ts: class StoreLogReader, which replays a log into a store.
-- The target's calls are a list, in the order in which they are made; a target that refuses a call,
-- which ends the replay, is not modelled.
pub mod Chunks
pub mod Feed
pub mod Totals
pub mod Bound
pub mod Safety
pub mod Progress
pub mod Held
use yurt_playground.Base.{
  ℕ, zero, suc, ◌+◌, ◌-◌, Bool, true, false, not, ◌&&◌, ◌||◌, List, [], ◌∷◌, ◌++◌, Option, none,
  some, Text, Outcome, ok, err, ltb, leb, ◌==◌, if◌then◌else◌, text_eq, length, drop,
}
use yurt_playground.StoreLog.{
  StoreExportOrder, StoreTotals, OrderError, new_order, write, set_length, finish_order, open_end,
  StoreCall, writes, sets_length, store_piece_bytes, meta, number_or_zero,
}
use yurt_playground.StoreLog.Record.{
  LogError, Parsed, incomplete, refused, piece, closing, parse, head, piece_tag, length_tag,
}

pub data ReplayError : Type 0 where
  bad_record : LogError → ReplayError
  bad_order : OrderError → ReplayError
  past_bound meta_too_long ends_inside not_the_bound : ReplayError

-- The reader but for its unread bytes.
pub record Replay : Type 0 where
  pub order : StoreExportOrder
  pub target : List StoreCall
  pub bound : StoreTotals
  pub held : List StoreCall
  pub meta_bytes : ℕ

abbrev pub new_replay : StoreTotals → Replay
new_replay bound = record {
  order = new_order;
  target = [];
  bound = bound;
  held = [];
  meta_bytes = 0;
}

-- The totals with the open file's included.
abbrev pub files_so_far : StoreExportOrder → ℕ
files_so_far o = elim (open_end o) [ none ↦ o.totals.files | some _ ↦ o.totals.files + 1 ]

abbrev pub bytes_so_far : StoreExportOrder → ℕ
bytes_so_far o = elim (open_end o) [ none ↦ o.totals.bytes | some end ↦ o.totals.bytes + end ]

goes_past : StoreExportOrder → StoreTotals → Bool
goes_past o bound =
    ltb bound.files (files_so_far o)
    || ltb bound.bytes (bytes_so_far o)
    || ltb bound.piece_bytes o.totals.piece_bytes

hold : ℕ → StoreCall → Replay → Replay × Outcome ReplayError (Unit {0})
hold size call r =
    let held = record r { meta_bytes = r.meta_bytes + size } in
    if ltb store_piece_bytes (r.meta_bytes + size)
    then (held, err meta_too_long)
    else (record held { held = r.held ++ call ∷ [] }, ok tt)

-- The call was in order: within the bound, `meta` is held, anything else goes to the target.
passed : ℕ → StoreCall → Text → Replay → Replay × Outcome ReplayError (Unit {0})
passed size call file r =
    if goes_past r.order r.bound
    then (r, err past_bound)
    else if text_eq file meta
    then hold size call r
    else (record r { target = r.target ++ call ∷ [] }, ok tt)

ordered :
    ℕ
    → (Text → StoreCall)
    → Replay
    → StoreExportOrder × Outcome OrderError Text
    → Replay × Outcome ReplayError (Unit {0})
ordered size call r (o, err e) = (record r { order = o }, err (bad_order e))
ordered size call r (o, ok file) = passed size (call file) file (record r { order = o })

unfoldable pub perform_piece :
    Text → Option ℕ → List ℕ → Replay → Replay × Outcome ReplayError (Unit {0})
unfolding ordered passed hold goes_past
perform_piece name offset bytes r =
    ordered (length bytes) (λ file. writes file (number_or_zero offset) bytes) r
      (write name offset (length bytes) r.order)

unfoldable pub perform_length : Text → Option ℕ → Replay → Replay × Outcome ReplayError (Unit {0})
unfolding ordered passed hold goes_past
perform_length name length r =
    ordered 0 (λ file. sets_length file (number_or_zero length)) r (set_length name length r.order)

-- The next round, unless the call threw.
after_call :
    (Replay → List ℕ → Replay × Outcome ReplayError (List ℕ))
    → Replay × Outcome ReplayError (Unit {0})
    → List ℕ
    → Replay × Outcome ReplayError (List ℕ)
after_call next (r, err e) rest = (r, err e)
after_call next (r, ok _) rest = next r rest

after_parse :
    (Replay → List ℕ → Replay × Outcome ReplayError (List ℕ))
    → Replay
    → List ℕ
    → Parsed
    → Replay × Outcome ReplayError (List ℕ)
after_parse next r bytes incomplete = (r, ok bytes)
after_parse next r bytes (refused e) = (r, err (bad_record e))
after_parse next r bytes (piece name offset body used) =
    after_call next (perform_piece name offset body r) (drop used bytes)
after_parse next r bytes (closing name length used) =
    after_call next (perform_length name length r) (drop used bytes)

pub record StoreLogReader : Type 0 where
  pub replay : Replay
  pub pending : List ℕ

abbrev pub new_reader : StoreTotals → StoreLogReader
new_reader bound = record { replay = new_replay bound; pending = [] }

pushed :
    List ℕ → Replay × Outcome ReplayError (List ℕ) → StoreLogReader × Outcome ReplayError (Unit {0})
pushed pending (r, err e) = (record { replay = r; pending = pending }, err e)
pushed pending (r, ok rest) = (record { replay = r; pending = rest }, ok tt)

module _ (decode : List ℕ → Text) where
  -- Replay the whole records at the start of some bytes; what is left of them is the result. A record
  -- has ten bytes at least, so there are fewer rounds than bytes, and one.
  unfoldable pub drain : ℕ → Replay → List ℕ → Replay × Outcome ReplayError (List ℕ)
  unfolding after_call after_parse
  drain zero r bytes = (r, ok bytes)
  drain (suc rounds) r bytes = after_parse (drain rounds) r bytes (parse decode bytes)

  unfoldable pub push_chunk :
      List ℕ → StoreLogReader → StoreLogReader × Outcome ReplayError (Unit {0})
  unfolding pushed
  push_chunk chunk reader =
      let bytes = reader.pending ++ chunk in
      pushed reader.pending (drain (suc (length bytes)) reader.replay bytes)

unfoldable pub write_meta : StoreLogReader → StoreLogReader
write_meta reader = record reader {
  replay = record (reader.replay) {
    target = reader.replay.target ++ reader.replay.held;
    held = [];
  };
}

same_totals : StoreTotals → StoreTotals → Bool
same_totals a b = a.files == b.files && a.bytes == b.bytes && a.piece_bytes == b.piece_bytes

finished : StoreTotals → Outcome OrderError StoreTotals → Outcome ReplayError (Unit {0})
finished bound (err e) = err (bad_order e)
finished bound (ok totals) = if same_totals totals bound then ok tt else err not_the_bound

unfoldable pub finish_reader : StoreLogReader → Outcome ReplayError (Unit {0})
unfolding finished same_totals
finish_reader reader =
    if not (length reader.pending == 0)
    then err ends_inside
    else finished reader.replay.bound (finish_order reader.replay.order)
