-- ===== src/StoreLog/Reader/Held.antt =====
-- A call that the order takes, within the bound: `meta`'s is held, any other one goes to the target.
use yurt_playground.Base.{
  ℕ, suc, ◌+◌, ◌≤◌, ◌≡◌, refl, true, false, List, [], ◌∷◌, ◌++◌, some, Text, ok, arith, length,
  append-nil, text_eq, inl, inr, Bool-cases, ltb, if◌then◌else◌, drop,
}
use native.Mathlib.Nat.{add-zero}
use yurt_playground.StoreLog.{
  StoreExportOrder, StoreTotals, StoreCall, writes, sets_length, store_piece_bytes, write,
  set_length, meta,
}
use yurt_playground.StoreLog.Record.{piece, closing, parse}
use yurt_playground.StoreLog.Reader.{
  Replay, files_so_far, bytes_so_far, goes_past, hold, passed, ordered, perform_piece,
  perform_length, drain, after_call, after_parse,
}
use yurt_playground.StoreLog.Reader.Bound.{call_name, sum, piece_size}

-- The calls that go to the target at once, and those held.
abbrev pub sent : List StoreCall → List StoreCall
sent [] = []
sent (call ∷ calls) = if text_eq (call_name call) meta then sent calls else call ∷ sent calls

abbrev pub kept : List StoreCall → List StoreCall
kept [] = []
kept (call ∷ calls) = if text_eq (call_name call) meta then call ∷ kept calls else kept calls

abbrev pub after_calls : List StoreCall → StoreExportOrder → Replay → Replay
after_calls calls last r = record r {
  order = last;
  target = r.target ++ sent calls;
  held = r.held ++ kept calls;
  meta_bytes = r.meta_bytes + sum piece_size (kept calls);
}

-- An extent within a bound.
abbrev pub FitsBound : StoreExportOrder → StoreTotals → Type 0
FitsBound o bound =
    (files_so_far o ≤ bound.files)
    × (bytes_so_far o ≤ bound.bytes)
    × (o.totals.piece_bytes ≤ bound.piece_bytes)

goes_past-FitsBound :
    (o : StoreExportOrder) (bound : StoreTotals) → FitsBound o bound → goes_past o bound ≡ false
unfolding goes_past
goes_past-FitsBound o bound fits = ground arith

roomy :
    (call : StoreCall) (r : Replay)
    → text_eq (call_name call) meta ≡ true
    → r.meta_bytes + sum piece_size (kept (call ∷ [])) ≤ store_piece_bytes
    → ltb store_piece_bytes (r.meta_bytes + piece_size call) ≡ false
roomy call r is_meta small = ground arith

passed_lem :
    (call : StoreCall) (file : Text) (r : Replay)
    → file ≡ call_name call
    → FitsBound r.order r.bound
    → r.meta_bytes + sum piece_size (kept (call ∷ [])) ≤ store_piece_bytes
    → passed (piece_size call) call file r ≡ (after_calls (call ∷ []) r.order r, ok tt)
unfolding passed hold
passed_lem call file r named fits small = elim (Bool-cases (text_eq (call_name call) meta)) [
  | inl is_meta ↦
      rw (goes_past-FitsBound r.order r.bound fits, named, is_meta)
        (rw (append-nil r.target, add-zero (piece_size call), roomy call r is_meta small) refl)
  | inr other ↦
      rw (goes_past-FitsBound r.order r.bound fits, named, other)
        (rw (append-nil r.held, add-zero r.meta_bytes) refl)
]

pub perform_piece_lem :
    (name : Text) (offset : ℕ) (bytes : List ℕ) (r : Replay) (next : StoreExportOrder) (file : Text)
    → write name (some offset) (length bytes) r.order ≡ (next, ok file)
    → file ≡ name
    → FitsBound next r.bound
    → r.meta_bytes + sum piece_size (kept (writes name offset bytes ∷ [])) ≤ store_piece_bytes
    → perform_piece name (some offset) bytes r
      ≡ (after_calls (writes name offset bytes ∷ []) next r, ok tt)
unfolding perform_piece ordered
perform_piece_lem name offset bytes r next file e named fits small =
    rw (e, named)
      (passed_lem (writes name offset bytes) name (record r { order = next }) refl fits small)

pub perform_length_lem :
    (name : Text) (n : ℕ) (r : Replay) (next : StoreExportOrder) (file : Text)
    → set_length name (some n) r.order ≡ (next, ok file)
    → file ≡ name
    → FitsBound next r.bound
    → r.meta_bytes + sum piece_size (kept (sets_length name n ∷ [])) ≤ store_piece_bytes
    → perform_length name (some n) r ≡ (after_calls (sets_length name n ∷ []) next r, ok tt)
unfolding perform_length ordered
perform_length_lem name n r next file e named fits small =
    rw (e, named) (passed_lem (sets_length name n) name (record r { order = next }) refl fits small)

-- A round of the replay that reads a record and goes on.
module _ (decode : List ℕ → Text) (rounds : ℕ) (r next : Replay) (bytes : List ℕ) where
  pub drain-piece :
      (name : Text) (offset : ℕ) (body : List ℕ) (used : ℕ)
      → parse decode bytes ≡ piece name (some offset) body used
      → perform_piece name (some offset) body r ≡ (next, ok tt)
      → drain decode (suc rounds) r bytes ≡ drain decode rounds next (drop used bytes)
  unfolding drain after_parse after_call
  drain-piece name offset body used a b = rw (a, b) refl

  pub drain-closing :
      (name : Text) (n used : ℕ)
      → parse decode bytes ≡ closing name (some n) used
      → perform_length name (some n) r ≡ (next, ok tt)
      → drain decode (suc rounds) r bytes ≡ drain decode rounds next (drop used bytes)
  unfolding drain after_parse after_call
  drain-closing name n used a b = rw (a, b) refl

pub drain_nil :
    (decode : List ℕ → Text) (rounds : ℕ) (r : Replay) → drain decode (suc rounds) r [] ≡ (r, ok [])
unfolding drain after_parse parse
drain_nil decode rounds r = refl
