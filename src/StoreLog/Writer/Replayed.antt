-- ===== src/StoreLog/Writer/Replayed.antt =====
-- The replay of the log of an export that the order takes: every call, in order, `meta`'s held.
use yurt_playground.Base.{
  ℕ, zero, suc, ◌+◌, ◌≤◌, ◌<◌, ◌≡◌, refl, sym, ap, subst, ◌∙◌, true, List, [], ◌∷◌, ◌++◌, some,
  Text, ok, arith, length, length-append, append_assoc, append-nil, text_eq, inl, inr, Bool-cases,
  drop-append_add,
}
use native.Mathlib.Nat.{add-zero}
use yurt_playground.StoreLog.{
  StoreExportOrder, StoreCall, writes, sets_length, is_store_file_name, store_piece_bytes, meta,
}
use yurt_playground.StoreLog.Names.{IsAscii, is_store_file_name-IsAscii}
use yurt_playground.StoreLog.Record.{head, piece_tag, parse}
use yurt_playground.StoreLog.Record.Trip.{
  parse-head_piece, parse-head_closing, length-head_piece, length-head_closing,
}
use yurt_playground.StoreLog.Reader.{Replay, drain}
use yurt_playground.StoreLog.Reader.Bound.{call_name, sum, piece_size}
use yurt_playground.StoreLog.Reader.Progress.{IsOrder}
use yurt_playground.StoreLog.Reader.Held.{
  sent, kept, after_calls, FitsBound, perform_piece_lem, perform_length_lem, drain-piece,
  drain-closing, drain_nil,
}
use yurt_playground.StoreLog.Writer.{order_call, Accepts, record_of, log_of}
use yurt_playground.StoreLog.Writer.Extent.{
  HasRoom, order_call-HasRoom, order_call-Moved, Accepts-Extends,
}

after_calls_cons :
    (call : StoreCall) (calls : List StoreCall) (next last : StoreExportOrder) (r : Replay)
    → after_calls calls last (after_calls (call ∷ []) next r) ≡ after_calls (call ∷ calls) last r
after_calls_cons call calls next last r = elim (Bool-cases (text_eq (call_name call) meta)) [
  | inl is_meta ↦
      rw (is_meta, append-nil r.target, append_assoc r.held (call ∷ []) (kept calls))
        (ap (λ k. counted k (sent calls) (call ∷ kept calls))
          (shift r.meta_bytes (piece_size call) (sum piece_size (kept calls))))
  | inr other ↦
      rw (other, append-nil r.held, append_assoc r.target (call ∷ []) (sent calls))
        (ap (λ k. counted k (call ∷ sent calls) (kept calls))
          (no_shift r.meta_bytes (sum piece_size (kept calls))))
]
  where
    counted : ℕ → List StoreCall → List StoreCall → Replay
    counted k now later = record r {
      order = last;
      target = r.target ++ now;
      held = r.held ++ later;
      meta_bytes = k;
    }

    shift : (a b c : ℕ) → a + (b + 0) + c ≡ a + (b + c)
    shift a b c = omega arith

    no_shift : (a c : ℕ) → a + 0 + c ≡ a + c
    no_shift a c = omega arith

head_room :
    (call : StoreCall) (calls : List StoreCall) (r : Replay)
    → r.meta_bytes + sum piece_size (kept (call ∷ calls)) ≤ store_piece_bytes
    → (r.meta_bytes + sum piece_size (kept (call ∷ [])) ≤ store_piece_bytes)
      × (r.meta_bytes + sum piece_size (kept (call ∷ [])) + sum piece_size (kept calls)
          ≤ store_piece_bytes)
head_room call calls r small = ground arith

-- With TextEncoder and TextDecoder, which leave ASCII as it is.
module _ (encode : Text → List ℕ) (decode : List ℕ → Text)
    (ascii : (s : Text) → IsAscii s → (encode s ≡ s) × (decode s ≡ s)) where
  encode-name :
      (name : Text)
      → is_store_file_name name ≡ true
      → (decode (encode name) ≡ name) × (length (encode name) ≤ 28)
  encode-name name named =
      let plain = is_store_file_name-IsAscii name named in
      let both = ascii name plain.0 in
      (ap decode both.0 ∙ both.1, subst (λ s. length s ≤ 28) (sym both.0) plain.1)

  drain-record :
      (call : StoreCall) (r : Replay) (next : StoreExportOrder) (file : Text) (rest : List ℕ)
      (rounds : ℕ)
      → order_call call r.order ≡ (next, ok file)
      → file ≡ call_name call
      → is_store_file_name (call_name call) ≡ true
      → HasRoom call
      → FitsBound next r.bound
      → r.meta_bytes + sum piece_size (kept (call ∷ [])) ≤ store_piece_bytes
      → drain decode (suc rounds) r (record_of encode call ++ rest)
        ≡ drain decode rounds (after_calls (call ∷ []) next r) rest
  drain-record (writes name offset bytes) r next file rest rounds e same named (safe, fits) bound
        small =
      let known = encode-name name named in
      let used : ℕ = 2 + length (encode name) + 8 + 4 + length bytes in
      drain-piece decode rounds r (after_calls (writes name offset bytes ∷ []) next r)
        (record_of encode (writes name offset bytes) ++ rest) name offset bytes used
        (ap (parse decode)
            (append_assoc (head encode piece_tag name offset (some (length bytes))) bytes rest)
          ∙ parse-head_piece encode decode name offset bytes rest known.0 known.1 safe fits)
        (perform_piece_lem name offset bytes r next file e same bound small)
      ∙ ap (drain decode rounds (after_calls (writes name offset bytes ∷ []) next r)) (
          drop-append_add used (record_of encode (writes name offset bytes)) rest 0 (
            omega (
              arith,
              length-append (head encode piece_tag name offset (some (length bytes))) bytes,
              length-head_piece encode decode name offset (length bytes),
            )))
  drain-record (sets_length name n) r next file rest rounds e same named safe bound small =
      let known = encode-name name named in
      let used : ℕ = 2 + length (encode name) + 8 in
      drain-closing decode rounds r (after_calls (sets_length name n ∷ []) next r)
        (record_of encode (sets_length name n) ++ rest) name n used
        (parse-head_closing encode decode name n rest known.0 known.1 safe)
        (perform_length_lem name n r next file e same bound small)
      ∙ ap (drain decode rounds (after_calls (sets_length name n ∷ []) next r)) (
          drop-append_add used (record_of encode (sets_length name n)) rest 0
            (omega (arith, length-head_closing encode decode name n)))

  -- The log of calls that the order takes is replayed whole, call by call.
  pub drain-log_of :
      (calls : List StoreCall) (rounds : ℕ) (r : Replay) (last : StoreExportOrder)
      → length calls < rounds
      → IsOrder r.order
      → Accepts r.order calls last
      → FitsBound last r.bound
      → r.meta_bytes + sum piece_size (kept calls) ≤ store_piece_bytes
      → drain decode rounds r (log_of encode calls) ≡ (after_calls calls last r, ok [])
  drain-log_of calls zero r last few is_order taken bound small = absurd (omega arith)
  drain-log_of [] (suc rounds) r last few is_order taken bound small =
      drain_nil decode rounds r
      ∙ rw (sym taken, append-nil r.target, append-nil r.held, add-zero r.meta_bytes) refl
  drain-log_of (call ∷ calls) (suc rounds) r last few is_order (next, file, e, rest) bound small =
      let moved = order_call-Moved call r.order next file is_order e in
      let later = Accepts-Extends calls next last moved.2 rest in
      let room = head_room call calls r small in
      drain-record call r next file (log_of encode calls) rounds e moved.0 moved.1
        (order_call-HasRoom call r.order next file e) (ground (arith, later)) room.0
      ∙ drain-log_of calls rounds (after_calls (call ∷ []) next r) last (omega arith) moved.2 rest
          bound room.1
      ∙ ap (λ q. (q, ok [])) (after_calls_cons call calls next last r)

  -- Every record has a byte at least.
  pub length-log_of : (calls : List StoreCall) → length calls ≤ length (log_of encode calls)
  length-log_of [] = omega arith
  length-log_of (writes name offset bytes ∷ calls) = omega (
    arith,
    length-log_of calls,
    length-append (record_of encode (writes name offset bytes)) (log_of encode calls),
    length-append (head encode piece_tag name offset (some (length bytes))) bytes,
    length-head_piece encode decode name offset (length bytes),
  )
  length-log_of (sets_length name n ∷ calls) = omega (
    arith,
    length-log_of calls,
    length-append (record_of encode (sets_length name n)) (log_of encode calls),
    length-head_closing encode decode name n,
  )
