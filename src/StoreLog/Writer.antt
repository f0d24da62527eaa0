-- ===== src/StoreLog/Writer.antt =====
-- src/store_log.ts: class StoreLogWriter, and a whole export: the calls that StoreLogWriter takes in turn and the log of them.
pub mod Extent
pub mod Replayed
pub mod Metas
pub mod Last
pub mod Trip
use yurt_playground.Base.{
  ℕ, ◌+◌, ◌≡◌, refl, sym, ap, ◌∙◌, List, [], ◌∷◌, ◌++◌, some, none, Text, Outcome, ok, err, length,
  append_assoc, append-nil,
}
use yurt_playground.StoreLog.{
  StoreExportOrder, OrderError, StoreCall, writes, sets_length, write, set_length, new_order,
}
use yurt_playground.StoreLog.Record.{head, piece_tag, length_tag}
use yurt_playground.StoreLog.Reader.Bound.{call_name}
use yurt_playground.StoreLog.Reader.Feed.{flatten}

pub record StoreLogWriter : Type 0 where
  pub order : StoreExportOrder
  pub chunks : List (List ℕ)

abbrev pub new_writer : StoreLogWriter
new_writer = record { order = new_order; chunks = [] }

module _ (encode : Text → List ℕ) where
  written :
      Text
      → ℕ
      → List ℕ
      → List (List ℕ)
      → StoreExportOrder × Outcome OrderError Text
      → StoreLogWriter × Outcome OrderError (Unit {0})
  written name offset bytes chunks (o, err e) = (record { order = o; chunks = chunks }, err e)
  written name offset bytes chunks (o, ok _) = (
    record {
      order = o;
      chunks = chunks ++ head encode piece_tag name offset (some (length bytes)) ∷ bytes ∷ [];
    },
    ok tt,
  )

  length_written :
      Text
      → ℕ
      → List (List ℕ)
      → StoreExportOrder × Outcome OrderError Text
      → StoreLogWriter × Outcome OrderError (Unit {0})
  length_written name length chunks (o, err e) = (record { order = o; chunks = chunks }, err e)
  length_written name length chunks (o, ok _) =
      (record { order = o; chunks = chunks ++ head encode length_tag name length none ∷ [] }, ok tt)

  unfoldable pub write_call :
      StoreCall → StoreLogWriter → StoreLogWriter × Outcome OrderError (Unit {0})
  unfolding written length_written
  write_call (writes name offset bytes) w =
      written name offset bytes w.chunks (write name (some offset) (length bytes) w.order)
  write_call (sets_length name length) w =
      length_written name length w.chunks (set_length name (some length) w.order)

abbrev pub order_call : StoreCall → StoreExportOrder → StoreExportOrder × Outcome OrderError Text
order_call (writes name offset bytes) o = write name (some offset) (length bytes) o
order_call (sets_length name n) o = set_length name (some n) o

-- The order takes the calls one by one, and is then as at the end.
abbrev pub Accepts : StoreExportOrder → List StoreCall → StoreExportOrder → Type 0
Accepts o [] last = o ≡ last
Accepts o (call ∷ calls) last =
    (next : StoreExportOrder) × (file : Text) × (order_call call o ≡ (next, ok file))
    × Accepts next calls last

module _ (encode : Text → List ℕ) where
  abbrev pub record_of : StoreCall → List ℕ
  record_of (writes name offset bytes) =
      head encode piece_tag name offset (some (length bytes)) ++ bytes
  record_of (sets_length name n) = head encode length_tag name n none

  abbrev pub log_of : List StoreCall → List ℕ
  log_of [] = []
  log_of (call ∷ calls) = record_of call ++ log_of calls

  -- The export's calls to its sink, up to the first that throws.
  and_write :
      (StoreLogWriter → StoreLogWriter × Outcome OrderError (Unit {0}))
      → StoreLogWriter × Outcome OrderError (Unit {0})
      → StoreLogWriter × Outcome OrderError (Unit {0})
  and_write next (w, err e) = (w, err e)
  and_write next (w, ok _) = next w

  unfoldable pub write_calls :
      List StoreCall → StoreLogWriter → StoreLogWriter × Outcome OrderError (Unit {0})
  unfolding and_write
  write_calls [] w = (w, ok tt)
  write_calls (call ∷ calls) w = and_write (write_calls calls) (write_call encode call w)

  flatten-append : (xs ys : List (List ℕ)) → flatten (xs ++ ys) ≡ flatten xs ++ flatten ys
  flatten-append [] ys = refl
  flatten-append (x ∷ xs) ys =
      ap (λ t. x ++ t) (flatten-append xs ys) ∙ sym (append_assoc x (flatten xs) (flatten ys))

  -- What a call leaves behind when the writer takes it.
  abbrev Taken :
      StoreCall → StoreLogWriter → StoreLogWriter × Outcome OrderError (Unit {0}) → Type 0
  Taken call w (v, err e) = Unit
  Taken call w (v, ok _) =
      ((file : Text) × (order_call call w.order ≡ (v.order, ok file)))
      × (flatten v.chunks ≡ flatten w.chunks ++ record_of call)

  written-Taken :
      (name : Text) (offset : ℕ) (bytes : List ℕ) (w : StoreLogWriter)
      (m : StoreExportOrder × Outcome OrderError Text)
      → order_call (writes name offset bytes) w.order ≡ m
      → Taken (writes name offset bytes) w (written encode name offset bytes w.chunks m)
  unfolding written
  written-Taken name offset bytes w (o, err e) h = tt
  written-Taken name offset bytes w (o, ok file) h = (
    (file, h),
    flatten-append w.chunks (head encode piece_tag name offset (some (length bytes)) ∷ bytes ∷ [])
        ∙ ap
            (λ t.
              flatten w.chunks ++ (head encode piece_tag name offset (some (length bytes)) ++ t))
            (append-nil bytes),
  )

  length_written-Taken :
      (name : Text) (n : ℕ) (w : StoreLogWriter) (m : StoreExportOrder × Outcome OrderError Text)
      → order_call (sets_length name n) w.order ≡ m
      → Taken (sets_length name n) w (length_written encode name n w.chunks m)
  unfolding length_written
  length_written-Taken name n w (o, err e) h = tt
  length_written-Taken name n w (o, ok file) h = (
    (file, h),
    flatten-append w.chunks (head encode length_tag name n none ∷ [])
        ∙ ap (λ t. flatten w.chunks ++ t) (append-nil (head encode length_tag name n none)),
  )

  write_call-Taken :
      (call : StoreCall) (w : StoreLogWriter) → Taken call w (write_call encode call w)
  unfolding write_call
  write_call-Taken (writes name offset bytes) w =
      written-Taken name offset bytes w (write name (some offset) (length bytes) w.order) refl
  write_call-Taken (sets_length name n) w =
      length_written-Taken name n w (set_length name (some n) w.order) refl

  -- When the writer takes a whole export, the order took its calls, and the log is their records.
  pub write_calls-Accepts :
      (calls : List StoreCall) (w v : StoreLogWriter)
      → write_calls calls w ≡ (v, ok tt)
      → Accepts w.order calls v.order × (flatten v.chunks ≡ flatten w.chunks ++ log_of calls)
  unfolding write_calls and_write
  write_calls-Accepts [] w v h = (
    ap (λ (m : StoreLogWriter × Outcome OrderError (Unit {0})). m.0.order) h,
    sym (
        append-nil (flatten w.chunks)
        ∙ ap (λ (m : StoreLogWriter × Outcome OrderError (Unit {0})). flatten m.0.chunks) h),
  )
  write_calls-Accepts (call ∷ calls) w v h =
      taken (write_call encode call w) (write_call-Taken call w) (write_calls-Accepts calls) h
    where
      taken :
          (m : StoreLogWriter × Outcome OrderError (Unit {0}))
          → Taken call w m
          → ((u v : StoreLogWriter)
              → write_calls calls u ≡ (v, ok tt)
              → Accepts u.order calls v.order
                × (flatten v.chunks ≡ flatten u.chunks ++ log_of calls))
          → and_write (write_calls calls) m ≡ (v, ok tt)
          → Accepts w.order (call ∷ calls) v.order
            × (flatten v.chunks ≡ flatten w.chunks ++ log_of (call ∷ calls))
      taken (u, err e) t rest h = cc
      taken (u, ok _) t rest h = (
        (u.order, t.0.0, t.0.1, (rest u v h).0),
        (rest u v h).1
            ∙ ap (λ b. b ++ log_of calls) t.1
            ∙ append_assoc (flatten w.chunks) (record_of call) (log_of calls),
      )
