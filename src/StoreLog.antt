-- ===== src/StoreLog.antt =====
-- src/store_log.ts: the log of a YurtFS root store's export. Here: the names that an export may give,
-- and class StoreExportOrder, the order its calls must keep. `Record` is a record's bytes, `Writer`
-- the log as it is written, `Reader` its replay.

pub mod Record
pub mod Reader
pub mod Names
pub mod Writer
mod Tests
use yurt_playground.Base.{
  ℕ, zero, suc, ◌+◌, ◌-◌, ◌*◌, ◌%◌, ◌^◌, Bool, true, false, not, ◌&&◌, ◌||◌, List, [], ◌∷◌, ◌++◌,
  Option, none, some, Text, chars, Outcome, ok, err, ltb, leb, ◌==◌, if◌then◌else◌, text_eq,
  starts_with, includes, length, drop, is_digit,
}

abbrev pub store_piece_bytes : ℕ
store_piece_bytes = 65536

abbrev pub max_safe_integer : ℕ
max_safe_integer = 9007199254740991

abbrev u64_max : ℕ
u64_max = 18446744073709551615

abbrev pub content_prefix : Text
content_prefix = chars "content/"

abbrev pub journal_a : Text
journal_a = chars "journal-a"

abbrev pub journal_b : Text
journal_b = chars "journal-b"

abbrev pub meta : Text
meta = chars "meta"

all_digits : Text → Bool
all_digits [] = true
all_digits (c ∷ s) = is_digit c && all_digits s

-- `BigInt(digits)`.
digits_value : ℕ → Text → ℕ
digits_value acc [] = acc
digits_value acc (c ∷ s) = digits_value (acc * 10 + (c - 48)) s

-- `/^content\/[1-9][0-9]{0,19}$/` after its prefix.
is_ino : Text → Bool
is_ino [] = false
is_ino (c ∷ s) =
    leb 49 c
    && leb c 57
    && (all_digits s && leb (length s) 19)
    && leb (digits_value 0 (c ∷ s)) u64_max

unfoldable pub is_store_file_name : Text → Bool
unfolding is_ino all_digits digits_value
is_store_file_name name =
    text_eq name journal_a
    || text_eq name journal_b
    || text_eq name meta
    || (starts_with name content_prefix && is_ino (drop 8 name))

pub record StoreTotals : Type 0 where
  pub files : ℕ
  pub bytes : ℕ
  pub piece_bytes : ℕ

pub record OpenFile : Type 0 where
  pub name : Text
  pub end : ℕ
  pub short : Bool

-- The source's phases 0 to 4.
pub data OrderPhase : Type 0 where
  contents journal_open journal_closed meta_open meta_closed : OrderPhase

pub record StoreExportOrder : Type 0 where
  pub seen : List Text
  pub phase : OrderPhase
  pub opened : Option OpenFile
  pub totals : StoreTotals

pub data OrderError : Type 0 where
  moved_before_length not_a_store_file went_back out_of_order not_at_boundary bad_size : OrderError
  bad_length ended_before_meta : OrderError

-- A call of the export, or to the target.
pub data StoreCall : Type 0 where
  writes : Text → ℕ → List ℕ → StoreCall
  sets_length : Text → ℕ → StoreCall

abbrev pub new_order : StoreExportOrder
new_order = record {
  seen = [];
  phase = contents;
  opened = none;
  totals = record { files = 0; bytes = 0; piece_bytes = 0 };
}

-- The phase that a file's first call moves to.
content_phase : OrderPhase → Option OrderPhase
content_phase contents = some contents
content_phase _ = none

meta_phase : OrderPhase → Option OrderPhase
meta_phase journal_closed = some meta_open
meta_phase _ = none

journal_phase : OrderPhase → Option OrderPhase
journal_phase contents = some journal_open
journal_phase _ = none

next_phase : Text → OrderPhase → Option OrderPhase
next_phase name phase =
    if starts_with name content_prefix
    then content_phase phase
    else if text_eq name meta
    then meta_phase phase
    else journal_phase phase

open_next :
    Text → Option OrderPhase → StoreExportOrder → StoreExportOrder × Outcome OrderError OpenFile
open_next name none o = (o, err out_of_order)
open_next name (some phase) o =
    let file : OpenFile = record { name = name; end = 0; short = false } in
    (record o { phase = phase; seen = o.seen ++ name ∷ []; opened = some file }, ok file)

begin_file :
    Text → Option OpenFile → StoreExportOrder → StoreExportOrder × Outcome OrderError OpenFile
begin_file name (some file) o =
    if text_eq file.name name then (o, ok file) else (o, err moved_before_length)
begin_file name none o =
    if not (is_store_file_name name)
    then (o, err not_a_store_file)
    else if includes name o.seen
    then (o, err went_back)
    else open_next name (next_phase name o.phase) o

-- A call may change the state and then throw: both are returned.
pub begin : Text → StoreExportOrder → StoreExportOrder × Outcome OrderError OpenFile
unfolding begin_file open_next next_phase content_phase meta_phase journal_phase
begin name o = begin_file name o.opened o

-- A number of the source that an offset or a length may be: `none` is one that is no safe integer.
abbrev pub is_safe : Option ℕ → Bool
is_safe none = false
is_safe (some n) = leb n max_safe_integer

abbrev pub number_or_zero : Option ℕ → ℕ
number_or_zero none = 0
number_or_zero (some n) = n

write_to : ℕ → Bool → ℕ → OpenFile → StoreExportOrder → StoreExportOrder × Outcome OrderError Text
write_to offset safe size file o =
    if not safe || not (offset % store_piece_bytes == 0) || ltb offset file.end || file.short
    then (o, err not_at_boundary)
    else if ltb size 1 || ltb store_piece_bytes size
    then (o, err bad_size)
    else (
      record o {
        opened = some (record file { end = offset + size; short = ltb size store_piece_bytes });
        totals = record (o.totals) { piece_bytes = o.totals.piece_bytes + size };
      },
      ok file.name,
    )

write_begun :
    Option ℕ
    → ℕ
    → StoreExportOrder × Outcome OrderError OpenFile
    → StoreExportOrder × Outcome OrderError Text
write_begun offset size (o, err e) = (o, err e)
write_begun offset size (o, ok file) = write_to (number_or_zero offset) (is_safe offset) size file o

unfoldable pub write :
    Text → Option ℕ → ℕ → StoreExportOrder → StoreExportOrder × Outcome OrderError Text
unfolding write_begun write_to
write name offset size o = write_begun offset size (begin name o)

closed_phase : OrderPhase → OrderPhase
closed_phase journal_open = journal_closed
closed_phase meta_open = meta_closed
closed_phase contents = contents
closed_phase journal_closed = journal_closed
closed_phase meta_closed = meta_closed

length_of : ℕ → Bool → OpenFile → StoreExportOrder → StoreExportOrder × Outcome OrderError Text
length_of length safe file o =
    if not safe || ltb length file.end || (file.short && not (length == file.end))
    then (o, err bad_length)
    else (
      record o {
        opened = none;
        phase = closed_phase o.phase;
        totals = record (o.totals) { files = o.totals.files + 1; bytes = o.totals.bytes + length };
      },
      ok file.name,
    )

length_begun :
    Option ℕ
    → StoreExportOrder × Outcome OrderError OpenFile
    → StoreExportOrder × Outcome OrderError Text
length_begun length (o, err e) = (o, err e)
length_begun length (o, ok file) = length_of (number_or_zero length) (is_safe length) file o

unfoldable pub set_length :
    Text → Option ℕ → StoreExportOrder → StoreExportOrder × Outcome OrderError Text
unfolding length_begun length_of closed_phase
set_length name length o = length_begun length (begin name o)

is_complete : OrderPhase → Bool
is_complete meta_closed = true
is_complete _ = false

unfoldable pub finish_order : StoreExportOrder → Outcome OrderError StoreTotals
unfolding is_complete
finish_order o = if is_complete o.phase then ok o.totals else err ended_before_meta

-- The closed files' totals, and the open file's end.
abbrev pub open_end : StoreExportOrder → Option ℕ
open_end o = elim o.opened [ none ↦ none | some file ↦ some file.end ]
