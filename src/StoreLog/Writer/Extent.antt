-- ===== src/StoreLog/Writer/Extent.antt =====
-- The extent of an export that the order takes grows call by call.
use yurt_playground.Base.{◌≤◌, ◌+◌, ◌≡◌, subst, sym, List, [], ◌∷◌, Text, ok, arith, length, some}
use yurt_playground.StoreLog.{
  StoreExportOrder, StoreCall, writes, sets_length, max_safe_integer, store_piece_bytes,
}
use yurt_playground.StoreLog.Reader.{files_so_far, bytes_so_far}
use yurt_playground.StoreLog.Reader.Bound.{call_name, closed_file, closed_length, piece_size, sum}
use yurt_playground.StoreLog.Reader.Totals.{Grown, write-Grown, set_length-Grown}
use yurt_playground.StoreLog.Reader.Progress.{
  IsOrder, Moved, Fits, write-Moved, set_length-Moved, write-Fits, set_length-Fits,
}
use yurt_playground.StoreLog.Writer.{order_call, Accepts}

-- The numbers that a record of the call has room for.
abbrev pub HasRoom : StoreCall → Type 0
HasRoom (writes name offset bytes) =
    (offset ≤ max_safe_integer) × (length bytes ≤ store_piece_bytes)
HasRoom (sets_length name n) = n ≤ max_safe_integer

pub order_call-Moved :
    (call : StoreCall) (o next : StoreExportOrder) (file : Text)
    → IsOrder o
    → order_call call o ≡ (next, ok file)
    → Moved o (call_name call) (next, ok file)
order_call-Moved (writes name offset bytes) o next file is_order e =
    subst (Moved o name) e (write-Moved name offset (length bytes) o is_order)
order_call-Moved (sets_length name n) o next file is_order e =
    subst (Moved o name) e (set_length-Moved name n o is_order)

pub order_call-HasRoom :
    (call : StoreCall) (o next : StoreExportOrder) (file : Text)
    → order_call call o ≡ (next, ok file)
    → HasRoom call
order_call-HasRoom (writes name offset bytes) o next file e =
    subst (Fits ((offset ≤ max_safe_integer) × (length bytes ≤ store_piece_bytes))) e
      (write-Fits name offset (length bytes) o)
order_call-HasRoom (sets_length name n) o next file e =
    subst (Fits (n ≤ max_safe_integer)) e (set_length-Fits name n o)

-- No call shrinks the extent.
abbrev pub Extends : StoreExportOrder → StoreExportOrder → Type 0
Extends o last =
    (files_so_far o ≤ files_so_far last)
    × (bytes_so_far o ≤ bytes_so_far last)
    × (o.totals.piece_bytes ≤ last.totals.piece_bytes)

pub Accepts-Extends :
    (calls : List StoreCall) (o last : StoreExportOrder)
    → IsOrder o
    → Accepts o calls last
    → IsOrder last × Extends o last
Accepts-Extends [] o last is_order e =
    subst (λ q. IsOrder q × Extends o q) e (is_order, (omega arith, omega arith, omega arith))
Accepts-Extends (call ∷ calls) o last is_order (next, file, e, rest) =
    let moved = order_call-Moved call o next file is_order e in
    let later = Accepts-Extends calls next last moved.2 rest in
    (later.0, ground (arith, moved, later))

order_call-Grown :
    (call : StoreCall) (o next : StoreExportOrder) (file : Text)
    → order_call call o ≡ (next, ok file)
    → (next.totals.files ≡ o.totals.files + closed_file call)
      × (next.totals.bytes ≡ o.totals.bytes + closed_length call)
      × (next.totals.piece_bytes ≡ o.totals.piece_bytes + piece_size call)
order_call-Grown (writes name offset bytes) o next file e =
    subst (Grown 0 0 (length bytes) o.totals) e (write-Grown name (some offset) (length bytes) o)
order_call-Grown (sets_length name n) o next file e =
    subst (Grown 1 n 0 o.totals) e (set_length-Grown name (some n) o)

pub Accepts-totals :
    (calls : List StoreCall) (o last : StoreExportOrder)
    → Accepts o calls last
    → (last.totals.files ≡ o.totals.files + sum closed_file calls)
      × (last.totals.bytes ≡ o.totals.bytes + sum closed_length calls)
      × (last.totals.piece_bytes ≡ o.totals.piece_bytes + sum piece_size calls)
Accepts-totals [] o last e = rw (sym e) (omega arith, omega arith, omega arith)
Accepts-totals (call ∷ calls) o last (next, file, e, rest) =
    ground (arith, order_call-Grown call o next file e, Accepts-totals calls next last rest)
