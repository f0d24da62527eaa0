-- ===== src/SnapshotZip/Reader.antt =====
-- src/snapshot_zip.ts: class ZipStreamReader. The stream is the list of the chunks that it still has; a
-- stream that fails is not modelled. Parameters: `decode`, UTF-8 bytes to text (TextDecoder), and
-- `inflate`, the chunks that DecompressionStream makes of the chunks written to it, if they are sound.
pub mod Flat
pub mod Fill
pub mod Refine
pub mod Copy
pub mod Contents
pub mod Whole
use Prim.Native.Nat.{bit_and}
use yurt_playground.Base.{
  ℕ, zero, suc, ◌+◌, ◌-◌, ◌*◌, ◌%◌, ◌^◌, Bool, true, false, not, ◌&&◌, ◌||◌, List, [], ◌∷◌, ◌++◌,
  Option, none, some, Text, chars, Outcome, ok, err, ◌>>=◌, ◌>>◌, unless_throw, ltb, leb, ◌==◌,
  if◌then◌else◌, length, take, drop, replicate, min,
}
use yurt_playground.StoreLog.Record.{read_little_endian, slice}
use yurt_playground.SnapshotZip.{
  ZipEntry, ZipError, truncated_in, truncated_of, is_gzip, not_zip, encrypted_or_descriptor,
  unknown_method, stored_but_resized, corrupt, inflates_past, inflates_to, wrong_crc, over_bytes,
  out_of_range, runs_on, no_end, names_entries, local_signature, central_signature, end_signature,
  stored, deflated,
}
use yurt_playground.SnapshotZip.Crc.{crc32}

pub record ZipStreamReader : Type 0 where
  pub coming : List (List ℕ)
  pub pending : List ℕ
  pub rest : Option (List ℕ)
  pub entries : ℕ
  pub check_crc : Bool

abbrev pub new_zip_reader : List (List ℕ) → Bool → ZipStreamReader
new_zip_reader chunks check_crc = record {
  coming = chunks;
  pending = [];
  rest = none;
  entries = 0;
  check_crc = check_crc;
}

-- `#next`, of the stream's chunks and `#rest`: a chunk, and what is left of both.
unfoldable pub next_chunk : Option (List ℕ) → List (List ℕ) → Option (List ℕ × List (List ℕ))
next_chunk (some rest) coming = some (rest, coming)
next_chunk none [] = none
next_chunk none (chunk ∷ coming) = some (chunk, coming)

-- The chunks that `#next` can still return.
unfoldable pub chunks_left : ZipStreamReader → ℕ
chunks_left r = (elim (r.rest) [ none ↦ 0 | some _ ↦ 1 ]) + length r.coming

-- What `#fill` does with a chunk, before its next round.
join_value : ℕ → List ℕ → List (List ℕ) → ZipStreamReader → ZipStreamReader
join_value bytes value coming r =
    let need = min (bytes - length r.pending) (length value) in
    if length r.pending == 0
    then record r { pending = value; rest = none; coming = coming }
    else record r {
      pending = r.pending ++ take need value;
      rest = if ltb need (length value) then some (drop need value) else none;
      coming = coming;
    }

fill_with :
    (ZipStreamReader → ZipStreamReader)
    → ℕ
    → ZipStreamReader
    → Option (List ℕ × List (List ℕ))
    → ZipStreamReader
unfolding join_value
fill_with next bytes r none = r
fill_with next bytes r (some (value, coming)) = next (join_value bytes value coming r)

unfoldable pub fill_rounds : ℕ → ℕ → ZipStreamReader → ZipStreamReader
unfolding fill_with next_chunk
fill_rounds zero bytes r = r
fill_rounds (suc rounds) bytes r =
    if leb bytes (length r.pending)
    then r
    else fill_with (fill_rounds rounds bytes) bytes r (next_chunk r.rest r.coming)

-- Each round takes a chunk, but for the last.
unfoldable pub fill : ℕ → ZipStreamReader → ZipStreamReader
unfolding fill_rounds chunks_left
fill bytes r = fill_rounds (suc (chunks_left r)) bytes r

take_filled : ℕ → Text → ZipStreamReader → Outcome ZipError (List ℕ × ZipStreamReader)
take_filled bytes what r =
    if ltb (length r.pending) bytes
    then err (truncated_in what)
    else ok (take bytes r.pending, record r { pending = drop bytes r.pending })

unfoldable pub take_bytes : ℕ → Text → ZipStreamReader → Outcome ZipError (List ℕ × ZipStreamReader)
unfolding take_filled fill
take_bytes bytes what r = take_filled bytes what (fill bytes r)

-- Little-endian numbers of a header, at an offset.
abbrev pub get_u16 : ℕ → List ℕ → ℕ
get_u16 at bytes = read_little_endian (slice at 2 bytes)

abbrev pub get_u32 : ℕ → List ℕ → ℕ
get_u32 at bytes = read_little_endian (slice at 4 bytes)

-- What is wrong with the fixed part of a local header.
unfoldable pub check_local : List ℕ → Outcome ZipError (Unit {0})
check_local fixed =
    let signature = get_u32 0 fixed in
    let method = get_u16 8 fixed in
    if not (signature == local_signature)
    then err (if signature % 65536 == 0x8b1f then is_gzip else not_zip)
    else if not (bit_and (get_u16 6 fixed) 0x9 == 0)
    then err encrypted_or_descriptor
    else if not (method == stored) && not (method == deflated)
    then err (unknown_method method)
    else ok tt

module _ (decode : List ℕ → Text) where
  unfoldable pub entry_of : List ℕ → List ℕ → ZipEntry
  entry_of fixed name = record {
    name = decode name;
    crc = get_u32 14 fixed;
    size = get_u32 22 fixed;
    compressed = get_u32 18 fixed;
    method = get_u16 8 fixed;
  }

  next_entry : List ℕ × ZipStreamReader → Outcome ZipError (Option ZipEntry × ZipStreamReader)
  unfolding take_bytes check_local entry_of
  next_entry (fixed, r) =
      if get_u32 0 fixed == central_signature
      then ok (none, record r { pending = fixed ++ r.pending })
      else (check_local fixed
          >> (take_bytes (get_u16 26 fixed) (chars "a zip entry name") r >>= (λ named.
              take_bytes (get_u16 28 fixed) (chars "a zip entry header") named.1 >>= (λ extra. ok (
                some (entry_of fixed named.0),
                record (extra.1) { entries = extra.1.entries + 1 },
              )))))

  unfoldable pub next : ZipStreamReader → Outcome ZipError (Option ZipEntry × ZipStreamReader)
  unfolding next_entry take_bytes
  next r = take_bytes 30 (chars "a zip entry header") r >>= next_entry

-- A call of `take`: a chunk and its offset.
pub record Given : Type 0 where
  pub chunk : List ℕ
  pub offset : ℕ

-- A buffered chunk for `#copy`, or the end of the stream.
refilled :
    ZipError → ZipStreamReader → Option (List ℕ × List (List ℕ)) → Outcome ZipError ZipStreamReader
refilled thrown r none = err thrown
refilled thrown r (some (value, coming)) =
    ok (record r { pending = value; rest = none; coming = coming })

pub refill : ZipError → ZipStreamReader → Outcome ZipError ZipStreamReader
unfolding refilled next_chunk
refill thrown r =
    if length r.pending == 0 then refilled thrown r (next_chunk r.rest r.coming) else ok r

unfoldable pub give_chunk :
    (ℕ → ZipStreamReader → Outcome ZipError (List Given × ZipStreamReader))
    → ℕ
    → ℕ
    → ZipStreamReader
    → Outcome ZipError (List Given × ZipStreamReader)
give_chunk next bytes had r =
    let chunk = take (min (bytes - had) (length r.pending)) r.pending in
    next (had + length chunk) (record r { pending = drop (length chunk) r.pending })
    >>= (λ more. ok (record { chunk = chunk; offset = had } ∷ more.0, more.1))

unfoldable pub copy_rounds :
    ℕ → ℕ → Text → ℕ → ZipStreamReader → Outcome ZipError (List Given × ZipStreamReader)
unfolding refill give_chunk
copy_rounds zero bytes what had r = ok ([], r)
copy_rounds (suc rounds) bytes what had r =
    if leb bytes had
    then ok ([], r)
    else (refill (truncated_of had bytes what) r
        >>= give_chunk (copy_rounds rounds bytes what) bytes had)

-- Each round takes a chunk of the stream, but for the first and the last.
unfoldable pub copy : ℕ → Text → ZipStreamReader → Outcome ZipError (List Given × ZipStreamReader)
unfolding copy_rounds chunks_left
copy bytes what r = copy_rounds (suc (suc (chunks_left r))) bytes what 0 r

unfoldable pub chunks_of : List Given → List (List ℕ)
chunks_of [] = []
chunks_of (given ∷ more) = given.chunk ∷ chunks_of more

-- The inflater's chunks, given in order, within the entry's size.
unfoldable pub give_inflated : Text → ℕ → ℕ → List (List ℕ) → Outcome ZipError (List Given)
give_inflated name size at [] = if at == size then ok [] else err (inflates_to name at size)
give_inflated name size at (value ∷ values) =
    let more = give_inflated name size (at + length value) values in
    if ltb size (at + length value)
    then err (inflates_past name size)
    else (more >>= (λ given. ok (record { chunk = value; offset = at } ∷ given)))

unfoldable pub inflated :
    ZipEntry → ZipStreamReader → List (List ℕ) → Outcome ZipError (List Given × ZipStreamReader)
unfolding give_inflated
inflated entry r values = give_inflated entry.name entry.size 0 values >>= (λ given. ok (given, r))

unfoldable pub crc_of : ℕ → List Given → ℕ
crc_of crc [] = crc
crc_of crc (given ∷ more) = crc_of (crc32 given.chunk crc) more

-- `out.set(chunk, offset)` of what is given.
unfoldable pub set_all : List Given → List ℕ → Outcome ZipError (List ℕ)
set_all [] out = ok out
set_all (given ∷ more) out =
    let end = given.offset + length given.chunk in
    let rest = set_all more (take given.offset out ++ (given.chunk ++ drop end out)) in
    if ltb (length out) end then err out_of_range else rest

-- A decompression stream and its two ends, `DecompressionStream("deflate-raw")`, of the chunks that are
-- written to it: what is read of them once it is closed, none when they are corrupt; what is read of them
-- before a failure; whether a write of them fails already. The pump and the reading run side by side:
-- `pump_first` is whether a failure of the pump comes before the reading has seen an entry run past its
-- size.
pub record Inflater : Type 0 where
  pub inflate : List (List ℕ) → Option (List (List ℕ))
  pub seen : List (List ℕ) → List (List ℕ)
  pub breaks : List (List ℕ) → Bool
  pub pump_first : ZipEntry → Bool

-- The chunks that the pump writes, to the end of the entry or of the stream.
fed_chunk :
    (ℕ → ZipStreamReader → List (List ℕ)) → ℕ → ℕ → Outcome ZipError ZipStreamReader → List (List ℕ)
fed_chunk next bytes had (err _) = []
fed_chunk next bytes had (ok r) =
    let chunk = take (min (bytes - had) (length r.pending)) r.pending in
    chunk ∷ next (had + length chunk) (record r { pending = drop (length chunk) r.pending })

fed_rounds : ℕ → ℕ → Text → ℕ → ZipStreamReader → List (List ℕ)
unfolding refill fed_chunk
fed_rounds zero bytes what had r = []
fed_rounds (suc rounds) bytes what had r =
    if leb bytes had
    then []
    else fed_chunk (fed_rounds rounds bytes what) bytes had (refill (truncated_of had bytes what) r)

unfoldable pub fed : ℕ → Text → ZipStreamReader → List (List ℕ)
unfolding fed_rounds chunks_left
fed bytes what r = fed_rounds (suc (suc (chunks_left r))) bytes what 0 r

-- Whether chunks of an inflater run past a size.
runs_past : ℕ → ℕ → List (List ℕ) → Bool
runs_past size at [] = false
runs_past size at (value ∷ values) =
    ltb size (at + length value) || runs_past size (at + length value) values

module _ (inflater : Inflater) where
  -- Of the pump's failure and the reading's, the one that is thrown.
  unfoldable pub raced : ZipEntry → List (List ℕ) → ZipError → ZipError
  unfolding runs_past
  raced entry written thrown =
      if not (inflater.pump_first entry) && runs_past entry.size 0 (inflater.seen written)
      then inflates_past entry.name entry.size
      else thrown

  unfoldable pub pump_failed : ZipEntry → List (List ℕ) → ZipError → ZipError
  pump_failed entry written thrown = if inflater.breaks written then corrupt entry.name else thrown

  unfoldable pub inflated_entry :
      ZipEntry
      → List Given × ZipStreamReader
      → Option (List (List ℕ))
      → Outcome ZipError (List Given × ZipStreamReader)
  unfolding raced chunks_of inflated
  inflated_entry entry copied none = err (raced entry (chunks_of copied.0) (corrupt entry.name))
  inflated_entry entry copied (some values) = inflated entry copied.1 values

  unfoldable pub deflated_entry :
      ZipEntry
      → List (List ℕ)
      → Outcome ZipError (List Given × ZipStreamReader)
      → Outcome ZipError (List Given × ZipStreamReader)
  unfolding raced pump_failed inflated_entry chunks_of
  deflated_entry entry written (err thrown) =
      err (raced entry written (pump_failed entry written thrown))
  deflated_entry entry written (ok copied) =
      inflated_entry entry copied (inflater.inflate (chunks_of copied.0))

  -- `#readEntry`.
  unfoldable pub read_entry :
      ZipEntry → ZipStreamReader → Outcome ZipError (List Given × ZipStreamReader)
  unfolding copy fed deflated_entry
  read_entry entry r =
      if entry.method == stored
      then (if not (entry.compressed == entry.size)
          then err (stored_but_resized entry.name)
          else copy entry.compressed entry.name r)
      else deflated_entry entry (fed entry.compressed entry.name r)
          (copy entry.compressed entry.name r)

  unfoldable pub read : ZipEntry → ZipStreamReader → Outcome ZipError (List Given × ZipStreamReader)
  unfolding read_entry crc_of
  read entry r = read_entry entry r >>= (λ done.
      if r.check_crc && not (crc_of 0 done.0 == entry.crc)
      then err (wrong_crc entry.name (crc_of 0 done.0) entry.crc)
      else ok done)

  unfoldable pub read_whole :
      ZipEntry → ℕ → ZipStreamReader → Outcome ZipError (List ℕ × ZipStreamReader)
  unfolding read set_all
  read_whole entry max_bytes r =
      if ltb max_bytes entry.size
      then err (over_bytes entry.name max_bytes)
      else (read entry r
          >>= (λ done. set_all done.0 (replicate entry.size 0) >>= (λ out. ok (out, done.1))))

unfoldable pub check_end : ℕ → List ℕ → Outcome ZipError (Unit {0})
check_end entries rest =
    let at = length rest - 22 in
    let named = get_u16 (at + 10) rest in
    if ltb (length rest) 22 || not (get_u32 at rest == end_signature)
    then err no_end
    else if not (named == entries)
    then err (names_entries named entries)
    else ok tt

abbrev is_some {ℓ} : {A : Type ℓ} → Option A → Bool
is_some none = false
is_some (some _) = true

finish_filled : ZipStreamReader → Outcome ZipError (Unit {0})
unfolding check_end next_chunk
finish_filled r =
    if is_some (next_chunk r.rest r.coming) || leb (2 ^ 20) (length r.pending)
    then err runs_on
    else check_end r.entries r.pending

unfoldable pub finish : ZipStreamReader → Outcome ZipError (Unit {0})
unfolding finish_filled fill
finish r = finish_filled (fill (2 ^ 20) r)
