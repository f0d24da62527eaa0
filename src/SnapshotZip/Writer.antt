-- ===== src/SnapshotZip/Writer.antt =====
-- src/snapshot_zip.ts: writeZip. Parameters: `encode`, text to UTF-8 bytes (TextEncoder), and
-- `deflate_raw`, the bytes that CompressionStream makes of the chunks that are streamed into it.
pub mod Ranges
use yurt_playground.Base.{
  ℕ, zero, ◌+◌, ◌-◌, Bool, ◌||◌, List, [], ◌∷◌, ◌++◌, map, Text, Outcome, ok, err, ◌>>=◌, leb,
  if◌then◌else◌, length, take, drop,
}
use yurt_playground.SnapshotZip.{
  ZipEntryInput, ZipError, entry_too_large, zip_too_large, local_signature, central_signature,
  stored, deflated, limit, chunk_ranges, join_chunks,
}
use yurt_playground.SnapshotZip.Crc.{crc32}
use yurt_playground.SnapshotZip.Header.{HeaderFields, header, end_record}

-- `chunks.reduce((sum, chunk) => sum + chunk.byteLength, 0)`.
abbrev pub sizes : ℕ → List (List ℕ) → ℕ
sizes sum [] = sum
sizes sum (chunk ∷ chunks) = sizes (sum + length chunk) chunks

unfoldable pub crcs : ℕ → List (List ℕ) → ℕ
crcs crc [] = crc
crcs crc (chunk ∷ chunks) = crcs (crc32 chunk crc) chunks

-- `chunk.subarray(start, end)` of the ranges.
views_of : List ℕ → List (ℕ × ℕ) → List (List ℕ)
views_of chunk [] = []
views_of chunk ((start, end) ∷ ranges) =
    take (end - start) (drop start chunk) ∷ views_of chunk ranges

-- The chunks as a stream, in 1 MiB views.
unfoldable pub stream_of : List (List ℕ) → List (List ℕ)
unfolding views_of
stream_of [] = []
stream_of (chunk ∷ chunks) = views_of chunk (chunk_ranges (length chunk)) ++ stream_of chunks

-- `body` and `central` as written so far, and the offset.
pub record Written : Type 0 where
  pub body : List ℕ
  pub central : List ℕ
  pub offset : ℕ

module _ (encode : Text → List ℕ) (deflate_raw : List (List ℕ) → List ℕ) where
  unfoldable pub data_of : ZipEntryInput → List ℕ
  data_of entry =
      if entry.deflate then deflate_raw (stream_of entry.bytes) else join_chunks entry.bytes

  unfoldable pub fields_of : ZipEntryInput → HeaderFields
  fields_of entry = record {
    method = if entry.deflate then deflated else stored;
    crc = crcs 0 entry.bytes;
    compressed = length (data_of entry);
    size = sizes 0 entry.bytes;
    name = encode entry.name;
  }

  unfoldable pub write_entry : ZipEntryInput → Written → Outcome ZipError Written
  write_entry entry w =
      let written = data_of entry in
      let fields = fields_of entry in
      let local = header local_signature fields w.offset in
      let offset = w.offset + (length local + length written) in
      if leb limit (sizes 0 entry.bytes) || leb limit (length written)
      then err (entry_too_large entry.name)
      else if leb limit offset
      then err zip_too_large
      else ok (record {
        body = w.body ++ (local ++ written);
        central = w.central ++ header central_signature fields w.offset;
        offset = offset;
      })

  unfoldable pub write_entries : List ZipEntryInput → Written → Outcome ZipError Written
  write_entries [] w = ok w
  write_entries (entry ∷ entries) w = write_entry entry w >>= write_entries entries

  unfoldable pub write_zip : List ZipEntryInput → Outcome ZipError (List ℕ)
  write_zip entries =
      write_entries entries (record { body = []; central = []; offset = 0 }) >>= (λ w.
        ok (w.body ++ (w.central ++ end_record (length entries) (length w.central) w.offset)))
