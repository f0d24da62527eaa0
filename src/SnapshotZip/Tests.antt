-- ===== src/SnapshotZip/Tests.antt =====
-- Runs of the zip on small entries, and the theorems at concrete inputs.
use yurt_playground.Base.{
  ℕ, ◌≡◌, refl, true, false, List, [], ◌∷◌, some, chars, Outcome, ok, err, success, arith, take,
  drop,
}
use yurt_playground.StoreLog.Record.{read_little_endian}
use yurt_playground.SnapshotZip.{
  ZipEntry, ZipEntryInput, ZipError, chunk_ranges, join_chunks, truncated_in, is_gzip, stored,
  over_bytes, inflates_past, truncated_of,
}
use yurt_playground.SnapshotZip.Crc.{crc32, table_steps, table_step, complement, serial_bytes}
use yurt_playground.SnapshotZip.Crc.Serial.{crc32-serial_bytes}
use yurt_playground.SnapshotZip.Header.{header, end_record}
use yurt_playground.SnapshotZip.Writer.{
  write_zip, write_entries, write_entry, data_of, fields_of, stream_of,
}
use yurt_playground.SnapshotZip.Reader.{Inflater, new_zip_reader, next, read, read_whole}
use yurt_playground.SnapshotZip.Reader.Flat.{flat_of}
use yurt_playground.SnapshotZip.Reader.Contents.{InflateWhole, IsInflater}
use yurt_playground.SnapshotZip.Reader.Whole.{view_whole, flat_read_whole, read_whole-flat}
use yurt_playground.SnapshotZip.Unzip.{stream_calls, flat_calls, unzip, unzip-flat}
use yurt_playground.SnapshotZip.Trip.Entry.{Codecs}
use yurt_playground.SnapshotZip.Trip.File.{unzip-write_zip}

-- "123456789" has the checksum cbf43926.
crc32_test : crc32 (chars "123456789") 0 ≡ 0xcbf43926
unfolding crc32 table_steps table_step
crc32_test = refl

chunk_ranges_test : chunk_ranges 2_000_000 ≡ (0, 1048576) ∷ (1048576, 2000000) ∷ []
unfolding chunk_ranges
chunk_ranges_test = refl

-- Codecs that change nothing.
abbrev plain_inflate : Inflater
plain_inflate = record {
  inflate = λ chunks. some chunks;
  seen = λ chunks. chunks;
  breaks = λ chunks. false;
  pump_first = λ entry. false;
}

abbrev plain_inflate_whole : InflateWhole
plain_inflate_whole bytes = some bytes

plain-IsInflater : IsInflater plain_inflate plain_inflate_whole
plain-IsInflater = record {
  fails = λ chunks e. cc;
  inflates = λ chunks values e. let same : chunks ≡ values = cc in rw same refl;
}

abbrev plain_codecs : Codecs
plain_codecs = record {
  encode = λ text. text;
  decode = λ bytes. bytes;
  deflate_raw = join_chunks;
  inflate_whole = plain_inflate_whole;
  inflates_back = λ chunks. refl;
}

abbrev first_entry : ZipEntryInput
first_entry = record { name = chars "manifest.json"; bytes = chars "{}" ∷ []; deflate = false }

abbrev second_entry : ZipEntryInput
second_entry = record {
  name = chars "memory";
  bytes = (1 ∷ 2 ∷ []) ∷ (3 ∷ []) ∷ [];
  deflate = true;
}

abbrev written : Outcome ZipError (List ℕ) → List ℕ
written (ok file) = file
written (err _) = []

abbrev small_zip : List ℕ
small_zip = written (write_zip (λ text. text) join_chunks (first_entry ∷ second_entry ∷ []))

abbrev cut : List (List ℕ)
cut = take 7 small_zip ∷ take 60 (drop 7 small_zip) ∷ drop 67 small_zip ∷ []

crc32-serial_bytes_example :
    crc32 (1 ∷ 2 ∷ 255 ∷ []) 7 ≡ complement (serial_bytes (complement 7) (1 ∷ 2 ∷ 255 ∷ []))
crc32-serial_bytes_example =
    crc32-serial_bytes (1 ∷ 2 ∷ 255 ∷ []) 7 (omega arith, (omega arith, (omega arith, tt)))

unzip-flat_example :
    success (unzip (stream_calls (λ bytes. bytes) plain_inflate) 3 (new_zip_reader cut true))
    ≡ success (
        unzip
          (flat_calls (λ bytes. bytes) plain_inflate_whole)
          3
          (flat_of (new_zip_reader cut true)))
unfolding write_zip write_entries write_entry data_of fields_of header end_record
unzip-flat_example =
    unzip-flat plain_inflate plain_inflate_whole plain-IsInflater (λ bytes. bytes) 3
      (new_zip_reader cut true)

unzip-write_zip_example :
    unzip (stream_calls (λ bytes. bytes) plain_inflate) 3 (new_zip_reader cut true)
    ≡ ok (some ((chars "manifest.json", chars "{}") ∷ (chars "memory", 1 ∷ 2 ∷ 3 ∷ []) ∷ []))
unfolding write_zip write_entries write_entry data_of fields_of header end_record stream_of
    chunk_ranges
unzip-write_zip_example =
    unzip-write_zip plain_codecs plain_inflate plain-IsInflater first_entry (second_entry ∷ [])
      small_zip cut true ((refl, omega arith), ((refl, omega arith), tt)) (omega arith)
      (omega arith) refl refl

-- A file that is cut inside a header, and one that is no zip.
truncated_test :
    next (λ bytes. bytes) (new_zip_reader ((1 ∷ 2 ∷ []) ∷ []) false)
    ≡ err (truncated_in (chars "a zip entry header"))
unfolding next
truncated_test = refl

gzip_test :
    next
      (λ bytes. bytes)
      (new_zip_reader ((31 ∷ 139 ∷ 8 ∷ chars "......................................") ∷ []) false)
    ≡ err is_gzip
unfolding next read_little_endian
gzip_test = refl

over_test :
    read_whole plain_inflate
      (record { name = chars "big"; crc = 0; size = 10; compressed = 10; method = stored })
      9
      (new_zip_reader [] false)
    ≡ err (over_bytes (chars "big") 9)
unfolding read_whole
over_test = refl

-- A deflated entry that is cut, and longer than its header says: what is thrown depends on which of the
-- pump and the reading is first.
race_test :
    let entry : ZipEntry = record {
      name = chars "x";
      crc = 0;
      size = 1;
      compressed = 9;
      method = 8;
    } in
    let r = new_zip_reader ((1 ∷ 2 ∷ []) ∷ []) false in
    (read plain_inflate entry r ≡ err (inflates_past (chars "x") 1))
    × (read (record plain_inflate { pump_first = λ entry. true }) entry r
        ≡ err (truncated_of 2 9 (chars "x")))
unfolding read
race_test = (refl, refl)

-- An entry of three bytes, deflated, in two chunks, of which the second has a byte of what comes after.
abbrev an_entry : ZipEntry
an_entry = record { name = chars "x"; crc = 0; size = 3; compressed = 3; method = 8 }

abbrev two_chunks : List (List ℕ)
two_chunks = (1 ∷ 2 ∷ []) ∷ (3 ∷ 9 ∷ []) ∷ []

read_whole-flat_example :
    success (view_whole (read_whole plain_inflate an_entry 8 (new_zip_reader two_chunks false)))
    ≡ success
        (flat_read_whole plain_inflate_whole an_entry 8 (flat_of (new_zip_reader two_chunks false)))
read_whole-flat_example =
    read_whole-flat plain_inflate plain_inflate_whole plain-IsInflater an_entry 8
      (new_zip_reader two_chunks false)

whole_test :
    success (view_whole (read_whole plain_inflate an_entry 8 (new_zip_reader two_chunks false)))
    ≡ some (1 ∷ 2 ∷ 3 ∷ [], record { bytes = 9 ∷ []; entries = 0; check_crc = false })
unfolding read_whole
whole_test = refl
