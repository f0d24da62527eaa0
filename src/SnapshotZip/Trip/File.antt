-- ===== src/SnapshotZip/Trip/File.antt =====
-- The whole file: its entries, its directory and its end record.
use yurt_playground.Base.{
  ℕ, suc, ◌+◌, ◌-◌, ◌^◌, ◌<◌, ◌≡◌, refl, sym, ap, ◌∙◌, Bool, true, false, List, [], ◌∷◌, ◌++◌, none,
  some, Text, ok, success, success-ok, >>=-eq-ok, ltb, leb, ◌==◌, All, length, take, arith,
  length-append, append_assoc, append-nil, drop-append_add,
}
use yurt_playground.StoreLog.Record.{slice}
use yurt_playground.SnapshotZip.{ZipEntryInput, local_signature, central_signature, join_chunks}
use yurt_playground.SnapshotZip.Header.{HeaderFields, header, end_record}
use yurt_playground.SnapshotZip.Header.Fields.{length-header_central, end_record-fields}
use yurt_playground.SnapshotZip.Writer.{
  Written, data_of, fields_of, write_entry, write_entries, write_zip,
}
use yurt_playground.SnapshotZip.Reader.{Inflater, new_zip_reader, check_end}
use yurt_playground.SnapshotZip.Reader.Flat.{flat_next, flat_finish}
use yurt_playground.SnapshotZip.Reader.Contents.{IsInflater}
use yurt_playground.SnapshotZip.Unzip.{flat_calls, stream_calls, unzip, with_entry, unzip-flat}
use yurt_playground.SnapshotZip.Trip.{flat, flat_next-header, flat_next-central}
use yurt_playground.SnapshotZip.Trip.Entry.{
  Codecs, write_entry-ok, fields_of-IsWritable, flat_read-data_of,
}

-- A name, and the contents, of each entry.
abbrev pub contents : List ZipEntryInput → List (Text × List ℕ)
contents [] = []
contents (e ∷ entries) = (e.name, join_chunks e.bytes) ∷ contents entries

abbrev pub directory_size : (Text → List ℕ) → List ZipEntryInput → ℕ
directory_size encode [] = 0
directory_size encode (e ∷ entries) = 46 + length (encode e.name) + directory_size encode entries

module _ (codecs : Codecs) where
  open codecs use {encode, decode, deflate_raw, inflate_whole}

  -- A name that comes back from its bytes, of which a header can have the count.
  abbrev pub IsNamed : ZipEntryInput → Type 0
  IsNamed e = (decode (encode e.name) ≡ e.name) × (length (encode e.name) < 256 ^ 2)

  decode-fields_of :
      (e : ZipEntryInput)
      → decode (encode e.name) ≡ e.name
      → decode (fields_of encode deflate_raw e).name ≡ e.name
  unfolding fields_of
  decode-fields_of e named = named

  -- What is read from the entries' bytes and what follows them.
  Reads : List ZipEntryInput → List ℕ → Type 0
  Reads entries body =
      (tail : List ℕ) (n : ℕ) (check_crc : Bool)
      → unzip (flat_calls decode inflate_whole) 1 (flat tail (n + length entries) check_crc)
        ≡ ok (some [])
      → unzip (flat_calls decode inflate_whole) (suc (length entries))
          (flat (body ++ tail) n check_crc)
        ≡ ok (some (contents entries))

  Reads-entry :
      (e : ZipEntryInput) (entries : List ZipEntryInput) (body : List ℕ) (w w' : Written)
      → write_entry encode deflate_raw e w ≡ ok w'
      → IsNamed e
      → Reads entries body
      → Reads (e ∷ entries) (
          header local_signature (fields_of encode deflate_raw e) w.offset
          ++ (data_of encode deflate_raw e ++ body))
  unfolding unzip with_entry Reads
  Reads-entry e entries body w w' h (named, fits) later tail n check_crc last =
      let (small, short, _, _) = write_entry-ok codecs e w w' h in
      let f : HeaderFields = fields_of encode deflate_raw e in
      let first =
        flat_next-header decode f w.offset ((data_of encode deflate_raw e ++ body) ++ tail) n
          check_crc (fields_of-IsWritable codecs e small short fits) in
      let second = flat_read-data_of codecs e (body ++ tail) (n + 1) check_crc in
      let count : n + suc (length entries) ≡ n + 1 + length entries = omega arith in
      let rest = later tail (n + 1) check_crc (rw (← count) last) in
      rw
        (
          append_assoc (header local_signature f w.offset) (data_of encode deflate_raw e ++ body)
              tail,
          first,
          append_assoc (data_of encode deflate_raw e) body tail,
          second,
          rest,
        )
        (ap (λ t. ok (some ((t, join_chunks e.bytes) ∷ contents entries)))
          (decode-fields_of e named))

  -- A directory of some entries: nothing, or a central header and more.
  IsDirectory : List ZipEntryInput → List ℕ → Type 0
  IsDirectory [] central = central ≡ []
  IsDirectory (e ∷ entries) central =
      (f : HeaderFields) × (offset : ℕ) × (more : List ℕ) × (central
        ≡ header central_signature f offset ++ more)

  record Body (entries : List ZipEntryInput) (w w' : Written) : Type 0 where
    body : List ℕ
    central : List ℕ
    body_after : w'.body ≡ w.body ++ body
    central_after : w'.central ≡ w.central ++ central
    directory : IsDirectory entries central
    size : length central ≡ directory_size encode entries
    reads : Reads entries body

  central_size :
      (e : ZipEntryInput) (offset : ℕ)
      → length (header central_signature (fields_of encode deflate_raw e) offset)
        ≡ 46 + length (encode e.name)
  unfolding fields_of
  central_size e offset = length-header_central (fields_of encode deflate_raw e) offset

  write_entries-Body :
      (entries : List ZipEntryInput) (w w' : Written)
      → write_entries encode deflate_raw entries w ≡ ok w'
      → All IsNamed entries
      → Body entries w w'
  unfolding write_entries IsDirectory Reads
  write_entries-Body [] w w' h named = record {
    body = [];
    central = [];
    body_after = let e : w ≡ w' = cc in rw (← e) (sym (append-nil w.body));
    central_after = let e : w ≡ w' = cc in rw (← e) (sym (append-nil w.central));
    directory = refl;
    size = refl;
    reads = λ tail n check_crc last. let e : n + 0 ≡ n = omega arith in rw (← e) last;
  }
  write_entries-Body (e ∷ entries) w w' h (named, all) =
      let (w1, first, rest) =
        >>=-eq-ok (write_entry encode deflate_raw e w) (write_entries encode deflate_raw entries)
          h in
      let (small, short, in_body, in_central) = write_entry-ok codecs e w w1 first in
      let later : Body entries w1 w' = write_entries-Body entries w1 w' rest all in
      let f : HeaderFields = fields_of encode deflate_raw e in
      let written : List ℕ = header local_signature f w.offset ++ data_of encode deflate_raw e in
      record {
        body = header local_signature f w.offset ++ (data_of encode deflate_raw e ++ later.body);
        central = header central_signature f w.offset ++ later.central;
        body_after =
            later.body_after
            ∙ (ap (λ t. t ++ later.body) in_body
                ∙ (append_assoc w.body written later.body
                    ∙ ap (λ t. w.body ++ t)
                        (append_assoc (header local_signature f w.offset)
                          (data_of encode deflate_raw e) later.body)));
        central_after =
            later.central_after
            ∙ (ap (λ t. t ++ later.central) in_central
                ∙ append_assoc w.central (header central_signature f w.offset) later.central);
        directory = (f, w.offset, later.central, refl);
        size = omega (
          arith,
          length-append (header central_signature f w.offset) later.central,
          central_size e w.offset,
          later.size,
        );
        reads = Reads-entry e entries later.body w w1 first named later.reads;
      }

  end_at :
      (at k m : ℕ) (front back : List ℕ)
      → at ≡ length front + k
      → slice at m (front ++ back) ≡ slice k m back
  end_at at k m front back e = ap (take m) (drop-append_add at front back k e)

  flat_finish-end_record :
      (central : List ℕ) (n central_bytes offset : ℕ) (check_crc : Bool)
      → n < 256 ^ 2
      → length central + 22 < 2 ^ 20
      → flat_finish (flat (central ++ end_record n central_bytes offset) n check_crc) ≡ ok tt
  unfolding flat_finish check_end
  flat_finish-end_record central n central_bytes offset check_crc h small =
      let last : List ℕ = end_record n central_bytes offset in
      let (length_last, signature, count) = end_record-fields n central_bytes offset h in
      let size : length (central ++ last) ≡ length central + 22 =
        omega (arith, length-append central last) in
      let within : leb (2 ^ 20) (length central + 22) ≡ false = ground arith in
      let enough : ltb (length central + 22) 22 ≡ false = ground arith in
      let at : length central + 22 - 22 ≡ length central = omega arith in
      let same : (n == n) ≡ true = ground arith in
      rw
        (
          size,
          within,
          enough,
          at,
          end_at (length central) 0 4 central last (omega arith),
          signature,
          end_at (length central + 10) 10 2 central last refl,
          count,
          same,
        )
        refl

  -- The directory and the end record, after all the entries.
  reads_end :
      (e : ZipEntryInput) (entries : List ZipEntryInput) (central : List ℕ)
      (n central_bytes offset : ℕ) (check_crc : Bool)
      → IsDirectory (e ∷ entries) central
      → n < 256 ^ 2
      → length central + 22 < 2 ^ 20
      → unzip
          (flat_calls decode inflate_whole)
          1
          (flat (central ++ end_record n central_bytes offset) n check_crc)
        ≡ ok (some [])
  unfolding unzip IsDirectory
  reads_end e entries central n central_bytes offset check_crc (f, at, more, here) h small =
      let last : List ℕ = end_record n central_bytes offset in
      let over : flat_next decode (flat (central ++ last) n check_crc)
          ≡ ok (none, flat (central ++ last) n check_crc) =
        rw (here, append_assoc (header central_signature f at) more last)
          (flat_next-central decode f at (more ++ last) n check_crc) in
      rw (over, flat_finish-end_record central n central_bytes offset check_crc h small) refl

  file_parts :
      (body central body' central' last file : List ℕ)
      → body ++ (central ++ last) ≡ file
      → body ≡ body'
      → central ≡ central'
      → file ≡ body' ++ (central' ++ last)
  file_parts body central body' central' last file h b c = cc

  -- A zip of one entry or more, which the writer wrote, is read to their names and contents, in their
  -- order, and ends where it should, however the stream cuts it and whether or not checksums are checked:
  -- when each name comes back from its bytes, of which there are fewer than 65,536, the entries are fewer
  -- than 65,536, the directory with its end is below 1 MiB, and the decompressor undoes the compressor.
  pub unzip-write_zip :
      (inflater : Inflater) (does : IsInflater inflater inflate_whole) (e : ZipEntryInput)
      (entries : List ZipEntryInput) (file : List ℕ) (chunks : List (List ℕ)) (check_crc : Bool)
      → All IsNamed (e ∷ entries)
      → length (e ∷ entries) < 256 ^ 2
      → directory_size encode (e ∷ entries) + 22 < 2 ^ 20
      → write_zip encode deflate_raw (e ∷ entries) ≡ ok file
      → join_chunks chunks ≡ file
      → unzip
          (stream_calls decode inflater)
          (suc (length (e ∷ entries)))
          (new_zip_reader chunks check_crc)
        ≡ ok (some (contents (e ∷ entries)))
  unfolding write_zip Reads
  unzip-write_zip inflater does e entries file chunks check_crc named few small h joined =
      let start : Written = record { body = []; central = []; offset = 0 } in
      let (w, wrote, whole) =
        >>=-eq-ok (write_entries encode deflate_raw (e ∷ entries) start) _ h in
      let b : Body (e ∷ entries) start w = write_entries-Body (e ∷ entries) start w wrote named in
      let count : ℕ = length (e ∷ entries) in
      let last : List ℕ = end_record count (length w.central) w.offset in
      let made : w.body ++ (w.central ++ last) ≡ file = cc in
      let parts : join_chunks chunks ≡ b.body ++ (b.central ++ last) =
        joined
        ∙ file_parts w.body w.central b.body b.central last file made b.body_after
            b.central_after in
      let counted : 0 + count ≡ count = omega arith in
      let size : length b.central + 22 < 2 ^ 20 = omega (arith, b.size) in
      let flat_reads =
        ap (λ t. unzip (flat_calls decode inflate_whole) (suc count) (flat t 0 check_crc)) parts
        ∙ b.reads (b.central ++ last) 0 check_crc (
            rw counted (
              reads_end e entries b.central count (length w.central) w.offset check_crc b.directory
                few size)) in
      success-ok
        (unzip (stream_calls decode inflater) (suc count) (new_zip_reader chunks check_crc))
        (some (contents (e ∷ entries)))
        (unzip-flat inflater inflate_whole does decode (suc count) (new_zip_reader chunks check_crc)
          ∙ ap success flat_reads)
