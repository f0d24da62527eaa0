-- ===== src/SnapshotZip/Trip/Entry.antt =====
-- An entry as it is written is read to its contents.
use yurt_playground.Base.{
  ℕ, ◌+◌, ◌^◌, ◌<◌, ◌≡◌, refl, sym, ◌∙◌, inl, inr, Bool, true, false, not, ◌&&◌, ◌||◌, List, [],
  ◌∷◌, ◌++◌, some, Text, ok, ltb, leb, ◌==◌, length, arith, Bool-cases, length-append,
}
use yurt_playground.SnapshotZip.{
  ZipEntryInput, local_signature, central_signature, limit, join_chunks,
}
use yurt_playground.SnapshotZip.Crc.{crc32}
use yurt_playground.SnapshotZip.Crc.Chunks.{crc32-append, crc32-lt, crc32_nil}
use yurt_playground.SnapshotZip.Header.{header}
use yurt_playground.SnapshotZip.Header.Fields.{IsWritable}
use yurt_playground.SnapshotZip.Writer.{
  Written, sizes, crcs, stream_of, data_of, fields_of, write_entry,
}
use yurt_playground.SnapshotZip.Writer.Ranges.{join_chunks-stream_of}
use yurt_playground.SnapshotZip.Reader.Flat.{flat_inflated, sized, flat_read_entry, flat_read}
use yurt_playground.SnapshotZip.Reader.Contents.{InflateWhole}
use yurt_playground.SnapshotZip.Trip.{flat, flat_copy-append, entry_read}

sizes-join_chunks :
    (n : ℕ) (chunks : List (List ℕ)) → sizes n chunks ≡ n + length (join_chunks chunks)
sizes-join_chunks n [] = omega arith
sizes-join_chunks n (chunk ∷ chunks) =
    omega
      (arith, sizes-join_chunks (n + length chunk) chunks, length-append chunk (join_chunks chunks))

crcs-join_chunks :
    (crc : ℕ) (chunks : List (List ℕ))
    → crc < 2 ^ 32
    → crcs crc chunks ≡ crc32 (join_chunks chunks) crc
unfolding crcs
crcs-join_chunks crc [] h = sym (crc32_nil crc h)
crcs-join_chunks crc (chunk ∷ chunks) h =
    crcs-join_chunks (crc32 chunk crc) chunks (crc32-lt chunk crc)
    ∙ sym (crc32-append chunk (join_chunks chunks) crc)

-- What the platform's codecs do: text comes back from its bytes, and what is deflated inflates.
pub record Codecs : Type 0 where
  pub encode : Text → List ℕ
  pub decode : List ℕ → Text
  pub deflate_raw : List (List ℕ) → List ℕ
  pub inflate_whole : InflateWhole
  pub inflates_back :
      (chunks : List (List ℕ)) → inflate_whole (deflate_raw chunks) ≡ some (join_chunks chunks)

module _ (codecs : Codecs) where
  open codecs use {encode, decode, deflate_raw, inflate_whole, inflates_back}

  -- What a written entry satisfies: its sizes are below the limit, and its bytes are in place.
  pub write_entry-ok :
      (e : ZipEntryInput) (w w' : Written)
      → write_entry encode deflate_raw e w ≡ ok w'
      → (sizes 0 e.bytes < limit)
        × (length (data_of encode deflate_raw e) < limit)
        × (w'.body
            ≡ w.body
              ++ (header local_signature (fields_of encode deflate_raw e) w.offset
                  ++ data_of encode deflate_raw e))
        × (w'.central
            ≡ w.central ++ header central_signature (fields_of encode deflate_raw e) w.offset)
  unfolding write_entry
  write_entry-ok e w w' h =
      let data_size : ℕ = length (data_of encode deflate_raw e) in
      let end : ℕ =
        w.offset
        + (length (header local_signature (fields_of encode deflate_raw e) w.offset) + data_size) in
      elim (Bool-cases (leb limit (sizes 0 e.bytes) || leb limit data_size)) [
        | inl a ↦ let h' = rw a at h in cc
        | inr a ↦
            let h' = rw a at h in
            elim (Bool-cases (leb limit end)) [
              | inl b ↦ let h'' = rw b at h' in cc
              | inr b ↦ let h'' = rw b at h' in (ground arith, ground arith, cc, cc)
            ]
      ]

  pub fields_of-IsWritable :
      (e : ZipEntryInput)
      → sizes 0 e.bytes < limit
      → length (data_of encode deflate_raw e) < limit
      → length (encode e.name) < 256 ^ 2
      → IsWritable (fields_of encode deflate_raw e)
  unfolding fields_of
  fields_of-IsWritable e small short named = record {
    known_method = elim (Bool-cases (e.deflate)) [
      | inl d ↦ rw d (inr refl)
      | inr d ↦ rw d (inl refl)
    ];
    crc_fits = rw (crcs-join_chunks 0 e.bytes (omega arith)) (crc32-lt (join_chunks e.bytes) 0);
    compressed_fits = omega arith;
    size_fits = omega arith;
    name_fits = named;
  }

  -- What flat_read checks of an entry that is read with the contents that were written.
  checks_crc :
      (e : ZipEntryInput) (check_crc : Bool)
      → (check_crc && not (crc32 (join_chunks e.bytes) 0 == crcs 0 e.bytes)) ≡ false
  checks_crc e check_crc =
      let same = crcs-join_chunks 0 e.bytes (omega arith) in
      let equal : (crc32 (join_chunks e.bytes) 0 == crc32 (join_chunks e.bytes) 0) ≡ true =
        ground arith in
      rw (same, equal) (elim (Bool-cases check_crc) [ inl c ↦ rw c refl | inr c ↦ rw c refl ])

  size_equal : (e : ZipEntryInput) → (length (join_chunks e.bytes) == sizes 0 e.bytes) ≡ true
  size_equal e = ground (arith, sizes-join_chunks 0 e.bytes)

  size_within : (e : ZipEntryInput) → ltb (sizes 0 e.bytes) (length (join_chunks e.bytes)) ≡ false
  size_within e = ground (arith, sizes-join_chunks 0 e.bytes)

  -- An entry's data is read to its contents.
  pub flat_read-data_of :
      (e : ZipEntryInput) (more : List ℕ) (entries : ℕ) (check_crc : Bool)
      → flat_read inflate_whole
          (entry_read decode (fields_of encode deflate_raw e))
          (flat (data_of encode deflate_raw e ++ more) entries check_crc)
        ≡ ok (join_chunks e.bytes, flat more entries check_crc)
  unfolding flat_read flat_read_entry flat_inflated sized fields_of data_of
  flat_read-data_of e more entries check_crc = elim (Bool-cases (e.deflate)) [
    | inl d ↦
        let part =
          flat_copy-append (length (deflate_raw (stream_of e.bytes))) (decode (encode e.name))
            (deflate_raw (stream_of e.bytes)) more entries check_crc refl in
        rw
          (
            d,
            part,
            inflates_back (stream_of e.bytes),
            join_chunks-stream_of e.bytes,
            size_within e,
            size_equal e,
            checks_crc e check_crc,
          )
          refl
    | inr d ↦
        let part =
          flat_copy-append (length (join_chunks e.bytes)) (decode (encode e.name))
            (join_chunks e.bytes) more entries check_crc refl in
        rw (d, size_equal e, part, checks_crc e check_crc) refl
  ]
