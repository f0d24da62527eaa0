-- ===== src/SnapshotZip/Trip.antt =====
-- A zip that the writer wrote is read back, from a stream cut anyhow, to the entries it was written of.
pub mod Entry
pub mod File
use yurt_playground.Base.{
  ℕ, ◌+◌, ◌-◌, ◌^◌, ◌<◌, ◌≡◌, refl, ap, ◌∙◌, inl, inr, Bool, true, false, List, [], ◌∷◌, ◌++◌,
  Option, none, some, Text, chars, Outcome, ok, err, ◌>>=◌, ltb, if◌then◌else◌, length, take, drop,
  arith, length-append, take-append_eq, drop-append_add, append_assoc,
}
use yurt_playground.SnapshotZip.{ZipEntry, ZipError, local_signature, central_signature}
use yurt_playground.SnapshotZip.Header.{HeaderFields, header}
use yurt_playground.SnapshotZip.Header.Fields.{
  IsWritable, fixed_part, header-fixed_part, length-fixed_part, fixed_part-fields, header-central,
}
use yurt_playground.SnapshotZip.Reader.{get_u16, get_u32, check_local, entry_of}
use yurt_playground.SnapshotZip.Reader.Flat.{
  Flat, flat_take, flat_copy, flat_part, flat_next, flat_next_entry,
}

abbrev pub flat : List ℕ → ℕ → Bool → Flat
flat bytes entries check_crc = record { bytes = bytes; entries = entries; check_crc = check_crc }

flat_part-append :
    (thrown : ZipError) (n : ℕ) (front back : List ℕ) (entries : ℕ) (check_crc : Bool)
    → n ≡ length front
    → flat_part thrown n (flat (front ++ back) entries check_crc)
      ≡ ok (front, flat back entries check_crc)
flat_part-append thrown n front back entries check_crc e =
    let enough : ltb (length (front ++ back)) n ≡ false =
      ground (arith, length-append front back) in
    rw (enough, take-append_eq n front back e, drop-append_add n front back 0 (omega arith)) refl

flat_take-append :
    (n : ℕ) (what : Text) (front back : List ℕ) (entries : ℕ) (check_crc : Bool)
    → n ≡ length front
    → flat_take n what (flat (front ++ back) entries check_crc)
      ≡ ok (front, flat back entries check_crc)
unfolding flat_take
flat_take-append n what front back entries check_crc e =
    flat_part-append _ n front back entries check_crc e

pub flat_copy-append :
    (n : ℕ) (what : Text) (front back : List ℕ) (entries : ℕ) (check_crc : Bool)
    → n ≡ length front
    → flat_copy n what (flat (front ++ back) entries check_crc)
      ≡ ok (front, flat back entries check_crc)
unfolding flat_copy
flat_copy-append n what front back entries check_crc e =
    flat_part-append _ n front back entries check_crc e

abbrev pub entry_read : (List ℕ → Text) → HeaderFields → ZipEntry
entry_read decode f = record {
  name = decode f.name;
  crc = f.crc;
  size = f.size;
  compressed = f.compressed;
  method = f.method;
}

module _ (decode : List ℕ → Text) where
  -- A local header is read to its entry.
  pub flat_next-header :
      (f : HeaderFields) (offset : ℕ) (more : List ℕ) (entries : ℕ) (check_crc : Bool)
      → IsWritable f
      → flat_next decode (flat (header local_signature f offset ++ more) entries check_crc)
        ≡ ok (some (entry_read decode f), flat more (entries + 1) check_crc)
  unfolding flat_next flat_next_entry entry_of
  flat_next-header f offset more entries check_crc w =
      let (signature, method, crc, compressed, size, name_length, extra, flags) =
        fixed_part-fields f w in
      let first =
        flat_take-append 30 (chars "a zip entry header") (fixed_part f) (f.name ++ more) entries
          check_crc (omega (arith, length-fixed_part f)) in
      let second =
        flat_take-append (length f.name) (chars "a zip entry name") f.name more entries check_crc
          refl in
      let third = flat_take-append 0 (chars "a zip entry header") [] more entries check_crc refl in
      rw
        (
          header-fixed_part f offset,
          append_assoc (fixed_part f) f.name more,
          first,
          signature,
          flags,
          method,
          name_length,
          second,
          extra,
          third,
          crc,
          compressed,
          size,
        )
        (elim (w.known_method) [ inl e ↦ rw e refl | inr e ↦ rw e refl ])

  -- The directory ends the entries, and is left to be read.
  pub flat_next-central :
      (f : HeaderFields) (offset : ℕ) (more : List ℕ) (entries : ℕ) (check_crc : Bool)
      → flat_next decode (flat (header central_signature f offset ++ more) entries check_crc)
        ≡ ok (none, flat (header central_signature f offset ++ more) entries check_crc)
  unfolding flat_next flat_next_entry flat_take
  flat_next-central f offset more entries check_crc =
      let (signature, whole, long) = header-central f offset more in
      let enough : ltb (length (header central_signature f offset ++ more)) 30 ≡ false =
        ground arith in
      rw (enough, signature) (ap (λ t. ok (none, flat t entries check_crc)) whole)
