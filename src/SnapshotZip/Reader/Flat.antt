-- ===== src/SnapshotZip/Reader/Flat.antt =====
-- What a zip reader promises, on the whole of the bytes still to come: no chunks, no buffer.
use yurt_playground.Base.{
  ℕ, ◌+◌, ◌^◌, Bool, not, ◌&&◌, List, [], ◌++◌, Option, none, some, Text, chars, Outcome, ok, err,
  ◌>>=◌, ◌>>◌, ltb, leb, ◌==◌, if◌then◌else◌, length, take, drop,
}
use yurt_playground.SnapshotZip.{
  ZipEntry, ZipError, truncated_in, truncated_of, stored_but_resized, corrupt, inflates_past,
  inflates_to, wrong_crc, runs_on, central_signature, stored, join_chunks,
}
use yurt_playground.SnapshotZip.Crc.{crc32}
use yurt_playground.SnapshotZip.Reader.{
  ZipStreamReader, get_u16, get_u32, check_local, entry_of, check_end,
}

pub record Flat : Type 0 where
  pub bytes : List ℕ
  pub entries : ℕ
  pub check_crc : Bool

abbrev pub rest_bytes : Option (List ℕ) → List ℕ
rest_bytes none = []
rest_bytes (some rest) = rest

abbrev pub all_bytes : ZipStreamReader → List ℕ
all_bytes r = r.pending ++ (rest_bytes r.rest ++ join_chunks r.coming)

abbrev pub flat_of : ZipStreamReader → Flat
flat_of r = record { bytes = all_bytes r; entries = r.entries; check_crc = r.check_crc }

abbrev pub flat_part : ZipError → ℕ → Flat → Outcome ZipError (List ℕ × Flat)
flat_part thrown n f =
    if ltb (length f.bytes) n
    then err thrown
    else ok (take n f.bytes, record f { bytes = drop n f.bytes })

unfoldable pub flat_take : ℕ → Text → Flat → Outcome ZipError (List ℕ × Flat)
flat_take n what f = flat_part (truncated_in what) n f

unfoldable pub flat_copy : ℕ → Text → Flat → Outcome ZipError (List ℕ × Flat)
flat_copy n what f = flat_part (truncated_of (length f.bytes) n what) n f

module _ (decode : List ℕ → Text) where
  unfoldable pub flat_next_entry : List ℕ × Flat → Outcome ZipError (Option ZipEntry × Flat)
  unfolding flat_take check_local entry_of
  flat_next_entry (fixed, f) =
      if get_u32 0 fixed == central_signature
      then ok (none, record f { bytes = fixed ++ f.bytes })
      else (check_local fixed
          >> (flat_take (get_u16 26 fixed) (chars "a zip entry name") f >>= (λ named.
              flat_take (get_u16 28 fixed) (chars "a zip entry header") named.1 >>= (λ extra. ok (
                some (entry_of decode fixed named.0),
                record (extra.1) { entries = extra.1.entries + 1 },
              )))))

  unfoldable pub flat_next : Flat → Outcome ZipError (Option ZipEntry × Flat)
  unfolding flat_next_entry flat_take
  flat_next f = flat_take 30 (chars "a zip entry header") f >>= flat_next_entry

unfoldable pub sized : Text → ℕ → List ℕ → Outcome ZipError (List ℕ)
sized name size bytes =
    if ltb size (length bytes)
    then err (inflates_past name size)
    else if length bytes == size
    then ok bytes
    else err (inflates_to name (length bytes) size)

unfoldable pub flat_inflated : ZipEntry → Flat → Option (List ℕ) → Outcome ZipError (List ℕ × Flat)
unfolding sized
flat_inflated entry f none = err (corrupt entry.name)
flat_inflated entry f (some bytes) =
    sized entry.name entry.size bytes >>= (λ contents. ok (contents, f))

-- `inflate_whole`: what a deflated entry's bytes stand for.
module _ (inflate_whole : List ℕ → Option (List ℕ)) where
  unfoldable pub flat_read_entry : ZipEntry → Flat → Outcome ZipError (List ℕ × Flat)
  flat_read_entry entry f =
      if entry.method == stored
      then (if not (entry.compressed == entry.size)
          then err (stored_but_resized entry.name)
          else flat_copy entry.compressed entry.name f)
      else (flat_copy entry.compressed entry.name f
          >>= (λ copied. flat_inflated entry copied.1 (inflate_whole copied.0)))

  unfoldable pub flat_read : ZipEntry → Flat → Outcome ZipError (List ℕ × Flat)
  unfolding flat_read_entry
  flat_read entry f = flat_read_entry entry f >>= (λ done.
      if f.check_crc && not (crc32 done.0 0 == entry.crc)
      then err (wrong_crc entry.name (crc32 done.0 0) entry.crc)
      else ok done)

unfoldable pub flat_finish : Flat → Outcome ZipError (Unit {0})
unfolding check_end
flat_finish f = if leb (2 ^ 20) (length f.bytes) then err runs_on else check_end f.entries f.bytes
