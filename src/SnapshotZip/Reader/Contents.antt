-- ===== src/SnapshotZip/Reader/Contents.antt =====
-- An entry's contents, read from a stream cut anyhow, are those of the whole of the bytes.
use yurt_playground.Base.{
  ℕ, ◌+◌, ◌^◌, ◌≤◌, ◌<◌, ◌≡◌, refl, sym, ap, ◌∙◌, inl, inr, Bool, true, not, ◌&&◌, List, [], ◌∷◌,
  ◌++◌, Option, none, some, Text, Outcome, ok, err, ◌>>=◌, success, success-ok, success-err, ltb,
  ◌==◌, if◌then◌else◌, length, length-append, arith, Bool-cases, Option-cases, Outcome-cases,
}
use yurt_playground.SnapshotZip.{
  ZipEntry, ZipError, inflates_past, inflates_to, wrong_crc, stored, join_chunks,
}
use yurt_playground.SnapshotZip.Crc.{crc32}
use yurt_playground.SnapshotZip.Crc.Chunks.{crc32-append, crc32-lt, crc32_nil}
use yurt_playground.SnapshotZip.Reader.{
  ZipStreamReader, Given, chunks_of, crc_of, give_inflated, inflated, read_entry, read, copy, fed,
  Inflater, deflated_entry, inflated_entry,
}
use yurt_playground.SnapshotZip.Reader.Flat.{
  flat_of, flat_inflated, sized, flat_read_entry, flat_read,
}
use yurt_playground.SnapshotZip.Reader.Copy.{view_given, copy-flat}

-- The chunks' checksum, one after another, is that of their bytes.
crc_of-crc32 :
    (crc : ℕ) (given : List Given)
    → crc < 2 ^ 32
    → crc_of crc given ≡ crc32 (join_chunks (chunks_of given)) crc
unfolding crc_of chunks_of
crc_of-crc32 crc [] h = sym (crc32_nil crc h)
crc_of-crc32 crc (given ∷ more) h =
    let c : List ℕ = given.chunk in
    let rest : List ℕ = join_chunks (chunks_of more) in
    crc_of-crc32 (crc32 c crc) more (crc32-lt c crc) ∙ sym (crc32-append c rest crc)

abbrev as_bytes : Outcome ZipError (List Given) → Outcome ZipError (List ℕ)
as_bytes (err thrown) = err thrown
as_bytes (ok given) = ok (join_chunks (chunks_of given))

sized_from : ℕ → Text → ℕ → List ℕ → Outcome ZipError (List ℕ)
sized_from at name size bytes =
    if ltb size (at + length bytes)
    then err (inflates_past name size)
    else if at + length bytes == size
    then ok bytes
    else err (inflates_to name (at + length bytes) size)

as_bytes-give :
    (at : ℕ) (value : List ℕ) (m : Outcome ZipError (List Given))
    → as_bytes (m >>= (λ given. ok (record { chunk = value; offset = at } ∷ given)))
      ≡ (as_bytes m >>= (λ bytes. ok (value ++ bytes)))
unfolding chunks_of
as_bytes-give at value (err thrown) = refl
as_bytes-give at value (ok given) = refl

-- A chunk within the size leaves the rest of the contents to be within it.
sized_from-append :
    (at : ℕ) (name : Text) (size : ℕ) (value rest : List ℕ)
    → (sized_from (at + length value) name size rest >>= (λ bytes. ok (value ++ bytes)))
      ≡ sized_from at name size (value ++ rest)
unfolding sized_from
sized_from-append at name size value rest =
    let e : at + length (value ++ rest) ≡ at + length value + length rest =
      omega (arith, length-append value rest) in
    let n : ℕ = at + length value + length rest in
    elim (Bool-cases (ltb size n)) [
      | inl a ↦ rw (e, a) refl
      | inr a ↦ elim (Bool-cases (n == size)) [
        | inl b ↦ rw (e, a, b) refl
        | inr b ↦ rw (e, a, b) refl
      ]
    ]

give_inflated-flat :
    (name : Text) (size at : ℕ) (values : List (List ℕ))
    → at ≤ size
    → as_bytes (give_inflated name size at values) ≡ sized_from at name size (join_chunks values)
unfolding give_inflated sized_from chunks_of
give_inflated-flat name size at [] h = ground arith
give_inflated-flat name size at (value ∷ values) h =
    elim (Bool-cases (ltb size (at + length value))) [
      | inl a ↦
          let b : ltb size (at + length (value ++ join_chunks values)) ≡ true =
            ground (arith, length-append value (join_chunks values)) in
          rw (a, b) refl
      | inr a ↦ rw a (
          as_bytes-give at value _
          ∙ (ap (λ m. m >>= (λ bytes. ok (value ++ bytes)))
                (give_inflated-flat name size (at + length value) values (ground arith))
              ∙ sized_from-append at name size value (join_chunks values)))
    ]

abbrev pub InflateWhole : Type 0
InflateWhole = List ℕ → Option (List ℕ)

-- What the stream decompressor does: its output, as a run of bytes, depends on its input as a run of
-- bytes.
pub record IsInflater (inflater : Inflater) (inflate_whole : InflateWhole) : Type 0 where
  pub fails :
      (chunks : List (List ℕ))
      → inflater.inflate chunks ≡ none
      → inflate_whole (join_chunks chunks) ≡ none
  pub inflates :
      (chunks values : List (List ℕ))
      → inflater.inflate chunks ≡ some values
      → inflate_whole (join_chunks chunks) ≡ some (join_chunks values)

sized_from_zero :
    (name : Text) (size : ℕ) (bytes : List ℕ) → sized_from 0 name size bytes ≡ sized name size bytes
unfolding sized_from sized
sized_from_zero name size bytes = let e : 0 + length bytes ≡ length bytes = omega arith in rw e refl

inflated-flat :
    (entry : ZipEntry) (r : ZipStreamReader) (values : List (List ℕ))
    → view_given (inflated entry r values)
      ≡ flat_inflated entry (flat_of r) (some (join_chunks values))
unfolding inflated flat_inflated
inflated-flat entry r values =
    with_reader (give_inflated entry.name entry.size 0 values)
    ∙ ap (λ m. m >>= (λ contents. ok (contents, flat_of r)))
        (give_inflated-flat entry.name entry.size 0 values (omega arith)
          ∙ sized_from_zero entry.name entry.size (join_chunks values))
  where
    with_reader :
        (m : Outcome ZipError (List Given))
        → view_given (m >>= (λ given. ok (given, r)))
          ≡ (as_bytes m >>= (λ contents. ok (contents, flat_of r)))
    with_reader (err thrown) = refl
    with_reader (ok given) = refl

module _ (inflater : Inflater) (inflate_whole : InflateWhole)
    (does : IsInflater inflater inflate_whole) where
  -- An entry that is cut or corrupt throws; which error is thrown is not said here.
  deflated_entry-flat :
      (entry : ZipEntry) (written : List (List ℕ))
      (m : Outcome ZipError (List Given × ZipStreamReader))
      → success (view_given (deflated_entry inflater entry written m))
        ≡ success
            (view_given m >>= (λ copied. flat_inflated entry copied.1 (inflate_whole copied.0)))
  unfolding deflated_entry inflated_entry flat_inflated
  deflated_entry-flat entry written (err thrown) = refl
  deflated_entry-flat entry written (ok (given, r)) =
      elim (Option-cases (inflater.inflate (chunks_of given))) [
        | inl fails ↦ rw (fails, does.fails (chunks_of given) fails) refl
        | inr (values, gives) ↦
            rw (gives, does.inflates (chunks_of given) values gives)
              (ap success (inflated-flat entry r values))
      ]

  read_entry-flat :
      (entry : ZipEntry) (r : ZipStreamReader)
      → success (view_given (read_entry inflater entry r))
        ≡ success (flat_read_entry inflate_whole entry (flat_of r))
  unfolding read_entry flat_read_entry
  read_entry-flat entry r = elim (Bool-cases (entry.method == stored)) [
    | inl a ↦ elim (Bool-cases (entry.compressed == entry.size)) [
      | inl b ↦ rw (a, b) (ap success (copy-flat entry.compressed entry.name r))
      | inr b ↦ rw (a, b) refl
    ]
    | inr a ↦ rw a (
        deflated_entry-flat entry (fed entry.compressed entry.name r)
          (copy entry.compressed entry.name r)
        ∙ ap
            (λ m. success (m >>= (λ copied. flat_inflated entry copied.1 (inflate_whole copied.0))))
            (copy-flat entry.compressed entry.name r))
  ]

  checked :
      (entry : ZipEntry) (check_crc : Bool) (sum : ℕ) (done : List Given × ZipStreamReader)
      → view_given (
          if check_crc && not (sum == entry.crc)
          then err (wrong_crc entry.name sum entry.crc)
          else ok done)
        ≡ (if check_crc && not (sum == entry.crc)
            then err (wrong_crc entry.name sum entry.crc)
            else ok (join_chunks (chunks_of done.0), flat_of done.1))
  checked entry check_crc sum done = elim (Bool-cases (check_crc && not (sum == entry.crc))) [
    | inl e ↦ rw e refl
    | inr e ↦ rw e refl
  ]

  -- The call `read` gives the entry's contents, with its checksum as it is checked, or throws.
  pub read-flat :
      (entry : ZipEntry) (r : ZipStreamReader)
      → success (view_given (read inflater entry r))
        ≡ success (flat_read inflate_whole entry (flat_of r))
  unfolding read flat_read
  read-flat entry r = elim (Outcome-cases (read_entry inflater entry r)) [
    | inl (thrown, e) ↦
        let (other, g) =
          success-err (flat_read_entry inflate_whole entry (flat_of r))
            (sym (read_entry-flat entry r) ∙ ap (λ m. success (view_given m)) e) in
        rw (e, g) refl
    | inr (done, e) ↦
        let g =
          success-ok (flat_read_entry inflate_whole entry (flat_of r))
            (join_chunks (chunks_of done.0), flat_of done.1)
            (sym (read_entry-flat entry r) ∙ ap (λ m. success (view_given m)) e) in
        let sum : crc_of 0 done.0 ≡ crc32 (join_chunks (chunks_of done.0)) 0 =
          crc_of-crc32 0 done.0 (omega arith) in
        rw (e, g, sum)
          (ap success (checked entry r.check_crc (crc32 (join_chunks (chunks_of done.0)) 0) done))
  ]
