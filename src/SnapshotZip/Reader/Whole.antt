-- ===== src/SnapshotZip/Reader/Whole.antt =====
-- src/snapshot_zip.ts: readWhole. The chunks of an entry are given one after another, and fill its buffer.
use yurt_playground.Base.{
  ℕ, zero, suc, ◌+◌, ◌-◌, ◌≡◌, refl, sym, ap, subst, ◌∙◌, inl, inr, false, not, ◌&&◌, List, [], ◌∷◌,
  ◌++◌, Option, none, some, Text, Outcome, ok, err, >>=-eq-ok, success, success-ok, success-err,
  ltb, leb, ◌==◌, if◌then◌else◌, length, length-append, length-take, length-drop, take, drop,
  take_all, take-append_eq, replicate, append_assoc, append-nil, arith, Bool-cases, Option-cases,
  Outcome-cases, min,
}
use yurt_playground.SnapshotZip.{ZipEntry, ZipError, over_bytes, stored, join_chunks}
use yurt_playground.SnapshotZip.Crc.{crc32}
use yurt_playground.SnapshotZip.Reader.{
  ZipStreamReader, Given, Inflater, chunks_of, give_inflated, inflated, read_entry, read, copy,
  copy_rounds, deflated_entry, inflated_entry, refill, give_chunk, set_all, read_whole, crc_of,
  chunks_left, fed,
}
use yurt_playground.SnapshotZip.Reader.Flat.{
  Flat, flat_of, flat_copy, flat_inflated, sized, flat_read_entry, flat_read,
}
use yurt_playground.SnapshotZip.Reader.Copy.{view_given}
use yurt_playground.SnapshotZip.Reader.Contents.{InflateWhole, IsInflater, read-flat}

-- Each chunk is given at the offset where the one before it ended.
abbrev Tiles : ℕ → List Given → Type 0
Tiles at [] = Unit
Tiles at (given ∷ more) = (given.offset ≡ at) × Tiles (at + length given.chunk) more

abbrev bytes_of : List Given → List ℕ
bytes_of given = join_chunks (chunks_of given)

give_inflated-Tiles :
    (name : Text) (size at : ℕ) (values : List (List ℕ)) (given : List Given)
    → give_inflated name size at values ≡ ok given
    → Tiles at given
unfolding give_inflated
give_inflated-Tiles name size at [] given h = elim (Bool-cases (at == size)) [
  | inl e ↦ let h' = rw e at h in let same : [] ≡ given = cc in subst (Tiles at) same tt
  | inr e ↦ let h' = rw e at h in cc
]
give_inflated-Tiles name size at (value ∷ values) given h =
    elim (Bool-cases (ltb size (at + length value))) [
      | inl e ↦ let h' = rw e at h in cc
      | inr e ↦
          let h' = rw e at h in
          let (more, a, b) = >>=-eq-ok (give_inflated name size (at + length value) values) _ h' in
          let same : record { chunk = value; offset = at } ∷ more ≡ given = cc in
          subst (Tiles at) same
            (refl, give_inflated-Tiles name size (at + length value) values more a)
    ]

copy_rounds-Tiles :
    (rounds bytes : ℕ) (what : Text) (had : ℕ) (r : ZipStreamReader)
    (done : List Given × ZipStreamReader)
    → copy_rounds rounds bytes what had r ≡ ok done
    → Tiles had done.0
unfolding copy_rounds give_chunk
copy_rounds-Tiles zero bytes what had r done h =
    let same : [] ≡ done.0 = cc in subst (Tiles had) same tt
copy_rounds-Tiles (suc rounds) bytes what had r done h = elim (Bool-cases (leb bytes had)) [
  | inl e ↦ let h' = rw e at h in let same : [] ≡ done.0 = cc in subst (Tiles had) same tt
  | inr e ↦
      let h' = rw e at h in
      let (r', a, h1) = >>=-eq-ok (refill _ r) _ h' in
      let chunk = take (min (bytes - had) (length r'.pending)) r'.pending in
      let (more, b, h2) =
        >>=-eq-ok
          (copy_rounds rounds bytes what (had + length chunk)
            (record r' { pending = drop (length chunk) r'.pending }))
          _ h1 in
      let same : record { chunk = chunk; offset = had } ∷ more.0 ≡ done.0 = cc in
      subst (Tiles had) same
        (refl, copy_rounds-Tiles rounds bytes what (had + length chunk) _ more b)
]

length-replicate : (n a : ℕ) → length (replicate n a) ≡ n
length-replicate zero a = refl
length-replicate (suc n) a = omega (arith, length-replicate n a)

-- The buffer keeps what was set before the offset, and takes the chunks from there on.
set_all-Tiles :
    (given : List Given) (at : ℕ) (out : List ℕ)
    → Tiles at given
    → at + length (bytes_of given) ≡ length out
    → set_all given out ≡ ok (take at out ++ bytes_of given)
unfolding set_all chunks_of
set_all-Tiles [] at out h e =
    let whole : take at out ≡ out = take_all at out (omega arith) in
    ap (λ t. ok t) (sym whole ∙ sym (append-nil (take at out)))
set_all-Tiles (g ∷ more) at out (here, h) e =
    let c : List ℕ = g.chunk in
    let after : ℕ = at + length c in
    let out' : List ℕ = take at out ++ (c ++ drop after out) in
    let parts : length (c ++ bytes_of more) ≡ length c + length (bytes_of more) =
      length-append c (bytes_of more) in
    let front : length (take at out) ≡ at = omega (arith, length-take at out) in
    let fits : ltb (length out) after ≡ false = ground arith in
    let size : after + length (bytes_of more) ≡ length out' = omega (
      arith,
      length-append (take at out) (c ++ drop after out),
      length-append c (drop after out),
      length-drop after out,
    ) in
    let set : take after out' ≡ take at out ++ c =
      ap (take after) (sym (append_assoc (take at out) c (drop after out)))
      ∙ take-append_eq after (take at out ++ c) (drop after out)
          (omega (arith, length-append (take at out) c)) in
    let rest = set_all-Tiles more after out' h size in
    rw (here, fits, rest, set, append_assoc (take at out) c (bytes_of more)) refl

flat_copy-length :
    (n : ℕ) (what : Text) (f : Flat) (done : List ℕ × Flat)
    → flat_copy n what f ≡ ok done
    → length done.0 ≡ n
unfolding flat_copy
flat_copy-length n what f done h = elim (Bool-cases (ltb (length f.bytes) n)) [
  | inl e ↦ let h' = rw e at h in cc
  | inr e ↦
      let h' = rw e at h in
      let same : take n f.bytes ≡ done.0 = cc in
      ap length (sym same) ∙ ground (arith, length-take n f.bytes)
]

sized-length :
    (name : Text) (size : ℕ) (bytes contents : List ℕ)
    → sized name size bytes ≡ ok contents
    → length contents ≡ size
unfolding sized
sized-length name size bytes contents h = elim (Bool-cases (ltb size (length bytes))) [
  | inl e ↦ let h' = rw e at h in cc
  | inr e ↦ elim (Bool-cases (length bytes == size)) [
    | inl s ↦
        let h' = rw (e, s) at h in
        let same : bytes ≡ contents = cc in ap length (sym same) ∙ ground arith
    | inr s ↦ let h' = rw (e, s) at h in cc
  ]
]

-- The contents of an entry whole, of the whole of the bytes.
unfoldable pub flat_read_whole :
    InflateWhole → ZipEntry → ℕ → Flat → Outcome ZipError (List ℕ × Flat)
flat_read_whole inflate_whole entry max_bytes f =
    if ltb max_bytes entry.size
    then err (over_bytes entry.name max_bytes)
    else flat_read inflate_whole entry f

abbrev pub view_whole :
    Outcome ZipError (List ℕ × ZipStreamReader) → Outcome ZipError (List ℕ × Flat)
view_whole (err thrown) = err thrown
view_whole (ok (bytes, r)) = ok (bytes, flat_of r)

flat_inflated-length :
    (entry : ZipEntry) (f : Flat) (m : Option (List ℕ)) (found : List ℕ × Flat)
    → flat_inflated entry f m ≡ ok found
    → length found.0 ≡ entry.size
unfolding flat_inflated
flat_inflated-length entry f none found h = cc
flat_inflated-length entry f (some bytes) found h =
    let (contents, a, h1) = >>=-eq-ok (sized entry.name entry.size bytes) _ h in
    let same : contents ≡ found.0 = cc in
    ap length (sym same) ∙ sized-length entry.name entry.size bytes contents a

flat_read_entry-length :
    (inflate_whole : InflateWhole) (entry : ZipEntry) (f : Flat) (found : List ℕ × Flat)
    → flat_read_entry inflate_whole entry f ≡ ok found
    → length found.0 ≡ entry.size
unfolding flat_read_entry
flat_read_entry-length inflate_whole entry f found h = elim (Bool-cases (entry.method == stored)) [
  | inl e ↦ elim (Bool-cases (entry.compressed == entry.size)) [
    | inl s ↦
        let h' = rw (e, s) at h in
        flat_copy-length entry.compressed entry.name f found h' ∙ ground arith
    | inr s ↦ let h' = rw (e, s) at h in cc
  ]
  | inr e ↦
      let h' = rw e at h in
      let (copied, a, h1) = >>=-eq-ok (flat_copy entry.compressed entry.name f) _ h' in
      flat_inflated-length entry copied.1 (inflate_whole copied.0) found h1
]

flat_read-length :
    (inflate_whole : InflateWhole) (entry : ZipEntry) (f : Flat) (done : List ℕ × Flat)
    → flat_read inflate_whole entry f ≡ ok done
    → length done.0 ≡ entry.size
unfolding flat_read
flat_read-length inflate_whole entry f done h =
    let (found, a, h1) = >>=-eq-ok (flat_read_entry inflate_whole entry f) _ h in
    elim (Bool-cases (f.check_crc && not (crc32 found.0 0 == entry.crc))) [
      | inl e ↦ let h2 = rw e at h1 in cc
      | inr e ↦
          let h2 = rw e at h1 in
          let same : found ≡ done = cc in
          ap (λ d. length d.0) (sym same) ∙ flat_read_entry-length inflate_whole entry f found a
    ]

inflated-Tiles :
    (entry : ZipEntry) (r : ZipStreamReader) (values : List (List ℕ))
    (done : List Given × ZipStreamReader)
    → inflated entry r values ≡ ok done
    → Tiles 0 done.0
unfolding inflated
inflated-Tiles entry r values done h =
    let (given, a, h1) = >>=-eq-ok (give_inflated entry.name entry.size 0 values) _ h in
    let same : given ≡ done.0 = cc in
    subst (Tiles 0) same (give_inflated-Tiles entry.name entry.size 0 values given a)

module _ (inflater : Inflater) where
  deflated_entry-Tiles :
      (entry : ZipEntry) (written : List (List ℕ))
      (m : Outcome ZipError (List Given × ZipStreamReader)) (done : List Given × ZipStreamReader)
      → deflated_entry inflater entry written m ≡ ok done
      → Tiles 0 done.0
  unfolding deflated_entry inflated_entry
  deflated_entry-Tiles entry written (err thrown) done h = cc
  deflated_entry-Tiles entry written (ok (given, r)) done h =
      elim (Option-cases (inflater.inflate (chunks_of given))) [
        | inl e ↦ let h' = rw e at h in cc
        | inr (values, e) ↦ let h' = rw e at h in inflated-Tiles entry r values done h'
      ]

  read_entry-Tiles :
      (entry : ZipEntry) (r : ZipStreamReader) (done : List Given × ZipStreamReader)
      → read_entry inflater entry r ≡ ok done
      → Tiles 0 done.0
  unfolding read_entry copy
  read_entry-Tiles entry r done h = elim (Bool-cases (entry.method == stored)) [
    | inl e ↦ elim (Bool-cases (entry.compressed == entry.size)) [
      | inl s ↦
          let h' = rw (e, s) at h in
          copy_rounds-Tiles (suc (suc (chunks_left r))) entry.compressed entry.name 0 r done h'
      | inr s ↦ let h' = rw (e, s) at h in cc
    ]
    | inr e ↦
        let h' = rw e at h in
        deflated_entry-Tiles entry (fed entry.compressed entry.name r)
          (copy entry.compressed entry.name r) done h'
  ]

  read-Tiles :
      (entry : ZipEntry) (r : ZipStreamReader) (done : List Given × ZipStreamReader)
      → read inflater entry r ≡ ok done
      → Tiles 0 done.0
  unfolding read
  read-Tiles entry r done h =
      let (found, a, h1) = >>=-eq-ok (read_entry inflater entry r) _ h in
      elim (Bool-cases (r.check_crc && not (crc_of 0 found.0 == entry.crc))) [
        | inl e ↦ let h2 = rw e at h1 in cc
        | inr e ↦
            let h2 = rw e at h1 in
            let same : found ≡ done = cc in
            subst (λ d. Tiles 0 d.0) same (read_entry-Tiles entry r found a)
      ]

  module _ (inflate_whole : InflateWhole) (does : IsInflater inflater inflate_whole) where
    -- The call readWhole of a stream cut into chunks anyhow returns an entry's contents, as a reader of the
    -- whole of the bytes does, and leaves the same bytes to come; it throws for an entry of more bytes than
    -- are allowed, and otherwise where that reader throws. Which error it is is not said here.
    pub read_whole-flat :
        (entry : ZipEntry) (max_bytes : ℕ) (r : ZipStreamReader)
        → success (view_whole (read_whole inflater entry max_bytes r))
          ≡ success (flat_read_whole inflate_whole entry max_bytes (flat_of r))
    unfolding read_whole flat_read_whole
    read_whole-flat entry max_bytes r =
        let same = read-flat inflater inflate_whole does entry r in
        elim (Bool-cases (ltb max_bytes entry.size)) [
          | inl over ↦ rw over refl
          | inr fits ↦ elim (Outcome-cases (read inflater entry r)) [
            | inl (thrown, e) ↦
                let (other, g) =
                  success-err (flat_read inflate_whole entry (flat_of r))
                    (sym same ∙ ap (λ m. success (view_given m)) e) in
                rw (fits, e, g) refl
            | inr (done, e) ↦
                let g =
                  success-ok (flat_read inflate_whole entry (flat_of r))
                    (bytes_of done.0, flat_of done.1)
                    (sym same ∙ ap (λ m. success (view_given m)) e) in
                let size : length (bytes_of done.0) ≡ entry.size =
                  flat_read-length inflate_whole entry (flat_of r) (bytes_of done.0, flat_of done.1)
                    g in
                let set : set_all done.0 (replicate entry.size 0) ≡ ok (bytes_of done.0) =
                  set_all-Tiles done.0 0 (replicate entry.size 0) (read-Tiles entry r done e)
                    (let n = length-replicate entry.size 0 in omega arith) in
                rw (fits, e, g, set) refl
          ]
        ]
