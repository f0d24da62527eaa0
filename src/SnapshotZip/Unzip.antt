-- ===== src/SnapshotZip/Unzip.antt =====
-- A client that reads a zip front to back, over the calls of a reader: those of ZipStreamReader, and
-- those on the whole of the bytes. The calls are in the order in which a restore makes them.
use yurt_playground.Base.{
  ℕ, zero, suc, ◌≡◌, refl, sym, ap, ◌∙◌, inl, inr, List, [], ◌∷◌, Option, none, some, Text, Outcome,
  ok, err, ◌>>=◌, Outcome-cases, success, success-ok, success-err,
}
use yurt_playground.SnapshotZip.{ZipEntry, ZipError, join_chunks}
use yurt_playground.SnapshotZip.Reader.{
  ZipStreamReader, Given, Inflater, next, read, finish, chunks_of,
}
use yurt_playground.SnapshotZip.Reader.Flat.{Flat, flat_of, flat_next, flat_read, flat_finish}
use yurt_playground.SnapshotZip.Reader.Refine.{view, next-flat, finish-flat}
use yurt_playground.SnapshotZip.Reader.Copy.{view_given}
use yurt_playground.SnapshotZip.Reader.Contents.{InflateWhole, IsInflater, read-flat}

-- The calls of a reader whose state is `S`.
pub record ZipCalls (S : Type 0) : Type 0 where
  pub next_call : S → Outcome ZipError (Option ZipEntry × S)
  pub read_call : ZipEntry → S → Outcome ZipError (List ℕ × S)
  pub finish_call : S → Outcome ZipError (Unit {0})

abbrev given_bytes :
    Outcome ZipError (List Given × ZipStreamReader) → Outcome ZipError (List ℕ × ZipStreamReader)
given_bytes (err thrown) = err thrown
given_bytes (ok (given, r)) = ok (join_chunks (chunks_of given), r)

abbrev pub stream_calls : (List ℕ → Text) → Inflater → ZipCalls ZipStreamReader
stream_calls decode inflater = record {
  next_call = next decode;
  read_call = λ entry r. given_bytes (read inflater entry r);
  finish_call = finish;
}

abbrev pub flat_calls : (List ℕ → Text) → InflateWhole → ZipCalls Flat
flat_calls decode inflate_whole = record {
  next_call = flat_next decode;
  read_call = flat_read inflate_whole;
  finish_call = flat_finish;
}

unfoldable pub with_entry :
    Text × List ℕ → Option (List (Text × List ℕ)) → Option (List (Text × List ℕ))
with_entry entry none = none
with_entry entry (some more) = some (entry ∷ more)

module _ {S : Type 0} (calls : ZipCalls S) where
  -- The entries' names and contents, up to the directory and to the end of the file; none when there are
  -- more entries than rounds.
  unfoldable pub unzip : ℕ → S → Outcome ZipError (Option (List (Text × List ℕ)))
  unfolding with_entry
  unzip zero s = ok none
  unzip (suc rounds) s = calls.next_call s >>= (λ found. elim (found.0) [
    | none ↦ calls.finish_call found.1 >>= (λ _. ok (some []))
    | some entry ↦ calls.read_call entry found.1 >>= (λ contents.
        unzip rounds contents.1 >>= (λ more. ok (with_entry (entry.name, contents.0) more)))
  ])

success-bind :
    {A B : Type 0} (m n : Outcome ZipError A) (f : A → B)
    → success m ≡ success n
    → success (m >>= (λ a. ok (f a))) ≡ success (n >>= (λ a. ok (f a)))
success-bind (ok a) (ok b) f h = let same : a ≡ b = cc in ap (λ x. some (f x)) same
success-bind (err a) (err b) f h = refl
success-bind (ok a) (err b) f h = cc
success-bind (err a) (ok b) f h = cc

module _ (inflater : Inflater) (inflate_whole : InflateWhole)
    (does : IsInflater inflater inflate_whole) where
  -- A client of a stream cut into chunks anyhow, which reads each entry as it comes, returns what it returns
  -- of the whole of the bytes, or throws where it throws of them, whatever the timing of the decompression.
  -- Which error it is may differ, for an entry that is deflated and both cut or corrupt and too long.
  pub unzip-flat :
      (decode : List ℕ → Text) (rounds : ℕ) (r : ZipStreamReader)
      → success (unzip (stream_calls decode inflater) rounds r)
        ≡ success (unzip (flat_calls decode inflate_whole) rounds (flat_of r))
  unfolding unzip
  unzip-flat decode zero r = refl
  unzip-flat decode (suc rounds) r = elim (Outcome-cases (next decode r)) [
    | inl (thrown, e) ↦
        let g : flat_next decode (flat_of r) ≡ err thrown = sym (next-flat decode r) ∙ ap view e in
        rw (e, g) refl
    | inr ((none, r'), e) ↦
        let g : flat_next decode (flat_of r) ≡ ok (none, flat_of r') =
          sym (next-flat decode r) ∙ ap view e in
        rw (e, g, finish-flat r') refl
    | inr ((some entry, r'), e) ↦
        let g : flat_next decode (flat_of r) ≡ ok (some entry, flat_of r') =
          sym (next-flat decode r) ∙ ap view e in
        let same = read-flat inflater inflate_whole does entry r' in
        rw (e, g)
          (elim (Outcome-cases (read inflater entry r')) [
            | inl (thrown, e2) ↦
                let (other, g2) =
                  success-err (flat_read inflate_whole entry (flat_of r'))
                    (sym same ∙ ap (λ m. success (view_given m)) e2) in
                rw (e2, g2) refl
            | inr ((given, r''), e2) ↦
                let g2 =
                  success-ok (flat_read inflate_whole entry (flat_of r'))
                    (join_chunks (chunks_of given), flat_of r'')
                    (sym same ∙ ap (λ m. success (view_given m)) e2) in
                rw (e2, g2)
                  (success-bind (unzip (stream_calls decode inflater) rounds r'')
                    (unzip (flat_calls decode inflate_whole) rounds (flat_of r''))
                    (λ more. with_entry (entry.name, join_chunks (chunks_of given)) more)
                    (unzip-flat decode rounds r''))
          ])
  ]
