-- ===== src/StoreLog/Reader/Bound.antt =====
-- A replay never gives its target, nor holds, more than its bound.
use yurt_playground.Base.{
  ℕ, ◌+◌, ◌≤◌, ◌≡◌, refl, ap, true, false, List, [], ◌∷◌, ◌++◌, Option, Text, All, All-append,
  Outcome, ok, err, arith, length, text_eq, inl, inr, ltb, ◌∙◌, Bool-cases,
}
use yurt_playground.StoreLog.{
  StoreCall, writes, sets_length, StoreExportOrder, OrderError, write, set_length,
  store_piece_bytes, meta, number_or_zero,
}
use yurt_playground.StoreLog.Reader.{
  Replay, hold, passed, ordered, goes_past, perform_piece, perform_length,
}
use yurt_playground.StoreLog.Reader.Totals.{Grown, write-Grown, set_length-Grown}

-- The sum of a measure over some calls.
abbrev pub sum : (StoreCall → ℕ) → List StoreCall → ℕ
sum f [] = 0
sum f (call ∷ calls) = f call + sum f calls

pub sum-append :
    (f : StoreCall → ℕ) (xs ys : List StoreCall) → sum f (xs ++ ys) ≡ sum f xs + sum f ys
sum-append f [] ys = omega arith
sum-append f (x ∷ xs) ys = omega (arith, sum-append f xs ys)

abbrev pub piece_size : StoreCall → ℕ
piece_size (writes name offset bytes) = length bytes
piece_size (sets_length name n) = 0

abbrev pub closed_length : StoreCall → ℕ
closed_length (writes name offset bytes) = 0
closed_length (sets_length name n) = n

abbrev pub closed_file : StoreCall → ℕ
closed_file (writes name offset bytes) = 0
closed_file (sets_length name n) = 1

abbrev pub call_name : StoreCall → Text
call_name (writes name offset bytes) = name
call_name (sets_length name n) = name

-- A measure of the calls made and held, within a total so far and the bound's.
abbrev pub Charged : (StoreCall → ℕ) → ℕ → ℕ → Replay → Type 0
Charged f total bound r =
    (sum f r.target + sum f r.held ≤ total) × (sum f r.target + sum f r.held ≤ bound)

abbrev pub IsWithin : Replay → Type 0
IsWithin r =
    Charged closed_file r.order.totals.files r.bound.files r
    × Charged closed_length r.order.totals.bytes r.bound.bytes r
    × Charged piece_size r.order.totals.piece_bytes r.bound.piece_bytes r

-- The target has no call that names `meta`; those held do, and their pieces are one piece at most.
abbrev pub KeepsMeta : Replay → Type 0
KeepsMeta r =
    All (λ call. text_eq (call_name call) meta ≡ false) r.target
    × All (λ call. text_eq (call_name call) meta ≡ true) r.held
    × (sum piece_size r.held ≤ r.meta_bytes)
    × (sum piece_size r.held ≤ store_piece_bytes)

module _ (f : StoreCall → ℕ) where
  hold-Charged :
      (size : ℕ) (call : StoreCall) (r : Replay) (total bound : ℕ)
      → sum f r.target + sum f r.held + f call ≤ total
      → sum f r.target + sum f r.held + f call ≤ bound
      → Charged f total bound (hold size call r).0
  unfolding hold
  hold-Charged size call r total bound a b = ground (arith, sum-append f r.held (call ∷ []))

  passed-Charged :
      (size : ℕ) (call : StoreCall) (file : Text) (r : Replay) (total bound : ℕ)
      → sum f r.target + sum f r.held + f call ≤ total
      → sum f r.target + sum f r.held ≤ bound
      → (goes_past r.order r.bound ≡ false → total ≤ bound)
      → Charged f total bound (passed size call file r).0
  unfolding passed
  passed-Charged size call file r total bound a b c =
      ground (arith, sum-append f r.target (call ∷ []), hold-Charged size call r total bound)

passed_same :
    (size : ℕ) (call : StoreCall) (file : Text) (r : Replay)
    → ((passed size call file r).0.order ≡ r.order) × ((passed size call file r).0.bound ≡ r.bound)
unfolding passed hold
passed_same size call file r = ground arith

passed-IsWithin :
    (size : ℕ) (call : StoreCall) (file : Text) (r : Replay)
    → sum closed_file r.target + sum closed_file r.held + closed_file call ≤ r.order.totals.files
    → sum closed_length r.target + sum closed_length r.held + closed_length call
      ≤ r.order.totals.bytes
    → sum piece_size r.target + sum piece_size r.held + piece_size call ≤ r.order.totals.piece_bytes
    → sum closed_file r.target + sum closed_file r.held ≤ r.bound.files
    → sum closed_length r.target + sum closed_length r.held ≤ r.bound.bytes
    → sum piece_size r.target + sum piece_size r.held ≤ r.bound.piece_bytes
    → IsWithin (passed size call file r).0
unfolding goes_past
passed-IsWithin size call file r a b c d e g =
    rw ((passed_same size call file r).0, (passed_same size call file r).1)
      (
        passed-Charged closed_file size call file r r.order.totals.files r.bound.files a d
            (λ h. ground arith),
        passed-Charged closed_length size call file r r.order.totals.bytes r.bound.bytes b e
            (λ h. ground arith),
        passed-Charged piece_size size call file r r.order.totals.piece_bytes r.bound.piece_bytes c
            g (λ h. ground arith),
      )

ordered-IsWithin :
    (size files bytes pieces : ℕ) (call : Text → StoreCall) (r : Replay)
    (m : StoreExportOrder × Outcome OrderError Text)
    → ((file : Text)
        → (closed_file (call file) ≡ files)
          × (closed_length (call file) ≡ bytes)
          × (piece_size (call file) ≡ pieces))
    → Grown files bytes pieces r.order.totals m
    → IsWithin r
    → IsWithin (ordered size call r m).0
unfolding ordered
ordered-IsWithin size files bytes pieces call r (o, err t) adds grown within = rw grown within
ordered-IsWithin size files bytes pieces call r (o, ok file) adds grown within =
    passed-IsWithin size (call file) file (record r { order = o }) (ground (arith, adds file))
      (ground (arith, adds file)) (ground (arith, adds file)) (ground arith) (ground arith)
      (ground arith)

pub perform_piece-IsWithin :
    (name : Text) (offset : Option ℕ) (bytes : List ℕ) (r : Replay)
    → IsWithin r
    → IsWithin (perform_piece name offset bytes r).0
unfolding perform_piece
perform_piece-IsWithin name offset bytes r =
    ordered-IsWithin (length bytes) 0 0 (length bytes)
      (λ file. writes file (number_or_zero offset) bytes) r
      (write name offset (length bytes) r.order) (λ file. (refl, refl, refl))
      (write-Grown name offset (length bytes) r.order)

pub perform_length-IsWithin :
    (name : Text) (n : Option ℕ) (r : Replay) → IsWithin r → IsWithin (perform_length name n r).0
unfolding perform_length
perform_length-IsWithin name n r =
    ordered-IsWithin 0 1 (number_or_zero n) 0 (λ file. sets_length file (number_or_zero n)) r
      (set_length name n r.order) (λ file. (refl, refl, refl)) (set_length-Grown name n r.order)

hold-KeepsMeta :
    (size : ℕ) (call : StoreCall) (r : Replay)
    → text_eq (call_name call) meta ≡ true
    → piece_size call ≤ size
    → KeepsMeta r
    → KeepsMeta (hold size call r).0
unfolding hold
hold-KeepsMeta size call r named fits (sent, held, counted, one) =
    elim (Bool-cases (ltb store_piece_bytes (r.meta_bytes + size))) [
      | inl long ↦ rw long (sent, held, omega arith, one)
      | inr short ↦ rw short (
        sent,
        All-append (λ c. text_eq (call_name c) meta ≡ true) r.held (call ∷ []) held (named, tt),
        omega (arith, sum-append piece_size r.held (call ∷ [])),
        ground (arith, sum-append piece_size r.held (call ∷ [])),
      )
    ]

passed-KeepsMeta :
    (size : ℕ) (call : StoreCall) (file : Text) (r : Replay)
    → call_name call ≡ file
    → piece_size call ≤ size
    → KeepsMeta r
    → KeepsMeta (passed size call file r).0
unfolding passed
passed-KeepsMeta size call file r named fits (sent, held, counted, one) =
    elim (Bool-cases (goes_past r.order r.bound)) [
      | inl past ↦ rw past (sent, held, counted, one)
      | inr within ↦ elim (Bool-cases (text_eq file meta)) [
        | inl is_meta ↦
            rw (within, is_meta)
              (hold-KeepsMeta size call r (ap (λ n. text_eq n meta) named ∙ is_meta) fits
                (sent, held, counted, one))
        | inr other ↦
            rw (within, other)
              (
                All-append (λ c. text_eq (call_name c) meta ≡ false) r.target (call ∷ []) sent
                    (ap (λ n. text_eq n meta) named ∙ other, tt),
                held,
                counted,
                one,
              )
      ]
    ]

ordered-KeepsMeta :
    (size : ℕ) (call : Text → StoreCall) (r : Replay)
    (m : StoreExportOrder × Outcome OrderError Text)
    → ((file : Text) → (call_name (call file) ≡ file) × (piece_size (call file) ≤ size))
    → KeepsMeta r
    → KeepsMeta (ordered size call r m).0
unfolding ordered
ordered-KeepsMeta size call r (o, err t) named keeps = keeps
ordered-KeepsMeta size call r (o, ok file) named keeps =
    passed-KeepsMeta size (call file) file (record r { order = o }) (named file).0 (named file).1
      keeps

pub perform_piece-KeepsMeta :
    (name : Text) (offset : Option ℕ) (bytes : List ℕ) (r : Replay)
    → KeepsMeta r
    → KeepsMeta (perform_piece name offset bytes r).0
unfolding perform_piece
perform_piece-KeepsMeta name offset bytes r =
    ordered-KeepsMeta (length bytes) (λ file. writes file (number_or_zero offset) bytes) r
      (write name offset (length bytes) r.order) (λ file. (refl, omega arith))

pub perform_length-KeepsMeta :
    (name : Text) (n : Option ℕ) (r : Replay) → KeepsMeta r → KeepsMeta (perform_length name n r).0
unfolding perform_length
perform_length-KeepsMeta name n r =
    ordered-KeepsMeta 0 (λ file. sets_length file (number_or_zero n)) r (set_length name n r.order)
      (λ file. (refl, omega arith))

ordered-bound :
    (size : ℕ) (call : Text → StoreCall) (r : Replay)
    (m : StoreExportOrder × Outcome OrderError Text)
    → (ordered size call r m).0.bound ≡ r.bound
unfolding ordered
ordered-bound size call r (o, err t) = refl
ordered-bound size call r (o, ok file) =
    (passed_same size (call file) file (record r { order = o })).1

pub perform_piece-bound :
    (name : Text) (offset : Option ℕ) (bytes : List ℕ) (r : Replay)
    → (perform_piece name offset bytes r).0.bound ≡ r.bound
unfolding perform_piece
perform_piece-bound name offset bytes r =
    ordered-bound (length bytes) (λ file. writes file (number_or_zero offset) bytes) r
      (write name offset (length bytes) r.order)

pub perform_length-bound :
    (name : Text) (n : Option ℕ) (r : Replay) → (perform_length name n r).0.bound ≡ r.bound
unfolding perform_length
perform_length-bound name n r =
    ordered-bound 0 (λ file. sets_length file (number_or_zero n)) r (set_length name n r.order)
