-- ===== src/SnapshotZip/Writer/Ranges.antt =====
-- The ranges of a chunk tile it: the views that are streamed are its bytes, in order.
use yurt_playground.Base.{
  ℕ, zero, suc, ◌+◌, ◌-◌, ◌*◌, ◌/◌, ◌≤◌, ◌≡◌, refl, sym, ap, ◌∙◌, List, [], ◌∷◌, ◌++◌, length, take,
  drop, min, arith, append_assoc, take-append-drop, length-drop, take_all, dec_le, append-nil,
}
use yurt_playground.SnapshotZip.{chunk_step, chunk_ranges, ranges_from, join_chunks}
use yurt_playground.SnapshotZip.Writer.{views_of, stream_of}

drop_all : (n : ℕ) (xs : List ℕ) → length xs ≤ n → drop n xs ≡ []
drop_all zero [] h = refl
drop_all zero (x ∷ xs) h = absurd (omega arith)
drop_all (suc n) [] h = refl
drop_all (suc n) (x ∷ xs) h = drop_all n xs (omega arith)

drop-drop : (m n : ℕ) (xs : List ℕ) → drop m (drop n xs) ≡ drop (n + m) xs
drop-drop m zero xs = ap (λ t. drop t xs) (omega arith)
drop-drop m (suc n) [] = drop_all m [] (omega arith) ∙ sym (drop_all (suc n + m) [] (omega arith))
drop-drop m (suc n) (x ∷ xs) =
    drop-drop m n xs ∙ ap (λ t. drop t (x ∷ xs)) {x = suc (n + m)} (omega arith)

-- The view of one range, before the bytes after it.
view_then_rest :
    (i : ℕ) (chunk : List ℕ)
    → take
          (min ((i + 1) * chunk_step) (length chunk) - i * chunk_step)
          (drop (i * chunk_step) chunk)
        ++ drop ((i + 1) * chunk_step) chunk
      ≡ drop (i * chunk_step) chunk
view_then_rest i chunk = elim (dec_le ((i + 1) * chunk_step) (length chunk)) [
  | yes inside ↦
      let size : min ((i + 1) * chunk_step) (length chunk) - i * chunk_step ≡ chunk_step =
        omega arith in
      let after : (i + 1) * chunk_step ≡ i * chunk_step + chunk_step = omega arith in
      rw (size, after, ← drop-drop chunk_step (i * chunk_step) chunk)
        (take-append-drop chunk_step (drop (i * chunk_step) chunk))
  | no last ↦
      let rest = drop_all ((i + 1) * chunk_step) chunk (omega arith) in
      rw rest (
        append-nil _
        ∙ take_all _ (drop (i * chunk_step) chunk)
            (omega (arith, length-drop (i * chunk_step) chunk)))
]

views_of-ranges_from :
    (n i : ℕ) (chunk : List ℕ)
    → length chunk ≤ (i + n) * chunk_step
    → join_chunks (views_of chunk (ranges_from n i (length chunk))) ≡ drop (i * chunk_step) chunk
unfolding views_of ranges_from
views_of-ranges_from zero i chunk h = sym (drop_all (i * chunk_step) chunk (omega arith))
views_of-ranges_from (suc n) i chunk h =
    ap
      (λ t.
        take (min ((i + 1) * chunk_step) (length chunk) - i * chunk_step)
          (drop (i * chunk_step) chunk)
        ++ t)
      (views_of-ranges_from n (i + 1) chunk (omega arith))
    ∙ view_then_rest i chunk

join_chunks-append :
    (xs ys : List (List ℕ)) → join_chunks (xs ++ ys) ≡ join_chunks xs ++ join_chunks ys
join_chunks-append [] ys = refl
join_chunks-append (x ∷ xs) ys =
    ap (λ t. x ++ t) (join_chunks-append xs ys)
    ∙ sym (append_assoc x (join_chunks xs) (join_chunks ys))

-- The views that chunks are streamed in have the chunks' bytes, in order: no byte is lost or repeated,
-- whatever the chunks' lengths.
pub join_chunks-stream_of :
    (chunks : List (List ℕ)) → join_chunks (stream_of chunks) ≡ join_chunks chunks
unfolding stream_of chunk_ranges
join_chunks-stream_of [] = refl
join_chunks-stream_of (chunk ∷ chunks) =
    let n : ℕ = (length chunk + (chunk_step - 1)) / chunk_step in
    let views : List (List ℕ) = views_of chunk (ranges_from n 0 (length chunk)) in
    let all : join_chunks views ≡ chunk = views_of-ranges_from n 0 chunk (omega arith) in
    join_chunks-append views (stream_of chunks)
    ∙ (ap (λ t. t ++ join_chunks (stream_of chunks)) all
        ∙ ap (λ t. chunk ++ t) (join_chunks-stream_of chunks))
