-- ===== src/Executions/Capture/Bytes.antt =====
-- What a capture holds after any sequence of pushes.
use yurt_playground.Base.{
  ℕ, ◌+◌, ◌-◌, ◌≡◌, refl, sym, ap, ◌∙◌, List, [], ◌∷◌, ◌++◌, append_assoc, append-nil, length,
  length-append, length-take, take, replicate, ltb, arith, take-append, take-append_eq, take_zero,
  take_all, drop-append_add, drop-replicate, min,
}
use yurt_playground.Executions.Capture.{
  Capture, new_capture, push, set_at, copy_from, bytes, push_all,
}

-- The chunks joined.
abbrev pub joined : List (List ℕ) → List ℕ
joined [] = []
joined (x ∷ xs) = x ++ joined xs

pub joined-append : (xs ys : List (List ℕ)) → joined (xs ++ ys) ≡ joined xs ++ joined ys
joined-append [] ys = refl
joined-append (x ∷ xs) ys = ap (◌++◌ x) (joined-append xs ys) ∙ sym (append_assoc x _ _)

joined-snoc : (xs : List (List ℕ)) (x : List ℕ) → joined (xs ++ x ∷ []) ≡ joined xs ++ x
joined-snoc xs x = joined-append xs (x ∷ []) ∙ ap (◌++◌ (joined xs)) (append-nil x)

-- The array is filled from the front: what is written so far, then zeros.
set_at-zeros :
    (written chunk : List ℕ) (at n : ℕ)
    → at ≡ length written
    → set_at (written ++ replicate n 0) chunk at
      ≡ (written ++ chunk) ++ replicate (n - length chunk) 0
unfolding set_at
set_at-zeros written chunk at n e =
    rw
      (
        take-append_eq at written (replicate n 0) e,
        drop-append_add (at + length chunk) written (replicate n 0) (length chunk) (omega arith),
        drop-replicate {A = ℕ} (length chunk) n 0,
      )
      (sym (append_assoc written chunk _))

copy_from-zeros :
    (written : List ℕ) (at n : ℕ) (chunks : List (List ℕ))
    → at ≡ length written
    → n ≡ length (joined chunks)
    → copy_from (written ++ replicate n 0) at chunks ≡ written ++ joined chunks
unfolding copy_from
copy_from-zeros written at n [] e f = rw f refl
copy_from-zeros written at n (chunk ∷ chunks) e f = rw (set_at-zeros written chunk at n e) (
    copy_from-zeros (written ++ chunk) (at + length chunk) (n - length chunk) chunks
      (omega (arith, length-append written chunk))
      (omega (arith, length-append chunk (joined chunks)))
    ∙ append_assoc written chunk (joined chunks))

-- The capture `c` of the bytes `input`, given to it under `limit`.
pub record Captures (limit : ℕ) (input : List ℕ) (c : Capture) : Type 0 where
  pub bound : c.limit ≡ limit
  pub counted : c.size ≡ length (joined c.chunks)
  pub within : c.size ≡ min limit (length input)
  pub kept : joined c.chunks ≡ take limit input
  pub flagged : c.truncated ≡ ltb limit (length input)

pub push-Captures :
    (limit : ℕ) (input p : List ℕ) (c : Capture)
    → Captures limit input c
    → Captures limit (input ++ p) (push c p)
unfolding push
push-Captures limit input [] c h = rw (append-nil input) h
push-Captures limit input (b ∷ p) c h = ground (
  arith,
  joined-snoc c.chunks (b ∷ p),
  joined-snoc c.chunks (take (c.limit - c.size) (b ∷ p)),
  length-append (joined c.chunks) (b ∷ p),
  length-append (joined c.chunks) (take (c.limit - c.size) (b ∷ p)),
  length-take (c.limit - c.size) (b ∷ p),
  length-append input (b ∷ p),
  take-append limit input (b ∷ p),
  take_zero (limit - length input) (b ∷ p),
  take_all (limit - length input) (b ∷ p),
  append-nil (take limit input),
)

pub empty-Captures : (limit : ℕ) → Captures limit [] (new_capture limit)
unfolding new_capture
empty-Captures limit = ground (arith, take_all {A = ℕ} limit [])

pub push_all-Captures :
    (limit : ℕ) (input : List ℕ) (ps : List (List ℕ)) (c : Capture)
    → Captures limit input c
    → Captures limit (input ++ joined ps) (push_all c ps)
unfolding push_all
push_all-Captures limit input [] c h = rw (append-nil input) h
push_all-Captures limit input (p ∷ ps) c h =
    rw (← append_assoc input p (joined ps))
      (push_all-Captures limit (input ++ p) ps (push c p) (push-Captures limit input p c h))

pub Captures-bytes :
    {limit : ℕ} {input : List ℕ} (c : Capture) → Captures limit input c → bytes c ≡ take limit input
unfolding bytes
Captures-bytes c h = copy_from-zeros [] 0 c.size c.chunks refl h.counted ∙ h.kept

-- Whatever chunks a process writes, and however its output is cut into them, the captured bytes
-- are the first `limit` bytes of the whole output, and the flag says exactly whether there was more.
pub bytes-push_all :
    (limit : ℕ) (ps : List (List ℕ))
    → (bytes (push_all (new_capture limit) ps) ≡ take limit (joined ps))
      × ((push_all (new_capture limit) ps).truncated ≡ ltb limit (length (joined ps)))
unfolding new_capture
bytes-push_all limit ps =
    let held = push_all-Captures limit [] ps (new_capture limit) (empty-Captures limit) in
    (Captures-bytes _ held, held.flagged)
