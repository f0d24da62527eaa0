-- ===== src/StoreLog/Reader/Chunks.antt =====
-- The replay of a log does not depend on the chunks it is fed in.
use yurt_playground.Base.{
  drop-append_le, ℕ, zero, suc, ◌≤◌, ◌<◌, ◌≡◌, refl, sym, ap, ◌∙◌, ◌≢◌, List, ◌++◌, Text, Outcome,
  ok, err, length, length-append, drop, length-drop, drop-append_le, arith,
}
use yurt_playground.StoreLog.Record.{Parsed, incomplete, refused, piece, closing, parse}
use yurt_playground.StoreLog.Record.Prefix.{parse-prefix, parse-IsWhole, IsWhole}
use yurt_playground.StoreLog.Reader.{
  Replay, ReplayError, drain, after_call, after_parse, perform_piece, perform_length,
}

abbrev pub Replayed : Type 0
Replayed = Replay × Outcome ReplayError (List ℕ)

-- What follows a record depends on the next round for shorter bytes only.
module _ (next next' : Replay → List ℕ → Replayed) (r : Replay) (bytes : List ℕ) where
  after_call-next :
      (used : ℕ) (m : Replay × Outcome ReplayError (Unit {0}))
      → 10 ≤ used
      → used ≤ length bytes
      → ((q : Replay) (rest : List ℕ) → length rest < length bytes → next q rest ≡ next' q rest)
      → after_call next m (drop used bytes) ≡ after_call next' m (drop used bytes)
  unfolding after_call
  after_call-next used (q, err e) a b agree = refl
  after_call-next used (q, ok _) a b agree =
      agree q (drop used bytes) (omega (arith, length-drop used bytes))

  after_parse-next :
      (p : Parsed)
      → IsWhole (length bytes) p
      → ((q : Replay) (rest : List ℕ) → length rest < length bytes → next q rest ≡ next' q rest)
      → after_parse next r bytes p ≡ after_parse next' r bytes p
  unfolding after_parse
  after_parse-next incomplete w agree = refl
  after_parse-next (refused e) w agree = refl
  after_parse-next (piece name offset body used) w agree =
      after_call-next used (perform_piece name offset body r) w.0 w.1 agree
  after_parse-next (closing name n used) w agree =
      after_call-next used (perform_length name n r) w.0 w.1 agree

module _ (decode : List ℕ → Text) where
  -- More rounds than bytes are enough: any two such numbers give the same.
  pub drain-rounds :
      (f g : ℕ) (r : Replay) (bytes : List ℕ)
      → length bytes < f
      → length bytes < g
      → drain decode f r bytes ≡ drain decode g r bytes
  unfolding drain
  drain-rounds zero g r bytes h k = absurd (omega arith)
  drain-rounds (suc f) zero r bytes h k = absurd (omega arith)
  drain-rounds (suc f) (suc g) r bytes h k =
      after_parse-next (drain decode f) (drain decode g) r bytes (parse decode bytes)
        (parse-IsWhole decode bytes)
        (λ q rest l. drain-rounds f g q rest (omega arith) (omega arith))

  -- With as many rounds as are enough.
  unfoldable pub drain_all : Replay → List ℕ → Replayed
  drain_all r bytes = drain decode (suc (length bytes)) r bytes

  -- A replay that goes on with more bytes, unless it threw.
  unfoldable pub go_on : List ℕ → Replayed → Replayed
  go_on more (r, err e) = (r, err e)
  go_on more (r, ok rest) = drain_all r (rest ++ more)

  after_call-append :
      (next : Replay → List ℕ → Replayed) (bytes more : List ℕ) (used : ℕ)
      (m : Replay × Outcome ReplayError (Unit {0}))
      → 10 ≤ used
      → used ≤ length bytes
      → ((q : Replay) (rest : List ℕ)
          → length rest < length bytes
          → next q (rest ++ more) ≡ go_on more (next q rest))
      → after_call next m (drop used (bytes ++ more))
        ≡ go_on more (after_call next m (drop used bytes))
  unfolding after_call go_on
  after_call-append next bytes more used (q, err e) a b goes = refl
  after_call-append next bytes more used (q, ok _) a b goes =
      ap (next q) (drop-append_le used bytes more b)
      ∙ goes q (drop used bytes) (omega (arith, length-drop used bytes))

  -- The bytes before some more are replayed first, and the replay goes on with the others.
  pub drain-append :
      (f : ℕ) (r : Replay) (bytes more : List ℕ)
      → length (bytes ++ more) < f
      → drain decode f r (bytes ++ more) ≡ go_on more (drain decode f r bytes)
  unfolding drain go_on drain_all after_parse
  drain-append zero r bytes more h = absurd (omega arith)
  drain-append (suc f) r bytes more h =
      parsed (parse decode bytes) refl (parse-IsWhole decode bytes) (λ q rest l.
        drain-append f q rest more
          (omega (arith, length-append rest more, length-append bytes more)))
    where
      same :
          (p : Parsed) → p ≢ incomplete → parse decode bytes ≡ p → parse decode (bytes ++ more) ≡ p
      same p n e = parse-prefix decode bytes more (λ t. n (sym e ∙ t)) ∙ e

      parsed :
          (p : Parsed)
          → parse decode bytes ≡ p
          → IsWhole (length bytes) p
          → ((q : Replay) (rest : List ℕ)
              → length rest < length bytes
              → drain decode f q (rest ++ more) ≡ go_on more (drain decode f q rest))
          → drain decode (suc f) r (bytes ++ more) ≡ go_on more (drain decode (suc f) r bytes)
      parsed incomplete e w goes =
          rw e
            (drain-rounds (suc f) (suc (length (bytes ++ more))) r (bytes ++ more) h (omega arith))
      parsed (refused t) e w goes = rw (same (refused t) (λ e. cc) e, e) refl
      parsed (piece name offset body used) e w goes =
          rw (same (piece name offset body used) (λ e. cc) e, e)
            (after_call-append (drain decode f) bytes more used (perform_piece name offset body r)
              w.0 w.1 goes)
      parsed (closing name n used) e w goes =
          rw (same (closing name n used) (λ e. cc) e, e)
            (after_call-append (drain decode f) bytes more used (perform_length name n r) w.0 w.1
              goes)
