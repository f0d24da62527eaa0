-- ===== src/Executions/Tests.antt =====
-- Runs of the registry, the line and the capture at concrete inputs, and the theorems there.
use yurt_playground.Base.{
  ℕ, ◌-◌, ◌≡◌, refl, ◌&&◌, List, [], ◌∷◌, map, Text, chars, ok, leb, ltb, if◌then◌else◌, arith,
  length, take,
}
use yurt_playground.Executions.Capture.{new_capture, push_all, bytes, push}
use yurt_playground.Executions.Capture.Bytes.{joined, bytes-push_all}
use yurt_playground.Executions.Signals.{signal_name, signal_number, full_name}
use yurt_playground.Executions.Signals.Names.{full_name-signal_number, signal_name-injective}

-- `toUpperCase` on ASCII.
abbrev ascii_upper : Text → Text
ascii_upper = map (λ c. if leb 97 c && leb c 122 then c - 32 else c)

abbrev pieces : List (List ℕ)
pieces = (1 ∷ 2 ∷ 3 ∷ []) ∷ [] ∷ (4 ∷ 5 ∷ []) ∷ (6 ∷ []) ∷ []

capture_test : bytes (push_all (new_capture 4) pieces) ≡ 1 ∷ 2 ∷ 3 ∷ 4 ∷ []
unfolding bytes push_all push new_capture
capture_test = refl

bytes-push_all_example :
    (bytes (push_all (new_capture 4) pieces) ≡ take 4 (joined pieces))
    × ((push_all (new_capture 4) pieces).truncated ≡ ltb 4 (length (joined pieces)))
bytes-push_all_example = bytes-push_all 4 pieces

term_test : signal_number ascii_upper (chars "term") ≡ ok 15
unfolding signal_number full_name
term_test = refl

full_name_test : full_name ascii_upper (chars "term") ≡ signal_name 15
full_name_test = full_name-signal_number ascii_upper (chars "term") 15 term_test

signal_name_test : ◌≡◌ {A = ℕ} 37 37
signal_name_test = signal_name-injective 37 37 (omega arith) (omega arith) refl
