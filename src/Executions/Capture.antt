-- ===== src/Executions/Capture.antt =====
-- src/executions.ts, class BoundedCapture: output that stops growing at its limit.
pub mod Bytes
use yurt_playground.Base.{
  ℕ, ◌+◌, ◌-◌, ◌≡◌, Bool, true, false, List, [], ◌∷◌, ◌++◌, length, take, drop, replicate, ltb,
  ◌==◌, if◌then◌else◌,
}

pub record Capture : Type 0 where
  pub limit : ℕ
  pub chunks : List (List ℕ)
  pub size : ℕ
  pub truncated : Bool

unfoldable pub new_capture : ℕ → Capture
new_capture limit = record { limit = limit; chunks = []; size = 0; truncated = false }

-- `subarray(0, room)` of what does not fit; `limit - size` is 0 where the source's is not positive.
unfoldable pub push : Capture → List ℕ → Capture
push c bytes =
    let room = c.limit - c.size in
    if length bytes == 0
    then c
    else if room == 0
    then record c { truncated = true }
    else if ltb room (length bytes)
    then record c {
      chunks = c.chunks ++ take room bytes ∷ [];
      size = c.size + room;
      truncated = true;
    }
    else record c { chunks = c.chunks ++ bytes ∷ []; size = c.size + length bytes }

-- `out.set(chunk, at)`, within the array.
pub set_at : List ℕ → List ℕ → ℕ → List ℕ
set_at out chunk at = take at out ++ (chunk ++ drop (at + length chunk) out)

copy_from : List ℕ → ℕ → List (List ℕ) → List ℕ
unfolding set_at
copy_from out at [] = out
copy_from out at (chunk ∷ chunks) = copy_from (set_at out chunk at) (at + length chunk) chunks

-- The chunks copied one after another into a zeroed array of the captured length.
unfoldable pub bytes : Capture → List ℕ
unfolding copy_from
bytes c = copy_from (replicate c.size 0) 0 c.chunks

unfoldable pub push_all : Capture → List (List ℕ) → Capture
push_all c [] = c
push_all c (p ∷ ps) = push_all (push c p) ps
