-- ===== src/Zmtp/Numbers.antt =====
-- A length that is written big-endian is read back.
use yurt_playground.Base.{
  ℕ, zero, suc, ◌+◌, ◌*◌, ◌/◌, ◌%◌, ◌^◌, ◌<◌, ◌≤◌, ◌≡◌, refl, sym, List, [], ◌∷◌, ◌++◌, ok, length,
  length-append, take-append_eq, arith,
}
use native.Mathlib.Nat.{pow-suc}
use yurt_playground.Zmtp.{big_endian, read_big_endian, read_long_length, max_length}

pub length-big_endian : (n value : ℕ) → length (big_endian n value) ≡ n
unfolding big_endian
length-big_endian zero value = refl
length-big_endian (suc n) value = omega (
  arith,
  length-append (big_endian n (value / 256)) (value % 256 ∷ []),
  length-big_endian n (value / 256),
)

read_big_endian-append :
    (acc b : ℕ) (bytes : List ℕ)
    → read_big_endian acc (bytes ++ b ∷ []) ≡ read_big_endian acc bytes * 256 + b
unfolding read_big_endian
read_big_endian-append acc b [] = refl
read_big_endian-append acc b (c ∷ bytes) = read_big_endian-append (acc * 256 + c) b bytes

read_big_endian-big_endian :
    (n value : ℕ) → value < 256 ^ n → read_big_endian 0 (big_endian n value) ≡ value
unfolding big_endian read_big_endian
read_big_endian-big_endian zero value h = omega (arith)
read_big_endian-big_endian (suc n) value h = omega (
  arith,
  read_big_endian-append 0 (value % 256) (big_endian n (value / 256)),
  read_big_endian-big_endian n (value / 256) (omega (arith, pow-suc 256 n)),
)

pub read_long_length-big_endian :
    (value : ℕ) (rest : List ℕ)
    → value ≤ max_length
    → read_long_length (big_endian 8 value ++ rest) ≡ ok value
unfolding read_long_length
read_long_length-big_endian value rest h =
    rw
      (
        take-append_eq 8 (big_endian 8 value) rest (sym (length-big_endian 8 value)),
        read_big_endian-big_endian 8 value (omega arith),
      )
      (ground (arith, length-append (big_endian 8 value) rest, length-big_endian 8 value))
