-- ===== src/SnapshotZip/Crc/Serial.antt =====
-- The checksum by the table is the division by bits.
use Prim.Native.Nat.{bit_xor}
use yurt_playground.Base.{
  ℕ, zero, suc, ◌+◌, ◌*◌, ◌/◌, ◌%◌, ◌^◌, ◌<◌, ◌≡◌, refl, sym, ap, ◌∙◌, List, [], ◌∷◌, All, get_or,
  arith, ℕ_discrete,
}
use native.Mathlib.Nat.{pow-suc, div-div-eq-div-mul}
use yurt_playground.SnapshotZip.Bits.{
  zero-bit_xor, bit_xor_parity, bit_xor_half, bit_xor_zero, bit_xor_comm, bit_xor_assoc,
  bit_xor_self,
}
use yurt_playground.SnapshotZip.Crc.{
  polynomial, table_step, table_steps, table_from, crc_table, complement, crc_byte, crc_bytes,
  crc32, serial_bytes,
}

pub get_or-table_from : (n i k : ℕ) → k < n → get_or (table_from n i) k 0 ≡ table_steps 8 (i + k)
unfolding table_from
get_or-table_from zero i k h = absurd (omega arith)
get_or-table_from (suc n) i zero h = ap (table_steps 8) (omega arith)
get_or-table_from (suc n) i (suc k) h =
    get_or-table_from n (i + 1) k (omega arith) ∙ ap (table_steps 8) (omega arith)

-- Exclusive or in the middle of four.
bit_xor_swap :
    (a b c d : ℕ) → bit_xor (bit_xor a b) (bit_xor c d) ≡ bit_xor (bit_xor a c) (bit_xor b d)
bit_xor_swap a b c d =
    bit_xor_assoc a b (bit_xor c d)
    ∙ (ap (bit_xor a) (
          sym (bit_xor_assoc b c d)
          ∙ (ap (λ t. bit_xor t d) (bit_xor_comm b c) ∙ bit_xor_assoc c b d))
        ∙ sym (bit_xor_assoc a c (bit_xor b d)))

step_odd : (c : ℕ) → c % 2 ≡ 1 → table_step c ≡ bit_xor polynomial (c / 2)
unfolding table_step
step_odd c h = rw h refl

step_even : (c : ℕ) → c % 2 ≡ 0 → table_step c ≡ c / 2
unfolding table_step
step_even c h = rw h refl

-- A step of an exclusive or is the exclusive or of the steps.
step_mixed :
    (a b : ℕ)
    → a % 2 ≡ 1
    → b % 2 ≡ 0
    → table_step (bit_xor a b) ≡ bit_xor (table_step a) (table_step b)
step_mixed a b h k =
    step_odd (bit_xor a b) (omega (arith, bit_xor_parity a b))
    ∙ (ap (bit_xor polynomial) (bit_xor_half a b)
        ∙ (sym (bit_xor_assoc polynomial (a / 2) (b / 2))
            ∙ sym (rw (step_odd a h, step_even b k) refl)))

step_both :
    (a b : ℕ)
    → a % 2 ≡ 1
    → b % 2 ≡ 1
    → table_step (bit_xor a b) ≡ bit_xor (table_step a) (table_step b)
step_both a b h k =
    step_even (bit_xor a b) (omega (arith, bit_xor_parity a b))
    ∙ (bit_xor_half a b
        ∙ (sym (zero-bit_xor (bit_xor (a / 2) (b / 2)))
            ∙ (ap (λ t. bit_xor t (bit_xor (a / 2) (b / 2))) (sym (bit_xor_self polynomial))
                ∙ (bit_xor_swap polynomial polynomial (a / 2) (b / 2)
                    ∙ sym (rw (step_odd a h, step_odd b k) refl)))))

step_neither :
    (a b : ℕ)
    → a % 2 ≡ 0
    → b % 2 ≡ 0
    → table_step (bit_xor a b) ≡ bit_xor (table_step a) (table_step b)
step_neither a b h k =
    step_even (bit_xor a b) (omega (arith, bit_xor_parity a b))
    ∙ (bit_xor_half a b ∙ sym (rw (step_even a h, step_even b k) refl))

table_step-bit_xor : (a b : ℕ) → table_step (bit_xor a b) ≡ bit_xor (table_step a) (table_step b)
table_step-bit_xor a b = elim (ℕ_discrete (a % 2) 0) [
  | yes h ↦ elim (ℕ_discrete (b % 2) 0) [
    | yes k ↦ step_neither a b h k
    | no k ↦
        ap table_step (bit_xor_comm a b)
        ∙ (step_mixed b a (omega arith) h ∙ bit_xor_comm (table_step b) (table_step a))
  ]
  | no h ↦ elim (ℕ_discrete (b % 2) 0) [
    | yes k ↦ step_mixed a b (omega arith) k
    | no k ↦ step_both a b (omega arith) (omega arith)
  ]
]

table_steps-bit_xor :
    (k a b : ℕ) → table_steps k (bit_xor a b) ≡ bit_xor (table_steps k a) (table_steps k b)
unfolding table_steps
table_steps-bit_xor zero a b = refl
table_steps-bit_xor (suc k) a b =
    ap (table_steps k) (table_step-bit_xor a b)
    ∙ table_steps-bit_xor k (table_step a) (table_step b)

double : (k b : ℕ) → 2 ^ suc k * b ≡ 2 * (2 ^ k * b)
double k b = ap (λ t. t * b) (pow-suc 2 k) ∙ grind arith

steps_even : (k b : ℕ) → table_steps k (2 ^ k * b) ≡ b
unfolding table_steps
steps_even zero b = omega arith
steps_even (suc k) b =
    ap (table_steps k)
      (step_even (2 ^ suc k * b) (omega (arith, double k b)) ∙ omega (arith, double k b))
    ∙ steps_even k b

disjoint : (k a b : ℕ) → a < 2 ^ k → bit_xor a (2 ^ k * b) ≡ a + 2 ^ k * b
disjoint zero a b h =
    ap (λ t. bit_xor t (2 ^ 0 * b)) (omega arith) ∙ (zero-bit_xor (2 ^ 0 * b) ∙ omega arith)
disjoint (suc k) a b h =
    let m : ℕ = 2 ^ k * b in
    let half : (2 * m) / 2 ≡ m = omega arith in
    ap (bit_xor a) (double k b)
    ∙ (omega (
      arith,
      bit_xor_parity a (2 * m),
      bit_xor_half a (2 * m),
      ap (bit_xor (a / 2)) half,
      disjoint k (a / 2) b (omega (arith, pow-suc 2 k)),
    )
        ∙ ap (λ t. a + t) (sym (double k b)))

halves : (k c : ℕ) → c / 2 ^ suc k ≡ c / 2 / 2 ^ k
halves k c = ap (λ t. c / t) (pow-suc 2 k ∙ omega arith) ∙ sym (div-div-eq-div-mul c 2 (2 ^ k))

high_bits : (k c b : ℕ) → b < 2 ^ k → bit_xor c b / 2 ^ k ≡ c / 2 ^ k
high_bits zero c b h = ap (λ t. t / 1) (ap (bit_xor c) (omega arith) ∙ bit_xor_zero c)
high_bits (suc k) c b h =
    halves k (bit_xor c b)
    ∙ (ap (λ t. t / 2 ^ k) (bit_xor_half c b)
        ∙ (high_bits k (c / 2) (b / 2) (omega (arith, pow-suc 2 k)) ∙ sym (halves k c)))

-- Eight steps shift the high bits, and reduce the low ones.
eight_steps : (z : ℕ) → table_steps 8 z ≡ bit_xor (table_steps 8 (z % 256)) (z / 256)
eight_steps z =
    ap (table_steps 8) split
    ∙ (table_steps-bit_xor 8 (z % 256) (2 ^ 8 * (z / 256))
        ∙ ap (bit_xor (table_steps 8 (z % 256))) (steps_even 8 (z / 256)))
  where
    split : z ≡ bit_xor (z % 256) (2 ^ 8 * (z / 256))
    split = omega (arith, disjoint 8 (z % 256) (z / 256) (omega arith))

crc_byte-table_steps : (c byte : ℕ) → byte < 256 → crc_byte c byte ≡ table_steps 8 (bit_xor c byte)
unfolding crc_byte crc_table
crc_byte-table_steps c byte h =
    let low : ℕ = bit_xor c byte % 256 in
    let entry : get_or (table_from 256 0) low 0 ≡ table_steps 8 low =
      get_or-table_from 256 0 low (omega arith) ∙ ap (table_steps 8) (omega arith) in
    let high : bit_xor c byte / 256 ≡ c / 256 = high_bits 8 c byte h in
    rw (entry, ← high) (sym (eight_steps (bit_xor c byte)))

crc_bytes-serial_bytes :
    (c : ℕ) (bytes : List ℕ) → All (λ b. b < 256) bytes → crc_bytes c bytes ≡ serial_bytes c bytes
unfolding crc_bytes serial_bytes
crc_bytes-serial_bytes c [] h = refl
crc_bytes-serial_bytes c (byte ∷ bytes) (h, hs) =
    ap (λ t. crc_bytes t bytes) (crc_byte-table_steps c byte h)
    ∙ crc_bytes-serial_bytes (table_steps 8 (bit_xor c byte)) bytes hs

-- The checksum by the table is the one that divides out the bits one at a time, for any bytes and any
-- checksum to go on from.
pub crc32-serial_bytes :
    (bytes : List ℕ) (crc : ℕ)
    → All (λ b. b < 256) bytes
    → crc32 bytes crc ≡ complement (serial_bytes (complement crc) bytes)
unfolding crc32
crc32-serial_bytes bytes crc h = ap complement (crc_bytes-serial_bytes (complement crc) bytes h)
