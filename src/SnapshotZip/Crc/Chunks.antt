-- ===== src/SnapshotZip/Crc/Chunks.antt =====
-- The checksum of bytes that come in chunks.
use Prim.Native.Nat.{bit_xor}
use yurt_playground.Base.{
  ℕ, zero, suc, ◌+◌, ◌/◌, ◌%◌, ◌^◌, ◌<◌, ◌≡◌, refl, sym, ap, ◌∙◌, List, [], ◌∷◌, ◌++◌, get_or,
  arith, ◌==◌, inl, inr, Bool-cases,
}
use yurt_playground.SnapshotZip.Bits.{bit_xor-lt}
use yurt_playground.SnapshotZip.Crc.{
  polynomial, table_step, table_steps, table_from, crc_table, complement, crc_byte, crc_bytes,
  crc32,
}
use yurt_playground.SnapshotZip.Crc.Serial.{get_or-table_from}

table_step-lt : (c : ℕ) → c < 2 ^ 32 → table_step c < 2 ^ 32
unfolding table_step
table_step-lt c h = elim (Bool-cases (c % 2 == 1)) [
  | inl e ↦ rw e (bit_xor-lt 32 polynomial (c / 2) (omega arith) (omega arith))
  | inr e ↦ rw e (omega arith)
]

table_steps-lt : (k c : ℕ) → c < 2 ^ 32 → table_steps k c < 2 ^ 32
unfolding table_steps
table_steps-lt zero c h = h
table_steps-lt (suc k) c h = table_steps-lt k (table_step c) (table_step-lt c h)

crc_byte-lt : (c byte : ℕ) → c < 2 ^ 32 → crc_byte c byte < 2 ^ 32
unfolding crc_byte crc_table
crc_byte-lt c byte h =
    let low : ℕ = bit_xor c byte % 256 in
    let entry : get_or (table_from 256 0) low 0 ≡ table_steps 8 (0 + low) =
      get_or-table_from 256 0 low (omega arith) in
    rw entry (
      bit_xor-lt 32 (table_steps 8 (0 + low)) (c / 256) (table_steps-lt 8 (0 + low) (omega arith))
        (omega arith))

crc_bytes-lt : (c : ℕ) (bytes : List ℕ) → c < 2 ^ 32 → crc_bytes c bytes < 2 ^ 32
unfolding crc_bytes
crc_bytes-lt c [] h = h
crc_bytes-lt c (byte ∷ bytes) h = crc_bytes-lt (crc_byte c byte) bytes (crc_byte-lt c byte h)

crc_bytes-append : (c : ℕ) (xs ys : List ℕ) → crc_bytes c (xs ++ ys) ≡ crc_bytes (crc_bytes c xs) ys
unfolding crc_bytes
crc_bytes-append c [] ys = refl
crc_bytes-append c (x ∷ xs) ys = crc_bytes-append (crc_byte c x) xs ys

pub complement-lt : (c : ℕ) → complement c < 2 ^ 32
unfolding complement
complement-lt c = omega arith

complement_twice : (c : ℕ) → c < 2 ^ 32 → complement (complement c) ≡ c
unfolding complement
complement_twice c h = omega arith

-- Bytes that come in two chunks have the checksum of the bytes: that of the second chunk, going on from
-- that of the first.
pub crc32-append : (xs ys : List ℕ) (crc : ℕ) → crc32 (xs ++ ys) crc ≡ crc32 ys (crc32 xs crc)
unfolding crc32
crc32-append xs ys crc = ap complement (
    crc_bytes-append (complement crc) xs ys
    ∙ ap (λ t. crc_bytes t ys)
        (sym (
          complement_twice (crc_bytes (complement crc) xs)
            (crc_bytes-lt (complement crc) xs (complement-lt crc)))))

pub crc32-lt : (bytes : List ℕ) (crc : ℕ) → crc32 bytes crc < 2 ^ 32
unfolding crc32
crc32-lt bytes crc = complement-lt (crc_bytes (complement crc) bytes)

pub crc32_nil : (crc : ℕ) → crc < 2 ^ 32 → crc32 [] crc ≡ crc
unfolding crc32 crc_bytes
crc32_nil crc h = complement_twice crc h
