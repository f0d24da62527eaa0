-- ===== src/SnapshotZip/Crc.antt =====
-- src/snapshot_zip.ts: crc32, by a table of 256 entries, and the division by bits that it stands for.
pub mod Serial
pub mod Chunks
use Prim.Native.Nat.{bit_xor}
use yurt_playground.Base.{
  ℕ, zero, suc, ◌+◌, ◌-◌, ◌*◌, ◌/◌, ◌%◌, ◌^◌, ◌≤◌, ◌<◌, ◌≡◌, refl, sym, ap, ◌∙◌, Bool, true, false,
  List, [], ◌∷◌, ◌++◌, All, ◌==◌, if◌then◌else◌, get_or, arith, ℕ_discrete,
}
use native.Mathlib.Nat.{pow-suc, div-div-eq-div-mul}
use yurt_playground.SnapshotZip.Bits.{
  zero-bit_xor, bit_xor_parity, bit_xor_half, bit_xor_zero, bit_xor_comm, bit_xor_assoc,
  bit_xor_self, bit_xor-lt,
}

abbrev pub polynomial : ℕ
polynomial = 0xedb88320

-- `c & 1 ? 0xedb88320 ^ (c >>> 1) : c >>> 1`.
unfoldable pub table_step : ℕ → ℕ
table_step c = if c % 2 == 1 then bit_xor polynomial (c / 2) else c / 2

unfoldable pub table_steps : ℕ → ℕ → ℕ
table_steps zero c = c
table_steps (suc k) c = table_steps k (table_step c)

-- The table's entries from the `i`th on.
unfoldable pub table_from : ℕ → ℕ → List ℕ
table_from zero i = []
table_from (suc n) i = table_steps 8 i ∷ table_from n (i + 1)

crc_table : List ℕ
unfolding table_from
crc_table = table_from 256 0

-- `~c >>> 0`.
unfoldable pub complement : ℕ → ℕ
complement c = 0xffff_ffff - c % 2 ^ 32

-- `crcTable[(c ^ byte) & 0xff] ^ (c >>> 8)`.
crc_byte : ℕ → ℕ → ℕ
unfolding crc_table
crc_byte c byte = bit_xor (get_or crc_table (bit_xor c byte % 256) 0) (c / 256)

crc_bytes : ℕ → List ℕ → ℕ
crc_bytes c [] = c
crc_bytes c (byte ∷ bytes) = crc_bytes (crc_byte c byte) bytes

unfoldable pub crc32 : List ℕ → ℕ → ℕ
unfolding crc_bytes crc_byte complement
crc32 bytes crc = complement (crc_bytes (complement crc) bytes)

-- The checksum without a table: a byte is added, and eight bits are divided out, one at a time.
unfoldable pub serial_bytes : ℕ → List ℕ → ℕ
unfolding table_steps
serial_bytes c [] = c
serial_bytes c (byte ∷ bytes) = serial_bytes (table_steps 8 (bit_xor c byte)) bytes
