-- ===== src/SnapshotZip/Header/Fields.antt =====
-- What a reader finds in a header and in the end record.
use yurt_playground.Base.{
  ℕ, ◌+◌, ◌^◌, ◌≤◌, ◌<◌, ◌≡◌, refl, ◌⊎◌, inl, inr, List, ◌++◌, length, take, drop, arith,
}
use yurt_playground.StoreLog.Record.{little_endian}
use yurt_playground.StoreLog.Record.Trip.{read_little_endian-little_endian}
use yurt_playground.SnapshotZip.{
  local_signature, central_signature, end_signature, stored, deflated,
}
use yurt_playground.SnapshotZip.Header.{HeaderFields, header, end_record, central_end}
use yurt_playground.SnapshotZip.Reader.{get_u16, get_u32}

-- The thirty bytes of a local header, without the name.
pub fixed_part : HeaderFields → List ℕ
unfolding header
fixed_part f = take 30 (header local_signature f 0)

pub header-fixed_part :
    (f : HeaderFields) (offset : ℕ) → header local_signature f offset ≡ fixed_part f ++ f.name
unfolding header fixed_part central_end little_endian
header-fixed_part f offset = refl

pub length-fixed_part : (f : HeaderFields) → length (fixed_part f) ≡ 30
unfolding header fixed_part central_end little_endian
length-fixed_part f = refl

-- The numbers of a header that fit their fields.
pub record IsWritable (f : HeaderFields) : Type 0 where
  pub known_method : (f.method ≡ stored) ⊎ (f.method ≡ deflated)
  pub crc_fits : f.crc < 256 ^ 4
  pub compressed_fits : f.compressed < 256 ^ 4
  pub size_fits : f.size < 256 ^ 4
  pub name_fits : length f.name < 256 ^ 2

pub fixed_part-fields :
    (f : HeaderFields)
    → IsWritable f
    → (get_u32 0 (fixed_part f) ≡ local_signature)
      × (get_u16 8 (fixed_part f) ≡ f.method)
      × (get_u32 14 (fixed_part f) ≡ f.crc)
      × (get_u32 18 (fixed_part f) ≡ f.compressed)
      × (get_u32 22 (fixed_part f) ≡ f.size)
      × (get_u16 26 (fixed_part f) ≡ length f.name)
      × (get_u16 28 (fixed_part f) ≡ 0)
      × (get_u16 6 (fixed_part f) ≡ 0)
unfolding header fixed_part central_end little_endian
fixed_part-fields f w = (
  read_little_endian-little_endian 4 local_signature (omega arith),
  read_little_endian-little_endian 2 f.method
      (elim (w.known_method) [ inl e ↦ rw e (omega arith) | inr e ↦ rw e (omega arith) ]),
  read_little_endian-little_endian 4 f.crc w.crc_fits,
  read_little_endian-little_endian 4 f.compressed w.compressed_fits,
  read_little_endian-little_endian 4 f.size w.size_fits,
  read_little_endian-little_endian 2 (length f.name) w.name_fits,
  read_little_endian-little_endian 2 0 (omega arith),
  read_little_endian-little_endian 2 0 (omega arith),
)

-- A central header is longer than a local one, and starts with its own signature.
pub header-central :
    (f : HeaderFields) (offset : ℕ) (more : List ℕ)
    → (get_u32 0 (take 30 (header central_signature f offset ++ more)) ≡ central_signature)
      × (take 30 (header central_signature f offset ++ more)
            ++ drop 30 (header central_signature f offset ++ more)
          ≡ header central_signature f offset ++ more)
      × (30 ≤ length (header central_signature f offset ++ more))
unfolding header central_end little_endian
header-central f offset more =
    (read_little_endian-little_endian 4 central_signature (omega arith), refl, omega arith)

pub end_record-fields :
    (entries central_bytes offset : ℕ)
    → entries < 256 ^ 2
    → (length (end_record entries central_bytes offset) ≡ 22)
      × (get_u32 0 (end_record entries central_bytes offset) ≡ end_signature)
      × (get_u16 10 (end_record entries central_bytes offset) ≡ entries)
unfolding end_record little_endian
end_record-fields entries central_bytes offset h = (
  refl,
  read_little_endian-little_endian 4 end_signature (omega arith),
  read_little_endian-little_endian 2 entries h,
)

pub length-header_central :
    (f : HeaderFields) (offset : ℕ)
    → length (header central_signature f offset) ≡ 46 + length f.name
unfolding header central_end little_endian
length-header_central f offset = omega arith
