-- ===== src/SnapshotZip.antt =====
-- src/snapshot_zip.ts: the zip that a sandbox snapshot is. This file has its numbers, the types of its
-- entries and chunkRanges; the children have crc32, the headers, writeZip and class ZipStreamReader.
pub mod Bits
pub mod Crc
pub mod Header
pub mod Writer
pub mod Reader
pub mod Unzip
pub mod Trip
mod Tests
use yurt_playground.Base.{
  ℕ, zero, suc, ◌+◌, ◌-◌, ◌*◌, ◌/◌, ◌^◌, Bool, List, [], ◌∷◌, ◌++◌, Text, min,
}

abbrev pub local_signature : ℕ
local_signature = 0x04034b50

abbrev pub central_signature : ℕ
central_signature = 0x02014b50

abbrev pub end_signature : ℕ
end_signature = 0x06054b50

abbrev pub stored : ℕ
stored = 0

abbrev pub deflated : ℕ
deflated = 8

-- `(0 << 9) | (1 << 5) | 1`: the bits of a year, a month and a day do not overlap.
abbrev pub dos_date : ℕ
dos_date = 0 * 512 + 1 * 32 + 1

abbrev pub limit : ℕ
limit = 0xffff_ffff

-- The contents are the chunks they were handed over in; whole bytes are one chunk.
pub record ZipEntryInput : Type 0 where
  pub name : Text
  pub bytes : List (List ℕ)
  pub deflate : Bool

pub record ZipEntry : Type 0 where
  pub name : Text
  pub crc : ℕ
  pub size : ℕ
  pub compressed : ℕ
  pub method : ℕ

abbrev pub chunk_step : ℕ
chunk_step = 2 ^ 20

-- `n` ranges from the `i`th on, of `byte_length` bytes.
ranges_from : ℕ → ℕ → ℕ → List (ℕ × ℕ)
ranges_from zero i byte_length = []
ranges_from (suc n) i byte_length =
    (i * chunk_step, min ((i + 1) * chunk_step) byte_length) ∷ ranges_from n (i + 1) byte_length

-- The count is the length over the step, rounded up.
unfoldable pub chunk_ranges : ℕ → List (ℕ × ℕ)
unfolding ranges_from
chunk_ranges byte_length = ranges_from ((byte_length + (chunk_step - 1)) / chunk_step) 0 byte_length

abbrev pub join_chunks : List (List ℕ) → List ℕ
join_chunks [] = []
join_chunks (chunk ∷ chunks) = chunk ++ join_chunks chunks

-- What is thrown, by the message.
pub data ZipError : Type 0 where
  entry_too_large : Text → ZipError
  zip_too_large : ZipError
  truncated_in : Text → ZipError
  truncated_of : ℕ → ℕ → Text → ZipError
  is_gzip not_zip encrypted_or_descriptor : ZipError
  unknown_method : ℕ → ZipError
  stored_but_resized : Text → ZipError
  corrupt : Text → ZipError
  inflates_past : Text → ℕ → ZipError
  inflates_to : Text → ℕ → ℕ → ZipError
  wrong_crc : Text → ℕ → ℕ → ZipError
  over_bytes : Text → ℕ → ZipError
  out_of_range : ZipError
  runs_on no_end : ZipError
  names_entries : ℕ → ℕ → ZipError
