-- ===== src/SnapshotZip/Header.antt =====
-- src/snapshot_zip.ts: header, the local and the central header of an entry, and the record that ends
-- the central directory. A number past its field is cut to its low bytes, as DataView does.
pub mod Fields
use yurt_playground.Base.{ℕ, List, [], ◌∷◌, ◌++◌, Bool, if◌then◌else◌, ◌==◌, length}
use yurt_playground.StoreLog.Record.{little_endian}
use yurt_playground.SnapshotZip.{central_signature, end_signature, dos_date}

pub record HeaderFields : Type 0 where
  pub method : ℕ
  pub crc : ℕ
  pub compressed : ℕ
  pub size : ℕ
  pub name : List ℕ

abbrev pub u16 : ℕ → List ℕ
u16 value = little_endian 2 value

abbrev pub u32 : ℕ → List ℕ
u32 value = little_endian 4 value

-- The comment's length, the disk, the attributes and the offset.
central_end : Bool → ℕ → List ℕ
unfolding little_endian
central_end central offset =
    if central then u16 0 ++ (u16 0 ++ (u16 0 ++ (u32 0 ++ u32 offset))) else []

unfoldable pub header : ℕ → HeaderFields → ℕ → List ℕ
unfolding little_endian central_end
header signature entry offset =
    let central = signature == central_signature in
    u32 signature
    ++ ((if central then u16 20 else [])
        ++ (u16 20
            ++ (u16 0
                ++ (u16 entry.method
                    ++ (u16 0
                        ++ (u16 dos_date
                            ++ (u32 entry.crc
                                ++ (u32 entry.compressed
                                    ++ (u32 entry.size
                                        ++ (u16 (length entry.name)
                                            ++ (u16 0
                                                ++ (central_end central offset
                                                    ++ entry.name))))))))))))

-- The 22 bytes of `end`: what is not set stays 0.
unfoldable pub end_record : ℕ → ℕ → ℕ → List ℕ
unfolding little_endian
end_record entries central_bytes offset =
    u32 end_signature
    ++ (u32 0 ++ (u16 entries ++ (u16 entries ++ (u32 central_bytes ++ (u32 offset ++ u16 0)))))
