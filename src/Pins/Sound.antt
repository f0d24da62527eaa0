-- ===== src/Pins/Sound.antt =====
-- What the reading of a snapshot's pin guarantees of what it returns.
pub mod Forms
pub mod Values
use yurt_playground.Base.{
  ℕ, zero, suc, ◌+◌, ◌≤◌, ◌<◌, ◌≡◌, refl, sym, ap, ◌∙◌, ◌⊎◌, inl, inr, Bool, true, false, ◌&&◌,
  List, [], ◌∷◌, Option, none, some, Text, chars, Outcome, ok, err, ◌>>=◌, >>=-eq-ok, if◌then◌else◌,
  ltb, leb, arith, Bool-cases, ok-injective, ℤ, pos, negsuc,
}
use yurt_playground.StoreLog.{max_safe_integer}
use yurt_playground.Pins.{PinError, required_text}
use yurt_playground.Pins.Value.{Json, get, is_text}
use yurt_playground.Pins.Snapshot.{
  SnapshotIdentity, BuiltFrom, StoreIdentity, StorePin, SnapshotPin, is_hex, is_decimal, hex_text,
  decimal_text, positive, safe_from, parse_store_identity, parse_store_pin, nullable,
  parse_built_from, needs_memory, read_memory, read_store, parse_snapshot_pin, any_integer,
  optional, read_contents, snapshot_error, packages_ok,
}
use yurt_playground.Pins.Sound.Forms.{IsHex, IsDecimal, IsNonempty, IsContents, contents-IsContents}
use yurt_playground.Pins.Sound.Values.{
  Holds, hex_text-ok, decimal_text-ok, required_text-ok, positive-ok, safe_from-ok, nullable-ok,
  optional-positive-ok,
}

pub record IsStore (s : StorePin) : Type 0 where
  pub lineage_hex : IsHex 32 s.identity.lineage
  pub hash_hex : IsHex 64 s.identity.hash
  pub sequence_decimal : IsDecimal s.identity.sequence
  pub files_low : 2 ≤ s.files
  pub pieces_low : 1 ≤ s.piece_bytes
  pub pieces_high : s.piece_bytes ≤ s.bytes
  pub bytes_safe : s.bytes ≤ max_safe_integer

pub record IsWellFormed (p : SnapshotPin) : Type 0 where
  pub repo_given : IsNonempty p.release_repo
  pub release_given : IsNonempty p.release
  pub sha256_hex : IsHex 64 p.sha256
  pub size_positive : 1 ≤ p.size
  pub kernel_hex : IsHex 64 p.built_from.identity.kernel_sha256
  pub rev_given : IsNonempty p.built_from.identity.kernel_rev
  pub image_hex : IsHex 64 p.built_from.identity.image_sha256
  pub seal_hex : Holds (IsHex 64) p.built_from.identity.python_seal_sha256
  pub set_given : Holds IsNonempty p.built_from.python_set
  pub memory_positive : Holds (λ n. 1 ≤ n) p.memory_bytes
  pub memory_given : (f : ℕ) → p.format ≡ pos f → 4 ≤ f → (n : ℕ) × (p.memory_bytes ≡ some n)
  pub contents : Holds IsContents p.contents
  pub peak_positive : Holds (λ n. 1 ≤ n) p.restore_peak_mib
  pub store : Holds IsStore p.store

parse_store_identity-ok :
    (raw : Option Json) (i : StoreIdentity)
    → parse_store_identity raw ≡ ok i
    → IsHex 32 i.lineage × IsHex 64 i.hash × IsDecimal i.sequence
unfolding parse_store_identity
parse_store_identity-ok raw i h =
    let (lineage, a, h1) = >>=-eq-ok (hex_text 32 _ (get (chars "lineage") raw)) _ h in
    let (hash, b, h2) = >>=-eq-ok (hex_text 64 _ (get (chars "hash") raw)) _ h1 in
    let (sequence, c, h3) = >>=-eq-ok (decimal_text _ (get (chars "sequence") raw)) _ h2 in
    let same : record { lineage = lineage; sequence = sequence; hash = hash } ≡ i = cc in
    rw (← same) (
      hex_text-ok 32 _ (get (chars "lineage") raw) lineage a,
      hex_text-ok 64 _ (get (chars "hash") raw) hash b,
      decimal_text-ok _ (get (chars "sequence") raw) sequence c,
    )

parse_store_pin-IsStore :
    (raw : Option Json) (s : StorePin) → parse_store_pin raw ≡ ok s → IsStore s
unfolding parse_store_pin
parse_store_pin-IsStore raw s h =
    let (identity, a, h1) = >>=-eq-ok (parse_store_identity (get (chars "identity") raw)) _ h in
    let (files, b, h2) = >>=-eq-ok (safe_from 2 _ (get (chars "files") raw)) _ h1 in
    let (bytes, c, h3) = >>=-eq-ok (safe_from 1 _ (get (chars "bytes") raw)) _ h2 in
    let (pieces, d, h4) = >>=-eq-ok (safe_from 1 _ (get (chars "pieceBytes") raw)) _ h3 in
    elim (Bool-cases (ltb bytes pieces)) [
      | inl e ↦ let h5 = rw e at h4 in cc
      | inr e ↦
          let h5 = rw e at h4 in
          let same : record {
            identity = identity;
            files = files;
            bytes = bytes;
            piece_bytes = pieces;
          }
              ≡ s =
            cc in
          let (lineage, hash, sequence) =
            parse_store_identity-ok (get (chars "identity") raw) identity a in
          rw (← same) (record {
            lineage_hex = lineage;
            hash_hex = hash;
            sequence_decimal = sequence;
            files_low = (safe_from-ok 2 _ (get (chars "files") raw) files b).0;
            pieces_low = (safe_from-ok 1 _ (get (chars "pieceBytes") raw) pieces d).0;
            pieces_high = ground arith;
            bytes_safe = (safe_from-ok 1 _ (get (chars "bytes") raw) bytes c).1;
          })
    ]

parse_built_from-ok :
    (built : Option Json) (b : BuiltFrom)
    → parse_built_from built ≡ ok b
    → IsHex 64 b.identity.kernel_sha256
      × IsHex 64 b.identity.image_sha256
      × Holds (IsHex 64) b.identity.python_seal_sha256
      × IsNonempty b.identity.kernel_rev
      × Holds IsNonempty b.python_set
unfolding parse_built_from
parse_built_from-ok built b h =
    let (kernel, a, h1) = >>=-eq-ok (hex_text 64 _ (get (chars "kernelSha256") built)) _ h in
    let (image, c, h2) = >>=-eq-ok (hex_text 64 _ (get (chars "imageSha256") built)) _ h1 in
    let (seal, d, h3) =
      >>=-eq-ok
        (nullable
          (hex_text 64
            (snapshot_error (chars "builtFrom.pythonSealSha256 must be a sha256 or null")))
          (get (chars "pythonSealSha256") built))
        _ h2 in
    let (rev, e, h4) = >>=-eq-ok (required_text _ (get (chars "kernelRev") built)) _ h3 in
    let (version, f, h5) = >>=-eq-ok (any_integer _ (get (chars "sealVersion") built)) _ h4 in
    let (setup, g, h6) = >>=-eq-ok (any_integer _ (get (chars "bootSetup") built)) _ h5 in
    let (set, i, h7) =
      >>=-eq-ok
        (nullable
          (required_text (snapshot_error (chars "builtFrom.pythonSet must be a string or null")))
          (get (chars "pythonSet") built))
        _ h6 in
    let identity : SnapshotIdentity = record {
      kernel_sha256 = kernel;
      kernel_rev = rev;
      seal_version = version;
      boot_setup = setup;
      image_sha256 = image;
      python_seal_sha256 = seal;
    } in
    let same : record { identity = identity; python_set = set } ≡ b = cc in
    rw (← same) (
      hex_text-ok 64 _ (get (chars "kernelSha256") built) kernel a,
      hex_text-ok 64 _ (get (chars "imageSha256") built) image c,
      nullable-ok (IsHex 64) (hex_text 64 _) (hex_text-ok 64 _)
          (get (chars "pythonSealSha256") built) seal d,
      required_text-ok _ (get (chars "kernelRev") built) rev e,
      nullable-ok IsNonempty (required_text _) (required_text-ok _) (get (chars "pythonSet") built)
          set i,
    )

needs_memory-some :
    (format : ℤ) (value : Option Json) (m : Option ℕ) (f : ℕ)
    → read_memory format value ≡ ok m
    → format ≡ pos f
    → 4 ≤ f
    → (n : ℕ) × (m ≡ some n)
unfolding read_memory needs_memory
needs_memory-some format value m f h same high =
    let needs : needs_memory format ≡ true = rw same (ground arith) in
    let h' = rw needs at h in let (n, a, h1) = >>=-eq-ok (positive _ value) _ h' in (n, cc)

read_memory-ok :
    (format : ℤ) (value : Option Json) (m : Option ℕ)
    → read_memory format value ≡ ok m
    → Holds (λ n. 1 ≤ n) m
unfolding read_memory
read_memory-ok format value m h = elim (Bool-cases (needs_memory format)) [
  | inl e ↦
      let h' = rw e at h in
      let (n, a, h1) = >>=-eq-ok (positive _ value) _ h' in
      let same : some n ≡ m = cc in rw (← same) (positive-ok _ value n a)
  | inr e ↦ let h' = rw e at h in optional-positive-ok _ value m h'
]

read_contents-ok :
    (value : Option Json) (c : Option Json) → read_contents value ≡ ok c → Holds IsContents c
unfolding read_contents
read_contents-ok none c h = let same : none ≡ c = cc in rw (← same) tt
read_contents-ok (some value) c h =
    elim (Bool-cases (
      is_text (get (chars "remark") (some value))
      && packages_ok (get (chars "packages") (some value)))) [
        | inl e ↦
            let h' = rw e at h in
            let same : some value ≡ c = cc in rw (← same) (contents-IsContents value e)
        | inr e ↦ let h' = rw e at h in cc
      ]

read_store-ok :
    (value : Option Json) (s : Option StorePin) → read_store value ≡ ok s → Holds IsStore s
unfolding read_store
read_store-ok none s h = let same : none ≡ s = cc in rw (← same) tt
read_store-ok (some store) s h =
    let (pin, a, h1) = >>=-eq-ok (parse_store_pin (some store)) _ h in
    let same : some pin ≡ s = cc in rw (← same) (parse_store_pin-IsStore (some store) pin a)

-- A snapshot's pin that is read is well formed: its release, the release's repository and its kernel's
-- revision are not empty, and a set of Pythons that it names is not; its hashes are of 64 lowercase hex
-- digits (the sealable Python's too, where it names one); its size is positive, and so are the memory and
-- the peak of a restore where it names them, and from format 4 on it names the memory; contents that it
-- lists have a remark, and a name, a version and a build of each package; and its store, where it has one,
-- has a lineage and a hash in hex and a decimal sequence, two files or more, and pieces of a byte or more
-- and no more than the files' bytes, which are a safe integer.
pub parse_snapshot_pin-IsWellFormed :
    (raw : Option Json) (p : SnapshotPin) → parse_snapshot_pin raw ≡ ok p → IsWellFormed p
unfolding parse_snapshot_pin
parse_snapshot_pin-IsWellFormed raw p h =
    let (repo, a0, h0) = >>=-eq-ok (required_text _ (get (chars "releaseRepo") raw)) _ h in
    let (release, a1, h1) = >>=-eq-ok (required_text _ (get (chars "release") raw)) _ h0 in
    let (format, a2, h2) = >>=-eq-ok (any_integer _ (get (chars "format") raw)) _ h1 in
    let (sha256, a3, h3) = >>=-eq-ok (hex_text 64 _ (get (chars "sha256") raw)) _ h2 in
    let (size, a4, h4) = >>=-eq-ok (positive _ (get (chars "size") raw)) _ h3 in
    let (built, a5, h5) = >>=-eq-ok (parse_built_from (get (chars "builtFrom") raw)) _ h4 in
    let (memory, a6, h6) = >>=-eq-ok (read_memory format (get (chars "memoryBytes") raw)) _ h5 in
    let (peak, a7, h7) =
      >>=-eq-ok
        (optional (positive (snapshot_error (chars "restorePeakMiB must be a positive integer")))
          (get (chars "restorePeakMiB") raw))
        _ h6 in
    let (contents, a8, h8) = >>=-eq-ok (read_contents (get (chars "contents") raw)) _ h7 in
    let (store, a9, h9) = >>=-eq-ok (read_store (get (chars "store") raw)) _ h8 in
    let made : SnapshotPin = record {
      release_repo = repo;
      release = release;
      format = format;
      sha256 = sha256;
      size = size;
      built_from = built;
      memory_bytes = memory;
      contents = contents;
      restore_peak_mib = peak;
      store = store;
    } in
    let same : made ≡ p = ok-injective h9 in
    let (kernel_hex, image_hex, seal_hex, rev_given, set_given) =
      parse_built_from-ok (get (chars "builtFrom") raw) built a5 in
    rw (← same) (record {
      repo_given = required_text-ok _ (get (chars "releaseRepo") raw) repo a0;
      release_given = required_text-ok _ (get (chars "release") raw) release a1;
      sha256_hex = hex_text-ok 64 _ (get (chars "sha256") raw) sha256 a3;
      size_positive = positive-ok _ (get (chars "size") raw) size a4;
      kernel_hex = kernel_hex;
      rev_given = rev_given;
      image_hex = image_hex;
      seal_hex = seal_hex;
      set_given = set_given;
      memory_positive = read_memory-ok format (get (chars "memoryBytes") raw) memory a6;
      memory_given =
          λ f at high. needs_memory-some format (get (chars "memoryBytes") raw) memory f a6 at high;
      contents = read_contents-ok (get (chars "contents") raw) contents a8;
      peak_positive = optional-positive-ok _ (get (chars "restorePeakMiB") raw) peak a7;
      store = read_store-ok (get (chars "store") raw) store a9;
    })
