-- ===== src/Pins/Snapshot.antt =====
-- src/pins.ts: a snapshot's pin and its store's, checked as they are read.
use yurt_playground.Base.{
  ℕ, suc, Bool, true, false, ◌&&◌, ◌||◌, [], ◌∷◌, ◌++◌, Option, none, some, Text, chars, Outcome,
  ok, err, ◌>>=◌, ◌==◌, if◌then◌else◌, length, leb, ltb, ℤ, pos, negsuc, is_digit,
}
use yurt_playground.StoreLog.{max_safe_integer}
use yurt_playground.Pins.{PinError, required_text}
use yurt_playground.Pins.Value.{
  Json, Items, null, string, integer, array, no_items, item, get, is_object, is_text,
}

pub record SnapshotIdentity : Type 0 where
  pub kernel_sha256 : Text
  pub kernel_rev : Text
  pub seal_version : ℤ
  pub boot_setup : ℤ
  pub image_sha256 : Text
  pub python_seal_sha256 : Option Text

pub record BuiltFrom : Type 0 where
  pub identity : SnapshotIdentity
  pub python_set : Option Text

pub record StoreIdentity : Type 0 where
  pub lineage : Text
  pub sequence : Text
  pub hash : Text

pub record StorePin : Type 0 where
  pub identity : StoreIdentity
  pub files : ℕ
  pub bytes : ℕ
  pub piece_bytes : ℕ

pub record SnapshotPin : Type 0 where
  pub release_repo : Text
  pub release : Text
  pub format : ℤ
  pub sha256 : Text
  pub size : ℕ
  pub built_from : BuiltFrom
  pub memory_bytes : Option ℕ
  pub contents : Option Json
  pub restore_peak_mib : Option ℕ
  pub store : Option StorePin

unfoldable pub is_hex_digit : ℕ → Bool
is_hex_digit c = is_digit c || (leb 97 c && leb c 102)

abbrev pub all_chars : (ℕ → Bool) → Text → Bool
all_chars f [] = true
all_chars f (c ∷ s) = f c && all_chars f s

-- `^[0-9a-f]{n}$`.
unfoldable pub is_hex : ℕ → Text → Bool
unfolding is_hex_digit
is_hex n s = length s == n && all_chars is_hex_digit s

-- `^(0|[1-9][0-9]*)$`.
unfoldable pub is_decimal : Text → Bool
is_decimal [] = false
is_decimal (c ∷ []) = is_digit c
is_decimal (c ∷ d ∷ s) = leb 49 c && leb c 57 && all_chars is_digit (d ∷ s)

unfoldable pub hex_text : ℕ → PinError → Option Json → Outcome PinError Text
hex_text n thrown (some (string s)) = if is_hex n s then ok s else err thrown
hex_text n thrown _ = err thrown

-- An integer above 0, of any size (`Number.isInteger`).
unfoldable pub positive : PinError → Option Json → Outcome PinError ℕ
positive thrown (some (integer (pos (suc n)))) = ok (suc n)
positive thrown _ = err thrown

-- A safe integer of at least `low`.
unfoldable pub safe_from : ℕ → PinError → Option Json → Outcome PinError ℕ
safe_from low thrown (some (integer (pos n))) =
    if leb low n && leb n max_safe_integer then ok n else err thrown
safe_from low thrown _ = err thrown

abbrev pub any_integer : PinError → Option Json → Outcome PinError ℤ
any_integer thrown (some (integer z)) = ok z
any_integer thrown _ = err thrown

unfoldable pub decimal_text : PinError → Option Json → Outcome PinError Text
unfolding is_decimal
decimal_text thrown (some (string s)) = if is_decimal s then ok s else err thrown
decimal_text thrown _ = err thrown

-- `fail` of a snapshot's pin.
abbrev pub snapshot_error : Text → PinError
snapshot_error what = chars "snapshot." ++ what

abbrev identity_error : PinError
identity_error =
    chars "snapshot.store.identity must be {lineage: 16 bytes hex, sequence: decimal, hash: sha256}"

unfoldable pub parse_store_identity : Option Json → Outcome PinError StoreIdentity
unfolding hex_text decimal_text
parse_store_identity raw = hex_text 32 identity_error (get (chars "lineage") raw) >>= (λ lineage.
    hex_text 64 identity_error (get (chars "hash") raw) >>= (λ hash.
      decimal_text identity_error (get (chars "sequence") raw)
      >>= (λ sequence. ok (record { lineage = lineage; sequence = sequence; hash = hash }))))

abbrev piece_error : PinError
piece_error = chars "snapshot.store.pieceBytes must be a positive integer, at most store.bytes"

unfoldable pub parse_store_pin : Option Json → Outcome PinError StorePin
unfolding parse_store_identity safe_from
parse_store_pin raw = parse_store_identity (get (chars "identity") raw) >>= (λ identity.
    safe_from 2 (snapshot_error (chars "store.files must be an integer of at least 2"))
      (get (chars "files") raw)
    >>= (λ files.
        safe_from 1 (snapshot_error (chars "store.bytes must be a positive integer"))
          (get (chars "bytes") raw)
        >>= (λ bytes. safe_from 1 piece_error (get (chars "pieceBytes") raw) >>= (λ pieces.
            if ltb bytes pieces
            then err piece_error
            else ok (record {
              identity = identity;
              files = files;
              bytes = bytes;
              piece_bytes = pieces;
            })))))

-- Null, or what `read` takes.
unfoldable pub nullable :
    (Option Json → Outcome PinError Text) → Option Json → Outcome PinError (Option Text)
nullable read (some null) = ok none
nullable read value = read value >>= (λ text. ok (some text))

unfoldable pub parse_built_from : Option Json → Outcome PinError BuiltFrom
unfolding hex_text nullable required_text
parse_built_from built =
    let both = snapshot_error (chars "builtFrom must name the kernel and image sha256") in
    hex_text 64 both (get (chars "kernelSha256") built) >>= (λ kernel.
      hex_text 64 both (get (chars "imageSha256") built) >>= (λ image.
        nullable
          (hex_text 64
            (snapshot_error (chars "builtFrom.pythonSealSha256 must be a sha256 or null")))
          (get (chars "pythonSealSha256") built)
        >>= (λ seal.
            required_text (snapshot_error (chars "builtFrom.kernelRev must be a string"))
              (get (chars "kernelRev") built)
            >>= (λ rev.
                any_integer (snapshot_error (chars "builtFrom.sealVersion must be an integer"))
                  (get (chars "sealVersion") built)
                >>= (λ version.
                    any_integer (snapshot_error (chars "builtFrom.bootSetup must be an integer"))
                      (get (chars "bootSetup") built)
                    >>= (λ setup.
                        nullable
                          (required_text
                            (snapshot_error (chars "builtFrom.pythonSet must be a string or null")))
                          (get (chars "pythonSet") built)
                        >>= (λ set. ok (record {
                          identity = record {
                            kernel_sha256 = kernel;
                            kernel_rev = rev;
                            seal_version = version;
                            boot_setup = setup;
                            image_sha256 = image;
                            python_seal_sha256 = seal;
                          };
                          python_set = set;
                        }))))))))

abbrev pub optional : (Option Json → Outcome PinError ℕ) → Option Json → Outcome PinError (Option ℕ)
optional read none = ok none
optional read (some value) = read (some value) >>= (λ n. ok (some n))

-- `format >= 4`.
unfoldable pub needs_memory : ℤ → Bool
needs_memory (pos n) = leb 4 n
needs_memory (negsuc n) = false

unfoldable pub read_memory : ℤ → Option Json → Outcome PinError (Option ℕ)
unfolding positive needs_memory
read_memory format value =
    let thrown = snapshot_error (chars "memoryBytes must be a positive integer") in
    if needs_memory format
    then positive thrown value >>= (λ n. ok (some n))
    else optional (positive thrown) value

unfoldable pub is_package : Json → Bool
is_package value =
    is_object (some value)
    && is_text (get (chars "name") (some value))
    && is_text (get (chars "version") (some value))
    && is_text (get (chars "build") (some value))

unfoldable pub every_package : Items → Bool
unfolding is_package
every_package no_items = true
every_package (item value rest) = is_package value && every_package rest

unfoldable pub packages_ok : Option Json → Bool
unfolding every_package
packages_ok (some (array items)) = every_package items
packages_ok _ = false

unfoldable pub read_contents : Option Json → Outcome PinError (Option Json)
unfolding packages_ok
read_contents none = ok none
read_contents (some value) =
    if is_text (get (chars "remark") (some value))
      && packages_ok (get (chars "packages") (some value))
    then ok (some value)
    else err
        (snapshot_error (chars "contents must be {packages: [{name, version, build}], remark}"))

unfoldable pub read_store : Option Json → Outcome PinError (Option StorePin)
unfolding parse_store_pin
read_store none = ok none
read_store (some store) = parse_store_pin (some store) >>= (λ pin. ok (some pin))

unfoldable pub parse_snapshot_pin : Option Json → Outcome PinError SnapshotPin
unfolding required_text hex_text positive parse_built_from read_memory read_contents read_store
parse_snapshot_pin raw =
    required_text (snapshot_error (chars "releaseRepo must be a string"))
      (get (chars "releaseRepo") raw)
    >>= (λ repo.
        required_text (snapshot_error (chars "release must be a string"))
          (get (chars "release") raw)
        >>= (λ release.
            any_integer (snapshot_error (chars "format must be an integer"))
              (get (chars "format") raw)
            >>= (λ format.
                hex_text 64 (snapshot_error (chars "sha256 must be a lowercase sha256"))
                  (get (chars "sha256") raw)
                >>= (λ sha256.
                    positive (snapshot_error (chars "size must be a positive integer"))
                      (get (chars "size") raw)
                    >>= (λ size. parse_built_from (get (chars "builtFrom") raw) >>= (λ built.
                        read_memory format (get (chars "memoryBytes") raw) >>= (λ memory.
                          optional
                            (positive
                              (snapshot_error (chars "restorePeakMiB must be a positive integer")))
                            (get (chars "restorePeakMiB") raw)
                          >>= (λ peak. read_contents (get (chars "contents") raw) >>= (λ contents.
                              read_store (get (chars "store") raw) >>= (λ store. ok (record {
                                release_repo = repo;
                                release = release;
                                format = format;
                                sha256 = sha256;
                                size = size;
                                built_from = built;
                                memory_bytes = memory;
                                contents = contents;
                                restore_peak_mib = peak;
                                store = store;
                              })))))))))))
