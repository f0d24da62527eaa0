-- ===== src/Pins/Accepted.antt =====
-- src/snapshot_pin.ts: which snapshot a page restores (acceptedSnapshot, pinnedSnapshot, formatRefusal,
-- storeRefusal, buildMismatch, checkPythonSet), and the kinds of snapshot (SNAPSHOT_KINDS, captureKindOf).
pub mod Built
pub mod Exact
use yurt_playground.Base.{
  ℕ, zero, suc, ◌+◌, Bool, true, false, not, ◌&&◌, List, [], ◌∷◌, ◌++◌, Option, none, some, Text,
  chars, Outcome, ok, err, ◌==◌, if◌then◌else◌, text_eq, ℤ, pos, negsuc, decimal, starts_with, drop,
  length,
}
use yurt_playground.Pins.{Pins, ArtifactPin, PinError}
use yurt_playground.Pins.Value.{Json}
use yurt_playground.Pins.Snapshot.{SnapshotIdentity, BuiltFrom, SnapshotPin, parse_snapshot_pin}

pub data SnapshotKind : Type 0 where
  desktop tablet phone go : SnapshotKind

-- A row of SNAPSHOT_KINDS.
pub record KindEntry : Type 0 where
  pub pin_key : Text
  pub name : Text
  pub asset : Text
  pub capture : Text
  pub tag_prefix : Text

module _ (sandbox_snapshot_name : Text) where
  abbrev pub snapshot_kinds : SnapshotKind → KindEntry
  snapshot_kinds desktop = record {
    pin_key = chars "snapshot";
    name = sandbox_snapshot_name;
    asset = chars "sandbox.seal.zip";
    capture = chars "capture";
    tag_prefix = chars "snapshot-";
  }
  snapshot_kinds tablet = record {
    pin_key = chars "tabletSnapshot";
    name = chars "snapshot/tablet.seal.zip";
    asset = chars "tablet.seal.zip";
    capture = chars "capture-tablet";
    tag_prefix = chars "snapshot-tablet-";
  }
  snapshot_kinds phone = record {
    pin_key = chars "phoneSnapshot";
    name = chars "snapshot/phone.seal.zip";
    asset = chars "phone.seal.zip";
    capture = chars "capture-phone";
    tag_prefix = chars "snapshot-phone-";
  }
  snapshot_kinds go = record {
    pin_key = chars "goSnapshot";
    name = chars "snapshot/go.seal.zip";
    asset = chars "go.seal.zip";
    capture = chars "capture-go";
    tag_prefix = chars "snapshot-go-";
  }

  abbrev pub snapshot_kind_names : List SnapshotKind
  snapshot_kind_names = desktop ∷ tablet ∷ phone ∷ go ∷ []

  find_capture : Text → List SnapshotKind → Option SnapshotKind
  find_capture value [] = none
  find_capture value (kind ∷ kinds) =
      let rest = find_capture value kinds in
      if text_eq (snapshot_kinds kind).capture value then some kind else rest

  -- No value is `null`.
  unfoldable pub capture_kind_of : Option Text → Option SnapshotKind
  unfolding find_capture
  capture_kind_of none = none
  capture_kind_of (some value) = find_capture value snapshot_kind_names

abbrev platform : SnapshotKind → Text
platform desktop = chars "desktop"
platform tablet = chars "tablet"
platform phone = chars "phone"
platform go = chars "go"

abbrev pub kind_query : SnapshotKind → Text
kind_query go = chars "platform=desktop&env=go"
kind_query kind = chars "platform=" ++ platform kind

abbrev pub seal_version : ℤ
seal_version = pos 1

abbrev pub boot_setup_version : ℤ
boot_setup_version = pos 2

abbrev pub snapshot_format : ℤ
snapshot_format = pos 4

-- What a layer is asked for by: its label, its set of packages and the image's hash.
pub record SetRequest : Type 0 where
  pub label : Text
  pub set : List Text
  pub image : Text

abbrev set_request : Text → List Text → Option ArtifactPin → Option SetRequest
set_request label set none = none
set_request label set (some image) =
    some (record { label = label; set = set; image = image.sha256 })

pub tablet_python_request : Pins → Option SetRequest
tablet_python_request pins = set_request (chars "Python") (chars "python" ∷ []) pins.browser_image

pub go_set_request : Pins → Option SetRequest
go_set_request pins = set_request (chars "Go") (chars "go" ∷ []) pins.browser_image

abbrev image_of : Option ArtifactPin → ArtifactPin → ArtifactPin
image_of (some image) default = image
image_of none default = default

unfoldable pub snapshot_identity : Pins → SnapshotIdentity
snapshot_identity pins = record {
  kernel_sha256 = pins.kernel_wasm.sha256;
  kernel_rev = pins.kernel_wasm.rev;
  seal_version = seal_version;
  boot_setup = boot_setup_version;
  image_sha256 = (image_of pins.browser_image pins.image).sha256;
  python_seal_sha256 = pins.python_seal;
}

abbrev pub show_integer : ℤ → Text
show_integer (pos n) = decimal n
show_integer (negsuc n) = 45 ∷ decimal (suc n)

unfoldable pub int_eq : ℤ → ℤ → Bool
int_eq (pos m) (pos n) = m == n
int_eq (negsuc m) (negsuc n) = m == n
int_eq _ _ = false

unfoldable pub format_refusal : ℤ → Option Text
unfolding int_eq
format_refusal format =
    if int_eq format snapshot_format
    then none
    else some (
        chars "is format "
        ++ (show_integer format
            ++ (chars ", not "
                ++ (show_integer snapshot_format
                    ++ (if int_eq format (pos 3)
                        then chars
                            ": a gzip of the kernel memory, from before the zip; capture it again"
                        else [])))))

unfoldable pub store_refusal : Bool → Option Bool → Option Text
store_refusal has_store none = none
store_refusal true (some true) = none
store_refusal false (some false) = none
store_refusal true (some false) =
    some
      (chars "carries a YurtFS root store, and this kernel keeps its root filesystem in its memory")
store_refusal false (some true) = some (
    chars
      "holds the kernel memory alone, and this kernel's root filesystem is a YurtFS store that it does not hold; capture it again")
