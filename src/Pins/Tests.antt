-- ===== src/Pins/Tests.antt =====
-- A snapshot's pin that a page accepts, and its kinds, at concrete inputs.
use yurt_playground.Base.{◌≡◌, refl, ◌↔◌, true, [], ◌∷◌, none, some, Text, chars, ok, pos}
use yurt_playground.Pins.{Pins, ArtifactPin, join_path}
use yurt_playground.Packages.{split}
use yurt_playground.Pins.Value.{Json, string, integer, object, field, no_fields}
use yurt_playground.Pins.Snapshot.{SnapshotIdentity, SnapshotPin, parse_snapshot_pin, is_hex}
use yurt_playground.Pins.Sound.{IsWellFormed, parse_snapshot_pin-IsWellFormed}
use yurt_playground.Pins.Accepted.{capture_kind_of, tablet, kind_query, go}
use yurt_playground.Pins.Accepted.Built.{accepted_snapshot}
use yurt_playground.Pins.Accepted.Exact.{IsAccepted, accepted_snapshot-IsAccepted}

abbrev a_hash : Text
a_hash = chars "00112233445566778899aabbccddeeff00112233445566778899aabbccddeeff"

abbrev store_json : Json
store_json = object (
    field (chars "identity")
      (object (
        field (chars "lineage") (string (chars "00112233445566778899aabbccddeeff")) (
          field (chars "sequence") (string (chars "10"))
            (field (chars "hash") (string a_hash) no_fields))))
      (field (chars "files") (integer (pos 2)) (
        field (chars "bytes") (integer (pos 900))
          (field (chars "pieceBytes") (integer (pos 512)) no_fields))))

abbrev built_json : Json
built_json = object (
    field (chars "kernelSha256") (string a_hash) (
      field (chars "kernelRev") (string (chars "r1")) (
        field (chars "sealVersion") (integer (pos 1)) (
          field (chars "bootSetup") (integer (pos 2)) (
            field (chars "imageSha256") (string a_hash) (
              field (chars "pythonSealSha256") Json.null
                (field (chars "pythonSet") Json.null no_fields)))))))

abbrev pin_json : Json
pin_json = object (
    field (chars "releaseRepo") (string (chars "o/r")) (
      field (chars "release") (string (chars "snapshot-1")) (
        field (chars "format") (integer (pos 4)) (
          field (chars "sha256") (string a_hash) (
            field (chars "size") (integer (pos 1000)) (
              field (chars "builtFrom") built_json (
                field (chars "memoryBytes") (integer (pos 65536))
                  (field (chars "store") store_json no_fields))))))))

abbrev an_identity : SnapshotIdentity
an_identity = record {
  kernel_sha256 = a_hash;
  kernel_rev = chars "r1";
  seal_version = pos 1;
  boot_setup = pos 2;
  image_sha256 = a_hash;
  python_seal_sha256 = none;
}

abbrev a_pin : SnapshotPin
a_pin = record {
  release_repo = chars "o/r";
  release = chars "snapshot-1";
  format = pos 4;
  sha256 = a_hash;
  size = 1000;
  built_from = record { identity = an_identity; python_set = none };
  memory_bytes = some 65536;
  contents = none;
  restore_peak_mib = none;
  store = some (record {
    identity = record {
      lineage = chars "00112233445566778899aabbccddeeff";
      sequence = chars "10";
      hash = a_hash;
    };
    files = 2;
    bytes = 900;
    piece_bytes = 512;
  });
}

read_test : parse_snapshot_pin (some pin_json) ≡ ok a_pin
unfolding parse_snapshot_pin is_hex
read_test = refl

parse_snapshot_pin-IsWellFormed_example : IsWellFormed a_pin
parse_snapshot_pin-IsWellFormed_example =
    parse_snapshot_pin-IsWellFormed (some pin_json) a_pin read_test

abbrev artifact : ArtifactPin
artifact = record {
  repo = chars "o/r";
  rev = chars "r1";
  build = chars "b";
  path = chars "p";
  sha256 = a_hash;
}

abbrev site_pins : Pins
site_pins = record {
  kernel_wasm = artifact;
  root_store = true;
  image = artifact;
  browser_image = none;
  browser_python = none;
  python_seal = none;
  snapshot = some pin_json;
  tablet_snapshot = none;
  phone_snapshot = none;
  go_snapshot = none;
}

accepted_test :
    accepted_snapshot (some pin_json) site_pins (chars "pinned snapshot") (some true) ≡ ok a_pin
unfolding accepted_snapshot is_hex
accepted_test = refl

accepted_snapshot-IsAccepted_example :
    accepted_snapshot (some pin_json) site_pins (chars "pinned snapshot") (some true) ≡ ok a_pin
    ↔ IsAccepted (some pin_json) site_pins (some true) a_pin
accepted_snapshot-IsAccepted_example =
    accepted_snapshot-IsAccepted (some pin_json) site_pins (chars "pinned snapshot") (some true)
      a_pin

kinds_test :
    (capture_kind_of [] (some (chars "capture-tablet")) ≡ some tablet)
    × (kind_query go ≡ chars "platform=desktop&env=go")
unfolding capture_kind_of
kinds_test = (refl, refl)

join_test : join_path (chars "/srv/") (chars "a//b" ∷ chars "c" ∷ []) ≡ chars "/srv/a/b/c"
unfolding join_path split
join_test = refl
