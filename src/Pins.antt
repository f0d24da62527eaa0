-- ===== src/Pins.antt =====
-- src/pins.ts: what pins.json names, read from JSON (parsePins, parsePin, parseSnapshotPin, parseStorePin,
-- parseStoreIdentity), and the paths of the artifacts (joinPath). What is read from files is not modelled.
pub mod Value
pub mod Snapshot
pub mod Sound
pub mod Accepted
mod Tests
use yurt_playground.Base.{
  ℕ, zero, suc, ◌+◌, Bool, true, false, not, ◌&&◌, ◌||◌, List, [], ◌∷◌, ◌++◌, Option, none, some,
  Text, chars, Outcome, ok, err, ◌>>=◌, ◌>>◌, unless_throw, ◌==◌, if◌then◌else◌, text_eq,
  starts_with, length, leb,
}
use yurt_playground.Packages.{split}
use yurt_playground.Packages.Version.{is_yurt_build}
use yurt_playground.Packages.Releases.{keep}
use yurt_playground.Pins.Value.{Json, Items, Fields, string, boolean, get, is_object}

pub record ArtifactPin : Type 0 where
  pub repo : Text
  pub rev : Text
  pub build : Text
  pub path : Text
  pub sha256 : Text

pub record PythonPin : Type 0 where
  pub version : Text
  pub build : Text

pub record Pins : Type 0 where
  pub kernel_wasm : ArtifactPin
  pub root_store : Bool
  pub image : ArtifactPin
  pub browser_image : Option ArtifactPin
  pub browser_python : Option PythonPin
  pub python_seal : Option Text
  pub snapshot : Option Json
  pub tablet_snapshot : Option Json
  pub phone_snapshot : Option Json
  pub go_snapshot : Option Json

-- A PinResolutionError, by its message; its exit code is 1.
abbrev pub PinError : Type 0
PinError = Text

-- A key's text, which must not be empty.
unfoldable pub required_text : PinError → Option Json → Outcome PinError Text
required_text thrown (some (string [])) = err thrown
required_text thrown (some (string (c ∷ s))) = ok (c ∷ s)
required_text thrown _ = err thrown

module _ (to_lower_case : Text → Text) where
  pub parse_pin : Text → Option Json → Outcome PinError ArtifactPin
  unfolding required_text
  parse_pin label raw =
      let at : Text → Text = λ key. label ++ (chars "." ++ (key ++ chars " must be a string")) in
      unless_throw (label ++ chars " pin must be an object") (is_object raw)
      >> (required_text (at (chars "repo")) (get (chars "repo") raw) >>= (λ repo.
          required_text (at (chars "rev")) (get (chars "rev") raw) >>= (λ rev.
            required_text (at (chars "build")) (get (chars "build") raw) >>= (λ build.
              required_text (at (chars "path")) (get (chars "path") raw) >>= (λ path.
                required_text (at (chars "sha256")) (get (chars "sha256") raw) >>= (λ sha256.
                  ok (record {
                    repo = repo;
                    rev = rev;
                    build = build;
                    path = path;
                    sha256 = to_lower_case sha256;
                  })))))))

  read_root_store : Option Json → Outcome PinError Bool
  read_root_store none = ok false
  read_root_store (some (boolean true)) = ok true
  read_root_store (some _) = err (chars "kernelWasm.rootStore must be true or absent")

  python_error : PinError
  python_error = chars "browserImage.python must be {version, build: yurt_N}"

  read_python : Option Json → Outcome PinError (Option PythonPin)
  unfolding required_text python_error
  read_python none = ok none
  read_python (some python) =
      required_text python_error (get (chars "version") (some python)) >>= (λ version.
        required_text python_error (get (chars "build") (some python)) >>= (λ build.
          if is_yurt_build build
          then ok (some (record { version = version; build = build }))
          else err python_error))

  read_browser_image : Option Json → Outcome PinError (Option ArtifactPin × Option PythonPin)
  unfolding parse_pin read_python
  read_browser_image none = ok (none, none)
  read_browser_image (some image) = parse_pin (chars "browserImage") (some image) >>= (λ pin.
      read_python (get (chars "python") (some image)) >>= (λ python. ok (some pin, python)))

  -- An entry of another shape is left out.
  read_seal : Option Json → Option Text
  read_seal (some (string [])) = none
  read_seal (some (string (c ∷ s))) = some (to_lower_case (c ∷ s))
  read_seal _ = none

  unfoldable pub parse_pins : Json → Outcome PinError Pins
  unfolding parse_pin read_root_store read_browser_image read_seal
  parse_pins raw =
      unless_throw (chars "pins.json must be an object") (is_object (some raw))
      >> (parse_pin (chars "kernelWasm") (get (chars "kernelWasm") (some raw)) >>= (λ kernel.
          parse_pin (chars "image") (get (chars "image") (some raw)) >>= (λ image.
            read_root_store (get (chars "rootStore") (get (chars "kernelWasm") (some raw)))
            >>= (λ root_store.
                read_browser_image (get (chars "browserImage") (some raw)) >>= (λ browser.
                  ok (record {
                    kernel_wasm = kernel;
                    root_store = root_store;
                    image = image;
                    browser_image = browser.0;
                    browser_python = browser.1;
                    python_seal =
                        read_seal (get (chars "sha256") (get (chars "pythonSeal") (some raw)));
                    snapshot = get (chars "snapshot") (some raw);
                    tablet_snapshot = get (chars "tabletSnapshot") (some raw);
                    phone_snapshot = get (chars "phoneSnapshot") (some raw);
                    go_snapshot = get (chars "goSnapshot") (some raw);
                  }))))))

-- `join("/")` of parts.
slashed : List Text → Text
slashed [] = []
slashed (p ∷ []) = p
slashed (p ∷ q ∷ ps) = p ++ 47 ∷ slashed (q ∷ ps)

all_parts : List Text → List Text
all_parts [] = []
all_parts (part ∷ parts) = split 47 part ++ all_parts parts

pub join_path : Text → List Text → Text
unfolding slashed all_parts
join_path root parts =
    (if starts_with root (chars "/") then chars "/" else [])
    ++ slashed (keep (λ part. not (text_eq part [])) (all_parts (root ∷ parts)))
