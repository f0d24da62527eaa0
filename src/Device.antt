-- ===== src/Device.antt =====
-- src/device.ts: which kind of device a page runs on, and as which platform and environment it runs
-- (deviceClass, touchDevice, parsePlatform, choosePlatform, chooseEnv). The setting of a URL's parameters
-- is not modelled.
mod Tests
use yurt_playground.Base.{
  ℕ, ◌+◌, Bool, true, false, not, ◌&&◌, ◌||◌, List, [], ◌∷◌, ◌++◌, Option, none, some, Text, chars,
  ltb, min, if◌then◌else◌, text_eq, includes,
}

pub data Platform : Type 0 where
  phone tablet desktop : Platform

abbrev platform_name : Platform → Text
platform_name phone = chars "phone"
platform_name tablet = chars "tablet"
platform_name desktop = chars "desktop"

-- How much a platform asks of the device's memory.
unfoldable pub platform_size : Platform → ℕ
platform_size phone = 0
platform_size tablet = 1
platform_size desktop = 2

platform_aliases : List (Text × Platform)
platform_aliases =
    (chars "phone", phone)
    ∷ (chars "iphone", phone)
    ∷ (chars "tablet", tablet)
    ∷ (chars "ipad", tablet)
    ∷ (chars "desktop", desktop)
    ∷ (chars "mac", desktop)
    ∷ []

find_alias : Text → List (Text × Platform) → Option Platform
find_alias name [] = none
find_alias name ((alias, platform) ∷ aliases) =
    let rest = find_alias name aliases in if text_eq alias name then some platform else rest

-- What a key of PLATFORM_ALIASES gives: nothing, a platform, or what an object inherits under the key.
pub data Asked : Type 0 where
  no_platform inherited : Asked
  asked_for : Platform → Asked

-- `constructor` and `__proto__` are the only inherited keys without an upper-case letter.
abbrev inherited_keys : List Text
inherited_keys = chars "constructor" ∷ chars "__proto__" ∷ []

alias_of : Text → Option Platform → Asked
alias_of name (some platform) = asked_for platform
alias_of name none = if includes name inherited_keys then inherited else no_platform

-- The platform is none where it is what an object inherits.
pub record Choice : Type 0 where
  pub platform : Option Platform
  pub redirect : Bool
  pub note : Option Text

pub data Env : Type 0 where
  python go : Env

pub record EnvChoice : Type 0 where
  pub env : Env
  pub note : Option Text

pub record EnvOptions : Type 0 where
  pub native_app : Bool
  pub go_pinned : Bool
  pub capturing : Bool

abbrev python_because : Text → EnvChoice
python_because why = record { env = python; note = some why }

module _ (to_lower_case : Text → Text) where
  unfoldable pub parse_platform : Option Text → Asked
  unfolding find_alias platform_aliases alias_of
  parse_platform none = no_platform
  parse_platform (some value) =
      alias_of (to_lower_case value) (find_alias (to_lower_case value) platform_aliases)

  unfoldable pub within : Platform → Text → Asked → Choice
  unfolding platform_size
  within device asked inherited = record { platform = none; redirect = false; note = none }
  within device asked no_platform = record {
    platform = some device;
    redirect = false;
    note = some (
        chars "?platform="
        ++ (asked
            ++ (chars
                  " is not phone, tablet or desktop (or iphone, ipad, mac): this page runs as this "
                ++ platform_name device)));
  }
  within device asked (asked_for platform) =
      if ltb (platform_size device) (platform_size platform)
      then record {
        platform = some device;
        redirect = false;
        note = some (
            chars "This "
            ++ (platform_name device
                ++ (chars " has too little memory for the "
                    ++ (platform_name platform
                        ++ (chars " page, so it runs the "
                            ++ (platform_name device ++ chars "'s instead"))))));
      }
      else record { platform = some platform; redirect = false; note = none }

  unfoldable pub choose_platform : Platform → Option Text → Choice
  unfolding parse_platform within
  choose_platform device none = record { platform = some device; redirect = true; note = none }
  choose_platform device (some asked) = within device asked (parse_platform (some asked))

  is_desktop : Platform → Bool
  is_desktop desktop = true
  is_desktop phone = false
  is_desktop tablet = false

  unfoldable pub choose_env : Platform → Option Text → EnvOptions → EnvChoice
  unfolding is_desktop
  choose_env platform none options = record { env = python; note = none }
  choose_env platform (some asked) options =
      if text_eq (to_lower_case asked) (chars "python") || options.capturing
      then record { env = python; note = none }
      else if not (text_eq (to_lower_case asked) (chars "go"))
      then python_because
          (chars "?env=" ++ (asked ++ chars " is not python or go: this page sets up Python"))
      else if options.native_app
      then python_because
          (chars "The desktop app's sandbox installs Go itself (sudo pkg install go)")
      else if not (is_desktop platform)
      then python_because (
          chars "Go is for desktop browsers only: a "
          ++ (platform_name platform ++ chars " tab has too little memory for it"))
      else if not options.go_pinned
      then python_because (
          chars
            "This site has no Go sandbox yet, so it sets up Python; sudo pkg install go works in its terminal")
      else record { env = go; note = none }

-- What the browser says of a device. An `is_` field of the user agent is whether the source's expression
-- of it matches: /Macintosh/, /iPad/, /iPad|iPhone|iPod/, /iPhone|iPod|Android.*Mobile/i, /Android|Silk/i.
pub record Browser : Type 0 where
  pub is_macintosh : Bool
  pub is_ipad : Bool
  pub is_ios : Bool
  pub is_mobile : Bool
  pub is_android : Bool
  pub says_mobile : Bool
  pub is_linux_armv81 : Bool
  pub touch_points : ℕ
  pub screen_width : ℕ
  pub screen_height : ℕ
  pub inner_width : ℕ
  pub is_coarse : Bool

is_narrow : Browser → Bool
is_narrow b = ltb (min b.screen_width b.screen_height) 600

unfoldable pub device_class : Browser → Platform
unfolding is_narrow
device_class b =
    if b.is_macintosh && ltb 1 b.touch_points
    then (if is_narrow b then phone else tablet)
    else if b.is_ipad
    then tablet
    else if b.says_mobile || b.is_mobile
    then phone
    else if b.is_coarse && is_narrow b
    then phone
    else if b.is_android || b.is_linux_armv81 || (b.is_coarse && ltb b.inner_width 900)
    then tablet
    else desktop

unfoldable pub touch_device : Browser → Bool
touch_device b = b.is_coarse || b.is_ios || (b.is_macintosh && ltb 1 b.touch_points)
