-- ===== src/Device/Tests.antt =====
-- Devices and the platforms that they run as, at concrete inputs.
use yurt_playground.Base.{◌≡◌, refl, true, false, none, some, chars}
use yurt_playground.Device.{
  Browser, device_class, touch_device, phone, tablet, desktop, choose_platform, choose_env, python,
  go, EnvOptions,
}

-- A tablet of 13 inches that says it is a Mac.
abbrev an_ipad : Browser
an_ipad = record {
  is_macintosh = true;
  is_ipad = false;
  is_ios = false;
  is_mobile = false;
  is_android = false;
  says_mobile = false;
  is_linux_armv81 = false;
  touch_points = 5;
  screen_width = 1024;
  screen_height = 1366;
  inner_width = 1366;
  is_coarse = true;
}

device_test : (device_class an_ipad ≡ tablet) × (touch_device an_ipad ≡ true)
unfolding device_class touch_device
device_test = (refl, refl)

platform_test :
    ((choose_platform (λ s. s) tablet none).redirect ≡ true)
    × ((choose_platform (λ s. s) tablet (some (chars "iphone"))).platform ≡ some phone)
    × ((choose_platform (λ s. s) phone (some (chars "mac"))).platform ≡ some phone)
    × ((choose_platform (λ s. s) phone (some (chars "constructor"))).platform ≡ none)
unfolding choose_platform
platform_test = (refl, refl, refl, refl)

abbrev a_page : EnvOptions
a_page = record { native_app = false; go_pinned = true; capturing = false }

env_test :
    ((choose_env (λ s. s) desktop (some (chars "go")) a_page).env ≡ go)
    × ((choose_env (λ s. s) tablet (some (chars "go")) a_page).env ≡ python)
unfolding choose_env
env_test = (refl, refl)
