-- ===== src/Jupyter/Tests.antt =====
-- A message whose values are JSON's Booleans, under a sum for an HMAC, on texts of one byte a unit.
use yurt_playground.Base.{
  ℕ, ◌+◌, ◌%◌, ◌≤◌, ◌<◌, ◌≡◌, refl, Bool, true, false, List, [], ◌∷◌, ◌++◌, Option, none, some,
  Text, chars, ok, All, arith, text_eq, if◌then◌else◌, length, get_or, take, drop,
}
use yurt_playground.Jupyter.{
  JupyterMessage, encode_jupyter_message, decode_jupyter_message, decode_jupyter_channel_message,
  delimiter, sign,
}
use yurt_playground.Jupyter.Trip.{
  IsPlain, is_paired, decode_jupyter_channel_message-encode_jupyter_message,
  decode_jupyter_message-sign,
}

abbrev same : Text → Text
same s = s

abbrev sum_of : List ℕ → ℕ
sum_of [] = 0
sum_of (b ∷ bytes) = b + sum_of bytes

abbrev sum_mac : List ℕ → List ℕ → List ℕ
sum_mac key bytes = (sum_of key + sum_of bytes) % 256 ∷ []

sum_mac-bytes : (key bytes : List ℕ) → All (λ b. b < 256) (sum_mac key bytes)
sum_mac-bytes key bytes = (omega arith, tt)

abbrev shown : Bool → Text
shown true = chars "true"
shown false = chars "false"

abbrev parsed : Text → Option Bool
parsed s =
    if text_eq s (chars "true")
    then some true
    else if text_eq s (chars "false")
    then some false
    else none

parsed-shown : (b : Bool) → parsed (shown b) ≡ some b
parsed-shown true = refl
parsed-shown false = refl

shown-IsPlain : (b : Bool) → IsPlain (shown b)
unfolding is_paired
shown-IsPlain true = record { paired = refl; unmarked = refl }
shown-IsPlain false = record { paired = refl; unmarked = refl }

abbrev message : JupyterMessage Bool
message = record {
  header = true;
  parent_header = false;
  metadata = false;
  content = true;
  buffers = (1 ∷ 2 ∷ []) ∷ [];
}

abbrev frames : List (List ℕ)
frames = encode_jupyter_message shown parsed same same sum_mac message (chars "key")

decode_jupyter_channel_message-encode_jupyter_message_example :
    (decode_jupyter_message shown parsed same same sum_mac frames (chars "key") ≡ ok message)
    × (decode_jupyter_channel_message shown parsed same same sum_mac
          ((7 ∷ []) ∷ [] ++ frames)
          (chars "key")
        ≡ ok message)
decode_jupyter_channel_message-encode_jupyter_message_example =
    decode_jupyter_channel_message-encode_jupyter_message shown parsed same same sum_mac
      parsed-shown sum_mac-bytes shown-IsPlain (λ s h. refl) message (chars "key") ((7 ∷ []) ∷ [])
      (refl, tt)

decoded_test :
    decode_jupyter_message shown parsed same same sum_mac frames (chars "key") ≡ ok message
unfolding decode_jupyter_message encode_jupyter_message sign
decoded_test = refl

decode_jupyter_message-sign_example :
    (6 ≤ length frames)
    × (get_or frames 0 [] ≡ delimiter)
    × (get_or frames 1 []
        ≡ sign shown parsed same same sum_mac (take 4 (drop 2 frames)) (chars "key"))
decode_jupyter_message-sign_example =
    decode_jupyter_message-sign shown parsed same same sum_mac frames (chars "key") message
      decoded_test
