-- ===== src/Jupyter/Trip.antt =====
-- A message that is encoded under a key is decoded under it, and one that is decoded was signed.
use yurt_playground.Base.{
  ℕ, ◌≤◌, ◌<◌, ◌/◌, ◌%◌, ◌&&◌, not, leb, starts_with, length, get_or, take, drop, arith, ◌≡◌, refl,
  Bool, true, false, List, [], ◌∷◌, ◌++◌, Option, some, Text, ok, err, All, text_eq, text_eq_iff,
  text_eq_refl, if◌then◌else◌,
}
use yurt_playground.Jupyter.{
  JupyterMessage, bad_signature, no_delimiter, delimiter, sign, json_frames, encode_jupyter_message,
  read_json, read_body, decode_jupyter_message, decode_jupyter_channel_message, hex, hex_digit,
  concat,
}

is_high : ℕ → Bool
is_high c = leb 0xd800 c && leb c 0xdbff

is_low : ℕ → Bool
is_low c = leb 0xdc00 c && leb c 0xdfff

-- No surrogate stands alone: a high one is followed by a low one, and a low one is after a high one.
unfoldable pub is_paired : Text → Bool
unfolding is_high is_low
is_paired [] = true
is_paired (c ∷ []) = not (is_high c) && not (is_low c)
is_paired (c ∷ d ∷ s) =
    let after_pair = is_paired s in
    let after_one = is_paired (d ∷ s) in
    if is_high c then is_low d && after_pair else not (is_low c) && after_one

-- What the text encoder and decoder keep as it is: no lone surrogate, and no byte order mark in front.
pub record IsPlain (s : Text) : Type 0 where
  pub paired : is_paired s ≡ true
  pub unmarked : starts_with s (0xfeff ∷ []) ≡ false

abbrev IsAscii : Text → Type 0
IsAscii s = All (λ c. c < 128) s

ascii_paired : (s : Text) → IsAscii s → is_paired s ≡ true
unfolding is_paired is_high is_low
ascii_paired [] h = refl
ascii_paired (c ∷ []) (low, h) = ground arith
ascii_paired (c ∷ d ∷ s) (low, h) = ground (arith, ascii_paired (d ∷ s) h)

IsAscii-IsPlain : (s : Text) → IsAscii s → IsPlain s
IsAscii-IsPlain [] h = record { paired = ascii_paired [] h; unmarked = refl }
IsAscii-IsPlain (c ∷ s) (low, h) = record {
  paired = ascii_paired (c ∷ s) (low, h);
  unmarked = ground arith;
}

hex_digit_low : (n : ℕ) → n < 16 → hex_digit n < 128
unfolding hex_digit
hex_digit_low n h = ground arith

hex-IsAscii : (bytes : List ℕ) → All (λ b. b < 256) bytes → IsAscii (hex bytes)
unfolding hex
hex-IsAscii [] h = tt
hex-IsAscii (b ∷ bytes) (small, h) = (
  hex_digit_low (b / 16) (omega arith),
  (hex_digit_low (b % 16) (omega arith), hex-IsAscii bytes h),
)

module _ {J : Type 0} (stringify : J → Text) (parse : Text → Option J) (encode : Text → List ℕ)
    (decode : List ℕ → Text) (hmac : List ℕ → List ℕ → List ℕ) where
  sign-IsPlain :
      ((key bytes : List ℕ) → All (λ b. b < 256) (hmac key bytes))
      → (frames : List (List ℕ)) (key : Text)
      → IsPlain (sign stringify parse encode decode hmac frames key)
  unfolding sign
  sign-IsPlain of_bytes frames key =
      IsAscii-IsPlain (hex (hmac (encode key) (concat frames)))
        (hex-IsAscii (hmac (encode key) (concat frames)) (of_bytes (encode key) (concat frames)))

  read_json-stringify :
      (value : J)
      → ((j : J) → parse (stringify j) ≡ some j)
      → decode (encode (stringify value)) ≡ stringify value
      → read_json stringify parse encode decode hmac (encode (stringify value)) ≡ ok value
  unfolding read_json
  read_json-stringify value json text = rw (text, json value, read_json) refl

  module _ (json : (j : J) → parse (stringify j) ≡ some j)
      (of_bytes : (key bytes : List ℕ) → All (λ b. b < 256) (hmac key bytes))
      (plain : (j : J) → IsPlain (stringify j))
      (text : (s : Text) → IsPlain s → decode (encode s) ≡ s) where
    decode-encode :
        (m : JupyterMessage J) (key : Text)
        → decode_jupyter_message stringify parse encode decode hmac
            (encode_jupyter_message stringify parse encode decode hmac m key)
            key
          ≡ ok m
    unfolding decode_jupyter_message encode_jupyter_message read_body
    decode-encode m key =
        rw
          (
            text
                (sign stringify parse encode decode hmac
                  (json_frames stringify parse encode decode hmac m) key)
                (sign-IsPlain of_bytes (json_frames stringify parse encode decode hmac m) key),
            text_eq_refl (
                sign stringify parse encode decode hmac
                  (json_frames stringify parse encode decode hmac m) key),
            read_json-stringify m.header json (text (stringify m.header) (plain m.header)),
            read_json-stringify m.parent_header json
                (text (stringify m.parent_header) (plain m.parent_header)),
            read_json-stringify m.metadata json (text (stringify m.metadata) (plain m.metadata)),
            read_json-stringify m.content json (text (stringify m.content) (plain m.content)),
            decode_jupyter_message,
            encode_jupyter_message,
            read_body,
          )
          refl

    -- A message that is encoded under a key is decoded under it to itself, also from a channel where
    -- identity frames, none of them the delimiter, come first. JSON.parse reads what JSON.stringify
    -- wrote, which has no lone surrogate and no byte order mark at its start; of such a text the text
    -- decoder gives back what the encoder wrote; and the HMAC is made of bytes.
    pub decode_jupyter_channel_message-encode_jupyter_message :
        (m : JupyterMessage J) (key : Text) (identities : List (List ℕ))
        → All (λ frame. text_eq frame delimiter ≡ false) identities
        → (decode_jupyter_message stringify parse encode decode hmac
              (encode_jupyter_message stringify parse encode decode hmac m key)
              key
            ≡ ok m)
          × (decode_jupyter_channel_message stringify parse encode decode hmac
                (identities ++ encode_jupyter_message stringify parse encode decode hmac m key)
                key
              ≡ ok m)
    unfolding decode_jupyter_channel_message encode_jupyter_message
    decode_jupyter_channel_message-encode_jupyter_message m key [] others =
        (decode-encode m key, decode-encode m key)
    decode_jupyter_channel_message-encode_jupyter_message m key (frame ∷ identities)
          (other, others) =
        let rest = decode_jupyter_channel_message-encode_jupyter_message m key identities others in
        (rest.0, rw other rest.1)

  -- Whatever frames are decoded to a message, there are six at least, the first is the delimiter, and
  -- the second is the signature, under the key, of the four after it.
  pub decode_jupyter_message-sign :
      (frames : List (List ℕ)) (key : Text) (m : JupyterMessage J)
      → decode_jupyter_message stringify parse encode decode hmac frames key ≡ ok m
      → (6 ≤ length frames)
        × (get_or frames 0 [] ≡ delimiter)
        × (decode (get_or frames 1 [])
            ≡ sign stringify parse encode decode hmac (take 4 (drop 2 frames)) key)
  unfolding decode_jupyter_message
  decode_jupyter_message-sign [] key m h = cc
  decode_jupyter_message-sign (a ∷ []) key m h = cc
  decode_jupyter_message-sign (a ∷ b ∷ []) key m h = cc
  decode_jupyter_message-sign (a ∷ b ∷ c ∷ []) key m h = cc
  decode_jupyter_message-sign (a ∷ b ∷ c ∷ d ∷ []) key m h = cc
  decode_jupyter_message-sign (a ∷ b ∷ c ∷ d ∷ e ∷ []) key m h = cc
  decode_jupyter_message-sign (first ∷ signature ∷ a ∷ b ∷ c ∷ d ∷ buffers) key m h =
      let tests =
        passed (text_eq first delimiter)
          (text_eq (decode signature)
            (sign stringify parse encode decode hmac (a ∷ b ∷ c ∷ d ∷ []) key))
          h in
      (
        omega arith,
        (text_eq_iff first delimiter).0 tests.0,
        (text_eq_iff (decode signature)
              (sign stringify parse encode decode hmac (a ∷ b ∷ c ∷ d ∷ []) key)).0
            tests.1,
      )
    where
      passed :
          (x y : Bool)
          → (if x
              then (if y
                  then read_body stringify parse encode decode hmac a b c d buffers
                  else err bad_signature)
              else err no_delimiter)
            ≡ ok m
          → (x ≡ true) × (y ≡ true)
      passed true true e = (refl, refl)
      passed true false e = cc
      passed false y e = cc
