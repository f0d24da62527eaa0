-- ===== src/Jupyter.antt =====
-- src/jupyter_protocol.ts, encodeJupyterMessage and decodeJupyterMessage, and
-- decodeJupyterChannelMessage of src/jupyter_transport.ts. Parameters: JSON.stringify and JSON.parse on
-- a type `J` of values, TextEncoder and TextDecoder, and `hmac`, HMAC-SHA-256 under a key's bytes.
pub mod Trip
mod Tests
use yurt_playground.Base.{
  ℕ, zero, suc, ◌+◌, ◌/◌, ◌%◌, Bool, true, false, List, [], ◌∷◌, ◌++◌, Option, none, some, Text,
  chars, map, Outcome, ok, err, ◌>>=◌, ltb, if◌then◌else◌, length, text_eq,
}

abbrev pub delimiter : List ℕ
delimiter = chars "<IDS|MSG>"

pub record JupyterMessage (J : Type 0) : Type 0 where
  pub header : J
  pub parent_header : J
  pub metadata : J
  pub content : J
  pub buffers : List (List ℕ)

pub data JupyterError : Type 0 where
  truncated_frames no_delimiter bad_signature bad_json no_identity_delimiter : JupyterError

unfoldable pub concat : List (List ℕ) → List ℕ
concat [] = []
concat (frame ∷ frames) = frame ++ concat frames

unfoldable pub hex_digit : ℕ → ℕ
hex_digit n = if ltb n 10 then 48 + n else 87 + n

-- `byte.toString(16).padStart(2, "0")`, joined.
unfoldable pub hex : List ℕ → Text
unfolding hex_digit
hex [] = []
hex (b ∷ bytes) = hex_digit (b / 16) ∷ hex_digit (b % 16) ∷ hex bytes

module _ {J : Type 0} (stringify : J → Text) (parse : Text → Option J) (encode : Text → List ℕ)
    (decode : List ℕ → Text) (hmac : List ℕ → List ℕ → List ℕ) where
  unfoldable pub sign : List (List ℕ) → Text → Text
  unfolding concat hex
  sign frames key = hex (hmac (encode key) (concat frames))

  abbrev pub json_frames : JupyterMessage J → List (List ℕ)
  json_frames m =
      encode (stringify m.header)
      ∷ encode (stringify m.parent_header)
      ∷ encode (stringify m.metadata)
      ∷ encode (stringify m.content)
      ∷ []

  unfoldable pub encode_jupyter_message : JupyterMessage J → Text → List (List ℕ)
  encode_jupyter_message m key =
      delimiter ∷ encode (sign (json_frames m) key) ∷ (json_frames m ++ m.buffers)

  read_json : List ℕ → Outcome JupyterError J
  read_json frame = elim (parse (decode frame)) [ none ↦ err bad_json | some value ↦ ok value ]

  read_body :
      List ℕ → List ℕ → List ℕ → List ℕ → List (List ℕ) → Outcome JupyterError (JupyterMessage J)
  unfolding read_json
  read_body a b c d buffers = read_json a >>= (λ header. read_json b >>= (λ parent_header.
      read_json c >>= (λ metadata. read_json d >>= (λ content. ok (record {
        header = header;
        parent_header = parent_header;
        metadata = metadata;
        content = content;
        buffers = buffers;
      })))))

  unfoldable pub decode_jupyter_message :
      List (List ℕ) → Text → Outcome JupyterError (JupyterMessage J)
  unfolding read_body
  decode_jupyter_message (first ∷ signature ∷ a ∷ b ∷ c ∷ d ∷ buffers) key =
      if text_eq first delimiter
      then (if text_eq (decode signature) (sign (a ∷ b ∷ c ∷ d ∷ []) key)
          then read_body a b c d buffers
          else err bad_signature)
      else err no_delimiter
  decode_jupyter_message _ key = err truncated_frames

  unfoldable pub decode_jupyter_channel_message :
      List (List ℕ) → Text → Outcome JupyterError (JupyterMessage J)
  decode_jupyter_channel_message [] key = err no_identity_delimiter
  decode_jupyter_channel_message (frame ∷ frames) key =
      let rest = decode_jupyter_channel_message frames key in
      if text_eq frame delimiter then decode_jupyter_message (frame ∷ frames) key else rest
