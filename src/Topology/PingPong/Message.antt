-- ===== src/Topology/PingPong/Message.antt =====
-- src/topology/ping_pong.rs: the messages and their encoding.
pub mod RoundTrip
use Prim.Native.String.{String}
use mastic.Prelude.{ℕ, ◌+◌, List, ◌==◌, length, if◌then◌else◌, Option, some, Result, ok, err, ◌>>=◌}
use mastic.Codec.Cursor.{CodecError, unexpected_value, Cursor}
use mastic.Codec.Traits.{
  Encoder, Decoder, ParameterizedEncode, ParameterizedDecode, param_encode, param_decode,
}
use mastic.Codec.Ints.{ReadBytesExt, u8_encode, u8_decode, u8_codec}
use mastic.Codec.Items.{encode_u32_items, decode_u32_items}

-- Prepare shares and messages are opaque byte strings here.
pub data PingPongMessage : Type 0 where
  initialize : List ℕ → PingPongMessage
  -- A prepare message and a prepare share.
  continue : List ℕ → List ℕ → PingPongMessage
  finish : List ℕ → PingPongMessage

unfoldable pub variant : PingPongMessage → String
variant (initialize prep_share) = "Initialize"
variant (continue prep_msg prep_share) = "Continue"
variant (finish prep_msg) = "Finish"

abbrev pub byte_encode : ParameterizedEncode (Unit {0}) ℕ
byte_encode = param_encode u8_codec

abbrev pub byte_decode : ParameterizedDecode (Unit {0}) ℕ
byte_decode = param_decode (record { decode = u8_decode })

unfoldable pub message_encode : Encoder PingPongMessage
message_encode (initialize prep_share) bytes = do
  typed ← u8_encode 0 bytes
  encode_u32_items byte_encode tt prep_share typed
message_encode (continue prep_msg prep_share) bytes = do
  typed ← u8_encode 1 bytes
  bytes' ← encode_u32_items byte_encode tt prep_msg typed
  encode_u32_items byte_encode tt prep_share bytes'
message_encode (finish prep_msg) bytes = do
  typed ← u8_encode 2 bytes
  encode_u32_items byte_encode tt prep_msg typed

unfoldable pub message_encoded_len : PingPongMessage → Option ℕ
message_encoded_len (initialize prep_share) = some (1 + 4 + length prep_share)
message_encoded_len (continue prep_msg prep_share) =
    some (1 + 4 + length prep_msg + 4 + length prep_share)
message_encoded_len (finish prep_msg) = some (1 + 4 + length prep_msg)

module _ ⦃byteorder : ReadBytesExt⦄ where
  initialize_decode : Decoder PingPongMessage
  initialize_decode c = do
    (prep_share, c') ← decode_u32_items byte_decode tt c
    ok (initialize prep_share, c')

  continue_decode : Decoder PingPongMessage
  continue_decode c = do
    (prep_msg, c₁) ← decode_u32_items byte_decode tt c
    (prep_share, c₂) ← decode_u32_items byte_decode tt c₁
    ok (continue prep_msg prep_share, c₂)

  finish_decode : Decoder PingPongMessage
  finish_decode c = do (prep_msg, c') ← decode_u32_items byte_decode tt c; ok (finish prep_msg, c')

  -- The `match` on the message type.
  body_decode : ℕ → Decoder PingPongMessage
  unfolding initialize_decode continue_decode finish_decode
  body_decode message_type c =
      if message_type == 0
      then initialize_decode c
      else if message_type == 1
      then continue_decode c
      else if message_type == 2
      then finish_decode c
      else err unexpected_value

  unfoldable pub message_decode : Decoder PingPongMessage
  unfolding body_decode
  message_decode c = do (message_type, c') ← u8_decode c; body_decode message_type c'
