-- ===== src/Frames/Tests.antt =====
-- Runs of the framed bodies and the mirror packets, and their theorems at concrete inputs.
use pcsuite_rs.Base.{
  ◌<◌, ◌≡◌, refl, arith, true, ◌∷◌, ◌++◌, Option, some, length, replicate, bytes_eq,
}
use pcsuite_rs.Base.Wire.{Bytes, codes, to_be}
use pcsuite_rs.Frames.Payload.{bad_magic, encode, decode_strict}
use pcsuite_rs.Frames.Screen.{is_audio_frame, adts_sample_rate, adts_channels}

encoded_long : 15 < length (encode (codes "{}"))
unfolding encode to_be
encoded_long = omega arith

wrong_magic : decode_strict (codes "ZAY_LOAD_1" ++ replicate 4 0) ≡ bad_magic
unfolding decode_strict bytes_eq
wrong_magic = refl

-- A parser that takes any text.
abbrev any_text : Bytes → Option Bytes
any_text bs = some bs

-- The audio packet of the repository's test.
abbrev phone_adts : Bytes
phone_adts = 0xff ∷ 0xf9 ∷ 0x50 ∷ 128 ∷ 13 ∷ 127 ∷ 0xfc ∷ replicate 100 0xab

audio : is_audio_frame phone_adts ≡ true
unfolding is_audio_frame
audio = refl

audio_rate : adts_sample_rate phone_adts ≡ some 44100
unfolding adts_sample_rate
audio_rate = refl

audio_channels : adts_channels phone_adts ≡ some 2
unfolding adts_channels
audio_channels = refl
