-- ===== src/Frames/Screen.antt =====
-- crates/pcsuite-proto/src/screen.rs: telling apart and stripping the packets of the mirror socket.
use pcsuite_rs.Base.{
  ℕ, ◌+◌, ◌*◌, ◌/◌, ◌≡◌, refl, Bool, true, false, ◌&&◌, ◌||◌, List, [], ◌∷◌, ◌++◌, Option, some,
  length, ltb, leb, if◌then◌else◌, ◌==◌, take, drop, get_elem?, get_or, bytes_eq, bytes_eq_iff,
  bit_and, bit_or, arith, ==_iff, drop-append, length-append, le→leb,
}
use pcsuite_rs.Base.Wire.{Bytes, codes, starts_with}
use pcsuite_rs.Base.Maybe.{◌>>=◌}

abbrev pub frame_prefix : Bytes
frame_prefix = codes "FRAME:"

abbrev pub frame_time_header_len : ℕ
frame_time_header_len = 10

abbrev pub adts_header_len : ℕ
adts_header_len = 7

abbrev pub has_frame_prefix : Bytes → Bool
has_frame_prefix payload = leb 6 (length payload) && bytes_eq (take 6 payload) frame_prefix

unfoldable pub strip_frame_header : Bytes → Bool → Bytes
strip_frame_header payload with_time =
    if has_frame_prefix payload
    then if with_time && leb (6 + frame_time_header_len) (length payload)
      then drop (6 + frame_time_header_len) payload
      else drop 6 payload
    else payload

unfoldable pub strip_frame_prefix : Bytes → Bytes
strip_frame_prefix payload = strip_frame_header payload false

unfoldable pub is_video_frame : Bytes → Bool
is_video_frame payload =
    if has_frame_prefix payload
    then true
    else starts_with payload (0 ∷ 0 ∷ 0 ∷ 1 ∷ []) || starts_with payload (0 ∷ 0 ∷ 1 ∷ [])

unfoldable pub is_audio_frame : Bytes → Bool
is_audio_frame payload =
    ltb adts_header_len (length payload)
    && get_or payload 0 0 == 0xff
    && bit_and (get_or payload 1 0) 0xf6 == 0xf0

abbrev pub rates : List ℕ
rates =
    96000 ∷ 88200 ∷ 64000 ∷ 48000 ∷ 44100 ∷ 32000 ∷ 24000 ∷ 22050 ∷ 16000 ∷ 12000 ∷ 11025 ∷ 8000
    ∷ 7350 ∷ []

unfoldable pub adts_sample_rate : Bytes → Option ℕ
adts_sample_rate header = do b ← get_elem? header 2; get_elem? rates (bit_and (b / 4) 0x0f)

unfoldable pub adts_channels : Bytes → Option ℕ
adts_channels header = do
  b ← get_elem? header 2
  c ← get_elem? header 3
  some (bit_or (bit_and b 0x01 * 4) (c / 64))

pub data PrivacyState : Type 0 where
  clear password secure lock_screen : PrivacyState

unfoldable pub token : PrivacyState → Bytes
token clear = codes "clear"
token password = codes "password"
token secure = codes "safety"
token lock_screen = codes "lockScreen"

and_false : (b : Bool) → b && false ≡ false
and_false true = refl
and_false false = refl

-- A packet is taken for video or for audio, never for both.
pub is_video_frame-is_audio_frame :
    (payload : Bytes) → is_audio_frame payload ≡ true → is_video_frame payload ≡ false
unfolding is_video_frame is_audio_frame starts_with bytes_eq
is_video_frame-is_audio_frame [] h = cc
is_video_frame-is_audio_frame (a ∷ bs) h =
    let sync : a ≡ 0xff = (==_iff a 0xff).0 (ground arith) in
    rw (sync, and_false (leb 6 (length (a ∷ bs))))

-- With timestamps announced, what stands behind the marker, the time and the counter is handed on;
-- without, what stands behind the marker.
pub strip_frame_header-append :
    (time body : Bytes)
    → length time ≡ 10
    → (strip_frame_header (frame_prefix ++ (time ++ body)) true ≡ body)
      × (strip_frame_header (frame_prefix ++ body) false ≡ body)
unfolding strip_frame_header
strip_frame_header-append time body h =
    let timed = frame_prefix ++ (time ++ body) in
    let len : length timed ≡ 16 + length body = omega (arith, length-append time body, h) in
    let same = (bytes_eq_iff frame_prefix frame_prefix).1 refl in
    (
      rw (
        strip_frame_header,
        le→leb 6 (length timed) (omega (arith, len)),
        same,
        le→leb 16 (length timed) (omega (arith, len)),
        drop-append 10 time body h,
      ),
      rw (strip_frame_header, le→leb 6 (length (frame_prefix ++ body)) (omega arith), same),
    )
