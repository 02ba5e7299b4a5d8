-- ===== src/Clipboard/Tests.antt =====
-- Runs of the shared clipboard, and its theorems at concrete inputs.
use pcsuite_rs.Base.{
  ℕ, ◌+◌, ◌-◌, ◌^◌, ◌≤◌, ◌<◌, ◌≡◌, refl, Bool, true, false, List, [], ◌∷◌, ◌++◌, Option, none, some,
  length, replicate, arith, All, append-nil, take, drop, take-append-drop, bytes_eq, ltb, sym, suc,
  is_empty,
}
use pcsuite_rs.Base.Wire.{Bytes, codes, to_be}
use pcsuite_rs.Base.Utf8.{is_utf8}
use pcsuite_rs.Base.Streams.{arrivals, IsNonempty}
use pcsuite_rs.Base.Text.{strip_prefix}
use pcsuite_rs.Crypto.{good}
use pcsuite_rs.Crypto.Toy.{toy_tag, toy as toy_crypto, toy-Laws as toy_crypto_laws}
use pcsuite_rs.Ruying.{RuyingFrame, build}
use pcsuite_rs.Ruying.RoundTrip.{IsWellFormed}
use pcsuite_rs.Json.{Serde, Value, json_object, string, get, is_plain}
use pcsuite_rs.Json.Toy.{toy, toy-Laws, toy_to_string, put_value, size}
use pcsuite_rs.Clip.{
  PhoneSession, parse_shadow_reply, shadow_prefix, clip_text_json, clip_text_value,
}
use pcsuite_rs.Clip.Echoes.{reply_of}
use pcsuite_rs.Crypto.Gcm.{gcm_encrypt, gcm_setup}
use pcsuite_rs.Clip.Messages.{IsSender}
use pcsuite_rs.Clipboard.{
  Shared, World, new_shared, link_pending, mark, recently_synced, mime_from_path, pad6, frame_of,
  build_frame, echo_window, queue_frame, set_text,
}
use pcsuite_rs.Clipboard.Frames.{no_probes, on_frame, receive_text, on_clip_frame}
use pcsuite_rs.Clipboard.Relay.{read_loop}
use pcsuite_rs.Clipboard.Relay.Framing.{wire, read_loop-handle_all}
use pcsuite_rs.Clipboard.Watch.{Observation, watch_text, clip_nick, watch_round}
use pcsuite_rs.Clipboard.Watch.Echo.{arrives, looks, run, watch_round-on_clip_frame}
use pcsuite_rs.Clip.{clip_text_value, clip_text_from_json}
use pcsuite_rs.Clipboard.Watch.Marks.{mark_all, recently_synced-mark}
use pcsuite_rs.Clipboard.Handshake.{message, lagged, deadline_passed, Hand, clip_handshake}
use pcsuite_rs.Clipboard.Handshake.Answer.{
  ready_if, IsAnswered, clip_handshake_sends, clip_handshake-IsAnswered,
}
use pcsuite_rs.Clipboard.Delivery.{no-IsPart, watch_text-delivered}

abbrev key : Bytes
key = replicate 32 107

abbrev iv : Bytes
iv = replicate 16 105

abbrev fresh : Shared
fresh = new_shared key iv (codes "127.0.0.1") 10382 true link_pending

padded : pad6 (codes "pc0000000") ≡ codes "pc0000"
unfolding pad6
padded = refl

padded_short : pad6 (codes "ab") ≡ 97 ∷ 98 ∷ 0 ∷ 0 ∷ 0 ∷ 0 ∷ []
unfolding pad6
padded_short = refl

png : mime_from_path (codes "/a.b/c.PNG") ≡ codes "image/png"
unfolding mime_from_path bytes_eq pcsuite_rs.Base.Text.Parts.after_last
png = refl

abbrev sample : RuyingFrame
sample = record {
  version = 1;
  field_a = replicate 6 65;
  field_b = replicate 6 66;
  byte_c = 2;
  byte_d = 0;
  field_e = replicate 11 48;
  cipher = 1 ∷ 2 ∷ 3 ∷ [];
}

sample-IsWellFormed : IsWellFormed sample
sample-IsWellFormed = omega arith

-- Two frames, the second cut in the middle, and nothing behind them: both are counted.
read_loop-handle_all_example :
    read_loop
      (λ f n. n + f.byte_c)
      (arrivals
        (take 50 (wire (sample ∷ sample ∷ [])) ∷ drop 50 (wire (sample ∷ sample ∷ [])) ∷ [])
        [])
      []
      0
    ≡ read_loop (λ f n. n + f.byte_c) [] [] 4
unfolding build to_be
read_loop-handle_all_example =
    read_loop-handle_all (λ f n. n + f.byte_c) (sample ∷ sample ∷ []) []
      (take 50 (wire (sample ∷ sample ∷ [])) ∷ drop 50 (wire (sample ∷ sample ∷ [])) ∷ []) [] 0
      (sample-IsWellFormed, (sample-IsWellFormed, tt)) no-IsPart (refl, (refl, tt)) refl

abbrev quiet_world : World
quiet_world = record {
  shared = record fresh { outgoing = some 0; last_text = some (codes "hi") };
  ticks = 0;
  effects = [];
}

abbrev hi_seen : Observation
hi_seen = record {
  text = some (codes "hi");
  image_sig = none;
  image = none;
  staged = false;
  now = 5;
  staged_ms = 0;
  now_ms = 0;
}

-- A parser that reads every text as the phone's message of the text "new".
abbrev new_text : Serde
new_text = record {
  from_str =
      λ bs. some (clip_text_value (codes "52467a") (codes "phone") (codes "nick") (codes "new") 0);
  to_string = λ v. [];
}

abbrev new_seen : Observation
new_seen = record hi_seen { text = some (codes "new"); now = 9 }

-- Between the frame and the look the watcher sends the text that stood on the clipboard before.
watch_round-on_clip_frame_example :
    let there = on_clip_frame new_text [] 4 quiet_world in
    let later =
      run toy_crypto new_text
        (codes "pc0000")
        (codes "mac")
        (codes "/tmp")
        (looks hi_seen ∷ arrives [] 7 ∷ [])
        there in
    (there.effects ≡ [] ++ (set_text (codes "new") ∷ []))
    × (watch_round toy_crypto new_text (codes "pc0000") (codes "mac") (codes "/tmp") new_seen later
        ≡ later)
unfolding clip_text_from_json clip_text_value get bytes_eq new_shared recently_synced
watch_round-on_clip_frame_example =
    watch_round-on_clip_frame toy_crypto new_text (codes "pc0000") (codes "mac") (codes "/tmp") []
      (codes "new") 4 quiet_world (looks hi_seen ∷ arrives [] 7 ∷ []) new_seen refl refl refl refl
      (omega arith) (omega arith) (omega arith, omega arith, (omega arith, omega arith, tt)) refl

recently_synced-mark_example :
    recently_synced (codes "a") 9 (mark_all ((codes "b", 7) ∷ []) (mark (codes "a") 4 fresh))
    ≡ ltb (9 - 4) echo_window
unfolding bytes_eq
recently_synced-mark_example =
    recently_synced-mark (codes "a") 4 9 ((codes "b", 7) ∷ []) fresh (refl, omega arith, tt)

abbrev cold : Hand
cold = record { shared = fresh; sent = [] }

abbrev startup : Bytes
startup = codes "SHADOW_LIKE:{}"

-- The deadline passes three times: two re-sends, and the link is down.
clip_handshake_sends_example :
    let (after, end) =
      clip_handshake toy startup true none
        (deadline_passed ∷ deadline_passed ∷ deadline_passed ∷ [])
        cold in
    (k : ℕ) × (k ≤ 2)
    × (after.sent ≡ [] ++ (replicate (suc k) startup ++ ready_if toy startup true end))
clip_handshake_sends_example =
    clip_handshake_sends toy startup true none
      (deadline_passed ∷ deadline_passed ∷ deadline_passed ∷ []) cold

abbrev reply_value : Value
reply_value = json_object (
    (
      codes "data",
      json_object
          ((codes "mobileDeviceInfo", json_object ((codes "key", string (codes "PK")) ∷ [])) ∷ []),
    )
    ∷ [])

abbrev reply : Bytes
reply = shadow_prefix ++ toy.to_string reply_value

abbrev reply_session : PhoneSession
reply_session = record {
  phone_key = codes "PK";
  phone_iv = [];
  mobile_device_id = codes "52467a";
  mobile_device_name = codes "phone";
}

reply_parsed : parse_shadow_reply toy reply ≡ some reply_session
unfolding get bytes_eq is_plain is_utf8
reply_parsed = reply_of toy toy-Laws reply_value refl

-- The reply comes after a deadline.
clip_handshake-IsAnswered_example : IsAnswered reply_session (
    clip_handshake toy startup true none
      ((lagged ∷ deadline_passed ∷ []) ++ (message reply ∷ []))
      cold)
clip_handshake-IsAnswered_example =
    clip_handshake-IsAnswered toy startup true (lagged ∷ deadline_passed ∷ []) [] reply
      reply_session cold (tt, (tt, tt)) reply_parsed

abbrev online : World
online = record { shared = record fresh { outgoing = some 3 }; ticks = 0; effects = [] }

abbrev phone : World
phone = record {
  shared = record fresh { phone_key = some key; phone_iv = some iv };
  ticks = 0;
  effects = [];
}

abbrev hi_json : Bytes
hi_json = clip_text_json toy (codes "pc0000") (codes "mac") clip_nick (codes "hi") 0

abbrev hi_frame : Bytes
hi_frame = build (frame_of (codes "52467a") (codes "pc0000") 2 0 (hi_json ++ toy_tag))

hi_built : build_frame toy_crypto hi_json key iv (codes "52467a") (codes "pc0000") 2 ≡ good hi_frame
unfolding build_frame gcm_encrypt gcm_setup
hi_built = refl

hi-IsSender : IsSender (codes "pc0000") (codes "mac") clip_nick 0
unfolding is_utf8
hi-IsSender = record { id_text = refl; name_text = refl; nick_text = refl; ts_fits = omega arith }

hi_short : length hi_json + 16 < 2 ^ 32
unfolding clip_text_json clip_text_value toy toy_to_string put_value size bytes_eq
hi_short = omega arith

hi-IsNonempty : IsNonempty hi_frame
unfolding build to_be
hi-IsNonempty = refl

watch_text-delivered_example :
    ((watch_text toy_crypto toy
        (codes "pc0000")
        (codes "mac")
        (codes "/tmp")
        (codes "hi")
        hi_seen
        online).effects
      ≡ [] ++ (queue_frame 3 hi_frame ∷ []))
    × (read_loop
          (on_frame toy_crypto toy (codes "phone") no_probes (λ n. n) (λ n. []))
          (arrivals (hi_frame ∷ []) [])
          []
          phone
        ≡ read_loop
            (on_frame toy_crypto toy (codes "phone") no_probes (λ n. n) (λ n. []))
            []
            []
            (receive_text toy (codes "hi") (0 + 1) (record phone { ticks = 0 + 1 })))
unfolding is_utf8 new_shared recently_synced
watch_text-delivered_example =
    watch_text-delivered toy_crypto toy_crypto_laws toy toy-Laws (codes "pc0000") (codes "mac")
      (codes "/tmp") (codes "hi") hi_seen online 3 {frame_bytes = hi_frame} (codes "phone")
      no_probes (λ n. n) (λ n. []) phone (hi_frame ∷ []) [] hi-IsSender refl refl hi_short refl refl
      refl hi_built refl refl (hi-IsNonempty, tt) (append-nil hi_frame)
