-- ===== src/Clip/Tests.antt =====
-- Runs of the clipboard's messages, and its theorems at concrete inputs.
use pcsuite_rs.Base.{◌≡◌, refl, true, [], ◌∷◌, ◌++◌, none, some, arith, bytes_eq}
use pcsuite_rs.Base.Wire.{Bytes, codes, starts_with}
use pcsuite_rs.Base.Utf8.{is_utf8}
use pcsuite_rs.Base.Text.{contains}
use pcsuite_rs.Json.{json_object, string, get}
use pcsuite_rs.Json.Toy.{toy, toy-Laws}
use pcsuite_rs.Clip.{
  PcInfo, clip_text_from_json, clip_image_ref_json, clip_image_from_json, shadow_startup,
  shadow_ready, parse_shadow_reply, command_announce, command_request_clipboard,
  command_local_device, command_register_remote, session_from,
}
use pcsuite_rs.Clip.Messages.{IsSender, clip_image_from_json-clip_image_ref_json}
use pcsuite_rs.Clip.Echoes.{IsText, own_messages_ignored}

sample-IsSender : IsSender (codes "pc0000") (codes "mac") (codes "nick") 123
unfolding is_utf8
sample-IsSender = record {
  id_text = refl;
  name_text = refl;
  nick_text = refl;
  ts_fits = omega arith;
}

-- The keys of an object are kept sorted.
sorted_keys :
    json_object ((codes "type", string (codes "x")) ∷ (codes "data", string []) ∷ [])
    ≡ json_object ((codes "data", string []) ∷ (codes "type", string (codes "x")) ∷ [])
unfolding bytes_eq
sorted_keys = refl

-- "hello 世"
abbrev hello : Bytes
hello = codes "hello " ++ (0xe4 ∷ 0xb8 ∷ 0x96 ∷ [])

hello_text : is_utf8 hello ≡ true
unfolding is_utf8
hello_text = refl

abbrev image_path : Bytes
image_path = codes "\\Users\\me\\img.jpeg"

clip_image_from_json-clip_image_ref_json_example :
    let json =
      clip_image_ref_json toy
        (codes "pc0000")
        (codes "mac")
        (codes "nick")
        image_path
        (codes "image/jpeg")
        123 in
    (clip_image_from_json toy json ≡ some (record { path = image_path; mime = codes "image/jpeg" }))
    × (clip_text_from_json toy json ≡ none)
unfolding contains starts_with is_utf8
clip_image_from_json-clip_image_ref_json_example =
    clip_image_from_json-clip_image_ref_json toy toy-Laws (codes "pc0000") (codes "mac")
      (codes "nick") 123 sample-IsSender image_path (codes "image/jpeg") refl refl

abbrev sample_pc : PcInfo
sample_pc = record {
  ip = codes "127.0.0.1";
  pc_device_id = codes "pc0000";
  pc_device_name = codes "mac";
  key = codes "K";
  iv = codes "I";
  account_open_id = codes "0123456789abcdef";
  account_name = codes "nick";
  connect_type = codes "USB";
}

sample_pc-IsText : IsText sample_pc
unfolding is_utf8
sample_pc-IsText = record {
  ip_text = refl;
  id_text = refl;
  name_text = refl;
  key_text = refl;
  iv_text = refl;
  open_id_text = refl;
  account_text = refl;
  connect_text = refl;
}

own_messages_ignored_example :
    (parse_shadow_reply toy (shadow_startup toy sample_pc 8904 5679) ≡ none)
    × (parse_shadow_reply toy (shadow_ready toy) ≡ none)
    × (command_local_device toy (command_announce toy sample_pc.pc_device_id) ≡ none)
    × (command_local_device toy (command_request_clipboard toy) ≡ none)
    × (command_local_device toy (command_register_remote toy (codes "{}")) ≡ none)
unfolding is_utf8
own_messages_ignored_example =
    own_messages_ignored toy toy-Laws sample_pc 8904 5679 (codes "{}") sample_pc-IsText
      (omega arith) (omega arith) refl

-- A reply with a key, and one without.
reply_read :
    session_from (
      json_object (
        (
          codes "data",
          json_object (
              (codes "mobileDeviceInfo", json_object ((codes "key", string (codes "PK")) ∷ []))
              ∷ []),
        )
        ∷ []))
    ≡ some (record {
      phone_key = codes "PK";
      phone_iv = [];
      mobile_device_id = codes "52467a";
      mobile_device_name = codes "phone";
    })
unfolding get bytes_eq
reply_read = refl

no_key : session_from (json_object ((codes "data", json_object []) ∷ [])) ≡ none
unfolding get bytes_eq
no_key = refl
