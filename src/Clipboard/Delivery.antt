-- ===== src/Clipboard/Delivery.antt =====
-- A text from one clipboard to the other: crates/pcsuite-core/src/clipboard.rs on both sides, with
-- crates/pcsuite-proto/src/ruying.rs and clip.rs between them.
use pcsuite_rs.Base.{
  ℕ, ◌+◌, ◌<◌, ◌≡◌, refl, sym, ap, ◌∙◌, true, false, List, [], ◌∷◌, ◌++◌, some, is_empty, length,
  All, append-nil, arith, take, drop, min, replicate, length-take, length-splice, inl, inr,
}
use pcsuite_rs.Base.Wire.{Bytes, to_be}
use pcsuite_rs.Base.Utf8.{is_utf8, from_utf8_lossy-valid}
use pcsuite_rs.Base.Outcome.{u32_mod}
use pcsuite_rs.Base.Streams.{Read, arrivals, concat, IsNonempty}
use pcsuite_rs.Crypto.{Primitives, Laws, Crypted-cases, good}
use pcsuite_rs.Crypto.Gcm.{gcm_setup, gcm_encrypt, gcm_decrypt, gcm_decrypt-gcm_encrypt}
use pcsuite_rs.Ruying.{RuyingFrame, build, default_frame}
use pcsuite_rs.Ruying.RoundTrip.{IsWellFormed}
use pcsuite_rs.Json.{Serde, Laws as JsonLaws}
use pcsuite_rs.Clip.{clip_text_json, clip_text_from_json}
use pcsuite_rs.Clip.Messages.{IsSender, clip_text_from_json-clip_text_json, clip_text_json-is_utf8}
use pcsuite_rs.Clipboard.{
  World, queue_frame, is_some_eq, recently_synced, mark, pad6, frame_of, build_frame,
}
use pcsuite_rs.Clipboard.Frames.{
  Probes, open_frame, on_frame, dispatch, on_clip_frame, receive_text,
}
use pcsuite_rs.Clipboard.Relay.{read_loop}
use pcsuite_rs.Clipboard.Relay.Framing.{IsPart, read_loop-handle_all}
use pcsuite_rs.Clipboard.Watch.{Observation, watch_text, clip_nick}

length-pad6 : (s : Bytes) → length (pad6 s) ≡ 6
unfolding pad6
length-pad6 s =
    let n : ℕ = min (length s) 6 in
    length-splice 0 (take n s) (replicate 6 0) (omega (arith, length-take n s))

frame_of-IsWellFormed :
    (a b : Bytes) (c d : ℕ) (cipher : Bytes)
    → length cipher < u32_mod
    → IsWellFormed (frame_of a b c d cipher)
frame_of-IsWellFormed a b c d cipher h = record {
  version_ok = refl;
  a_len = length-pad6 a;
  b_len = length-pad6 b;
  e_len = refl;
  cipher_fits = h;
}

-- No byte of the next frame has come.
pub no-IsPart : IsPart []
no-IsPart = record {
  whole = default_frame;
  whole-IsWellFormed = omega arith;
  next = 0;
  missing = drop 1 (build default_frame);
  cut = unfold build to_be in refl;
}

record Built (p : Primitives) (plain key iv a b : Bytes) (c : ℕ) (wire_bytes : Bytes) : Type 0 where
  cipher : Bytes
  encrypted : gcm_encrypt p plain key iv [] ≡ good cipher
  framed : build (frame_of a b c 0 cipher) ≡ wire_bytes

build_frame-Built :
    (p : Primitives) (plain key iv a b : Bytes) (c : ℕ) {wire_bytes : Bytes}
    → build_frame p plain key iv a b c ≡ good wire_bytes
    → Built p plain key iv a b c wire_bytes
unfolding build_frame
build_frame-Built p plain key iv a b c {wire_bytes} e =
    elim (Crypted-cases (gcm_encrypt p plain key iv [])) [
      | inl (x, f) ↦ absurd (ground (arith, f))
      | inr (cipher, f) ↦ record { cipher = cipher; encrypted = f; framed = ground (arith, f) }
    ]

length_encrypted :
    (p : Primitives) (laws : Laws p) (plain key iv : Bytes) {cipher : Bytes}
    → gcm_encrypt p plain key iv [] ≡ good cipher
    → length cipher ≡ length plain + 16
unfolding gcm_encrypt gcm_setup
length_encrypted p laws plain key iv {cipher} e =
    ground (arith, laws.gcm16_inverse (take 32 key) (take 16 iv) plain [] cipher)

module _ (p : Primitives) (laws : Laws p) (s : Serde) (json_laws : JsonLaws s) where
  -- The frame of a text on the receiving side, which holds the sender's key.
  on_frame-text :
      (pc_id : Bytes) (probes : Probes) (clock : ℕ → ℕ) (uuid : ℕ → Bytes) (v : World)
      (f : RuyingFrame) (key iv json text : Bytes)
      → v.shared.phone_key ≡ some key
      → v.shared.phone_iv ≡ some iv
      → f.byte_c ≡ 2
      → gcm_decrypt p f.cipher key iv [] ≡ good json
      → is_utf8 json ≡ true
      → clip_text_from_json s json ≡ some text
      → on_frame p s pc_id probes clock uuid f v
        ≡ receive_text s text (clock (v.ticks + 1)) (record v { ticks = v.ticks + 1 })
  unfolding open_frame on_frame dispatch on_clip_frame
  on_frame-text pc_id probes clock uuid v f key iv json text k i c d u t =
      let opened : open_frame p s pc_id f v.shared ≡ some json = rw (open_frame, k, i, d) refl in
      rw (on_frame, opened, c, dispatch, from_utf8_lossy-valid json u, on_clip_frame, t) refl

  -- What the watcher sends for a text: the frame goes to the connection's writer.
  watch_text_queues :
      (pc_id device_name temp_dir cur : Bytes) (o : Observation) (w : World) (conn : ℕ)
      {frame_bytes : Bytes}
      → w.shared.outgoing ≡ some conn
      → is_some_eq w.shared.last_text cur ≡ false
      → recently_synced cur o.now w.shared ≡ false
      → build_frame p
          (clip_text_json s pc_id device_name clip_nick cur o.now_ms)
          w.shared.pc_key
          w.shared.pc_iv
          w.shared.phone_id
          pc_id
          2
        ≡ good frame_bytes
      → (watch_text p s pc_id device_name temp_dir cur o w).effects
        ≡ w.effects ++ (queue_frame conn frame_bytes ∷ [])
  unfolding watch_text mark
  watch_text_queues pc_id device_name temp_dir cur o w conn c l r b = ground (arith, c, l, r, b)

  -- A text that is on one clipboard, is not the last one synchronised and was not synchronised just now
  -- goes out as one frame; the other side, with the sender's key as the phone's, takes it as the text it
  -- received, however the frame is cut on the way. The text is UTF-8 and not empty, and its message
  -- shorter than 2^32 - 16 bytes.
  pub watch_text-delivered :
      (pc_id device_name temp_dir cur : Bytes) (o : Observation) (w : World) (conn : ℕ)
      {frame_bytes : Bytes} (pc_id' : Bytes) (probes : Probes) (clock : ℕ → ℕ) (uuid : ℕ → Bytes)
      (v : World) (chunks : List Bytes) (reads : List Read)
      → IsSender pc_id device_name clip_nick o.now_ms
      → is_utf8 cur ≡ true
      → is_empty cur ≡ false
      → length (clip_text_json s pc_id device_name clip_nick cur o.now_ms) + 16 < u32_mod
      → w.shared.outgoing ≡ some conn
      → is_some_eq w.shared.last_text cur ≡ false
      → recently_synced cur o.now w.shared ≡ false
      → build_frame p
          (clip_text_json s pc_id device_name clip_nick cur o.now_ms)
          w.shared.pc_key
          w.shared.pc_iv
          w.shared.phone_id
          pc_id
          2
        ≡ good frame_bytes
      → v.shared.phone_key ≡ some w.shared.pc_key
      → v.shared.phone_iv ≡ some w.shared.pc_iv
      → All IsNonempty chunks
      → concat chunks ≡ frame_bytes
      → ((watch_text p s pc_id device_name temp_dir cur o w).effects
          ≡ w.effects ++ (queue_frame conn frame_bytes ∷ []))
        × (read_loop (on_frame p s pc_id' probes clock uuid) (arrivals chunks reads) [] v
            ≡ read_loop
                (on_frame p s pc_id' probes clock uuid)
                reads
                []
                (receive_text s cur (clock (v.ticks + 1)) (record v { ticks = v.ticks + 1 })))
  watch_text-delivered pc_id device_name temp_dir cur o w conn {frame_bytes} pc_id' probes clock
        uuid v chunks reads sender text full short c l r b k i n cut =
      let json : Bytes = clip_text_json s pc_id device_name clip_nick cur o.now_ms in
      let f = build_frame-Built p json w.shared.pc_key w.shared.pc_iv w.shared.phone_id pc_id 2 b in
      let sent : RuyingFrame = frame_of w.shared.phone_id pc_id 2 0 f.cipher in
      let good_frame = frame_of-IsWellFormed w.shared.phone_id pc_id 2 0 f.cipher (
        omega (
          arith,
          short,
          length_encrypted p laws json w.shared.pc_key w.shared.pc_iv f.encrypted,
        )) in
      let read : clip_text_from_json s json ≡ some cur =
        (clip_text_from_json-clip_text_json s json_laws pc_id device_name clip_nick o.now_ms sender
          cur text).0
        ∙ rw full refl in
      let opened =
        gcm_decrypt-gcm_encrypt p laws json w.shared.pc_key w.shared.pc_iv [] f.encrypted in
      let utf8 =
        clip_text_json-is_utf8 s json_laws pc_id device_name clip_nick o.now_ms sender cur text in
      (
        watch_text_queues pc_id device_name temp_dir cur o w conn c l r b,
        read_loop-handle_all (on_frame p s pc_id' probes clock uuid) (sent ∷ []) [] chunks reads v
              (good_frame, tt) no-IsPart n
              (cut ∙ sym f.framed ∙ sym (append-nil _) ∙ sym (append-nil _))
            ∙ ap (read_loop (on_frame p s pc_id' probes clock uuid) reads []) (
                on_frame-text pc_id' probes clock uuid v sent w.shared.pc_key w.shared.pc_iv json
                  cur k i refl opened utf8 read),
      )
