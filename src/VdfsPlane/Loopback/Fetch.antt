-- ===== src/VdfsPlane/Loopback/Fetch.antt =====
-- crates/pcsuite-core/src/vdfs.rs: `fetch` and `list_dir` against `serve_conn`.
use pcsuite_rs.Base.{
  ℕ, ◌+◌, ◌^◌, ◌≤◌, ◌<◌, ◌≡◌, refl, ap, sym, ◌∙◌, true, false, List, [], ◌++◌, some, length, take,
  drop, arith, take_all, length-take, length-drop, ==-≢, All,
}
use pcsuite_rs.Base.Streams.{Read, IsNonempty, concat, arrivals}
use pcsuite_rs.Base.Wire.{Bytes}
use pcsuite_rs.Base.Maybe.{or_else}
use pcsuite_rs.Base.Utf8.{from_utf8_lossy, is_utf8, from_utf8_lossy-valid}
use pcsuite_rs.Base.Result.{done}
use pcsuite_rs.Crypto.{good, Primitives, Laws}
use pcsuite_rs.Crypto.Gcm.{gcm12_seal, gcm12_open_noauth, gcm12_open_noauth-gcm12_seal}
use pcsuite_rs.Vdfs.{
  request_frame, response_frame, response_ciphertext, length-response_frame, response_frame_fields,
  response_ct_offset,
}
use pcsuite_rs.Vdfs.Request.{Request, stat_plaintext, read_plaintext, parse_request}
use pcsuite_rs.Vdfs.Request.RoundTrip.{
  parse_request-name, parse_request-read, length-stat_plaintext, length-read_plaintext,
}
use pcsuite_rs.Vdfs.Stat.{Stat, parse_stat}
use pcsuite_rs.Vdfs.Stat
use pcsuite_rs.VdfsPlane.{FileSystem, Metadata}
use pcsuite_rs.VdfsPlane.Server.{
  name_to_path, has_double, build_stat_response, read_file_range, response_plaintext, serve_conn,
}
use pcsuite_rs.VdfsPlane.Server.Paths.{NoBackslash, name_to_path-append}
use pcsuite_rs.VdfsPlane.Server.StatReply.{parse_stat-build_stat_response}
use pcsuite_rs.VdfsPlane.Client.{Network, roundtrip, stat_name, read, fetch}
use pcsuite_rs.VdfsPlane.Loopback.{Answers, serve_conn-request_frame}
use pcsuite_rs.VdfsPlane.Loopback.Reads.{read_loop-arrivals}

-- A network that carries each request to the server and its reply back, cut into reads anywhere.
abbrev pub Carries : Primitives → FileSystem → Bytes → Bytes → Bytes → Network → Type 0
Carries p fs key iv pc_id net =
    (frame reply : Bytes)
    → serve_conn p fs key iv pc_id frame ≡ done reply
    → (chunks : List Bytes) × (later : List Read) × All IsNonempty chunks
      × (concat chunks ≡ reply)
      × (net frame ≡ some (arrivals chunks later))

-- Any text can be sealed under the key.
abbrev pub Seals : Primitives → Bytes → Bytes → Type 0
Seals p key iv =
    (plain : Bytes) → (ct : Bytes) × (tag : Bytes) × (gcm12_seal p plain key iv ≡ good (ct, tag))

module _ (p : Primitives) (laws : Laws p) (fs : FileSystem) (key iv pc_id : Bytes)
    (net : Network) where
  -- A request that the server answers with `resp` is answered to the client that waits for just that
  -- many bytes, and opens to `resp`.
  roundtrip-Answers :
      {plain path resp ct tag ct' tag' : Bytes}
      → Carries p fs key iv pc_id net
      → Answers p laws fs key iv pc_id plain path resp ct tag ct' tag'
      → length resp < 2 ^ 31
      → (roundtrip net (request_frame tag ct) (response_ct_offset + length resp)
          ≡ done (response_frame tag' ct'))
        × (response_ciphertext (response_frame tag' ct') ≡ some ct')
        × (gcm12_open_noauth p ct' key iv ≡ good resp)
  unfolding roundtrip
  roundtrip-Answers {resp = resp} {ct = ct} {tag = tag} {ct' = ct'} {tag' = tag'} carries a fits =
      let (opened, len_ct, len_tag) = gcm12_open_noauth-gcm12_seal p laws resp key iv a.resealed in
      let (chunks, later, nonempty, whole, sent) =
        carries (request_frame tag ct) (response_frame tag' ct')
          (serve_conn-request_frame p laws fs key iv pc_id a) in
      let size : length (concat chunks) ≡ 22 + length resp =
        ap length whole ∙ length-response_frame tag' ct' len_tag ∙ ap (λ n. 22 + n) len_ct in
      let loop = read_loop-arrivals (22 + length resp) [] chunks later nonempty size in
      (
        rw (roundtrip, sent) (loop ∙ ap done whole),
        (response_frame_fields tag' ct' len_tag (omega (arith, len_ct, fits))).0,
        opened,
      )

  module _ (seals : Seals p key iv) (carries : Carries p fs key iv pc_id net) where
    -- What the client asks of a path, in the three commands.
    roundtrip-sealed :
        {path : Bytes} (plain resp : Bytes) (req : Request) {ct tag : Bytes}
        → gcm12_seal p plain key iv ≡ good (ct, tag)
        → length plain ≤ 2 ^ 20
        → parse_request plain ≡ some req
        → name_to_path (from_utf8_lossy req.name) pc_id ≡ path
        → response_plaintext fs req path ≡ done resp
        → length resp < 2 ^ 31
        → (ct' : Bytes) × (tag' : Bytes) × (roundtrip net
              (request_frame tag ct)
              (response_ct_offset + length resp)
            ≡ done (response_frame tag' ct'))
          × (response_ciphertext (response_frame tag' ct') ≡ some ct')
          × (gcm12_open_noauth p ct' key iv ≡ good resp)
    roundtrip-sealed plain resp req s small parsed located answered fits =
        let (ct', tag', s') = seals resp in
        let a : Answers p laws fs key iv pc_id plain _ resp _ _ ct' tag' = record {
          req = req;
          sealed = s;
          small = small;
          parsed = parsed;
          located = located;
          answered = answered;
          resealed = s';
        } in
        let (sent, ctext, opened) = roundtrip-Answers carries a fits in
        (ct', tag', sent, ctext, opened)

    module _ (path : Bytes) (text : is_utf8 (pc_id ++ path) ≡ true)
        (short : length (pc_id ++ path) ≤ 2 ^ 16) (single : has_double path ≡ false)
        (plain_slashes : NoBackslash path) (md : Metadata) (known : fs.metadata path ≡ some md)
        (sized : md.len < 2 ^ 30) (timed : or_else md.modified 0 < 2 ^ 64) where
      located : name_to_path (from_utf8_lossy (pc_id ++ path)) pc_id ≡ path
      located =
          ap (λ n. name_to_path n pc_id) (from_utf8_lossy-valid (pc_id ++ path) text)
          ∙ name_to_path-append pc_id path single plain_slashes

      stat_name-serve_conn :
          (st : Stat) × (stat_name p net key iv (pc_id ++ path) ≡ done st)
          × (st.size ≡ md.len)
          × (Stat.is_dir st ≡ md.is_dir)
      unfolding stat_name response_plaintext
      stat_name-serve_conn =
          let name = pc_id ++ path in
          let (len, reply) = parse_stat-build_stat_response fs path md known (omega arith) timed in
          let (st, parsed, size, mtime, is_dir, is_file) = reply in
          let (ct, tag, s) = seals (stat_plaintext 0x41 name) in
          let (ct', tag', sent, ctext, opened) =
            roundtrip-sealed (stat_plaintext 0x41 name) (build_stat_response fs path) _ s
              (omega (arith, length-stat_plaintext 0x41 name))
              (parse_request-name name (omega arith) 0x41).0 located refl (omega (arith, len)) in
          let sent' : roundtrip net (request_frame tag ct) 96 ≡ done (response_frame tag' ct') =
            ap (λ n. roundtrip net (request_frame tag ct) (22 + n)) (sym len) ∙ sent in
          (st, rw (stat_name, s, sent', ctext, opened, parsed), size, is_dir)

      module _ (content : Bytes) (stored : fs.contents path ≡ some content) where
        read-serve_conn :
            (size offset : ℕ)
            → size < 2 ^ 30
            → offset < 2 ^ 64
            → offset + size ≤ length content
            → read p net key iv (pc_id ++ path) size offset ≡ done (take size (drop offset content))
        unfolding read response_plaintext read_file_range
        read-serve_conn size offset hs ho hb =
            let name = pc_id ++ path in
            let resp = take size (drop offset content) in
            let len : length resp ≡ size =
              omega (arith, length-take size (drop offset content), length-drop offset content) in
            let (ct, tag, s) = seals (read_plaintext 0x42 size offset name) in
            let (ct', tag', sent, ctext, opened) =
              roundtrip-sealed (read_plaintext 0x42 size offset name) resp _ s
                (omega (arith, length-read_plaintext 0x42 size offset name))
                (parse_request-read 0x42 size offset name (omega arith) ho (omega arith)) located
                (rw stored) (omega (arith, len)) in
            let sent' : roundtrip net (request_frame tag ct) (22 + size)
                ≡ done (response_frame tag' ct') =
              ap (λ n. roundtrip net (request_frame tag ct) (22 + n)) (sym len) ∙ sent in
            rw (read, s, sent', ctext, opened) (ap done (take_all size resp (omega (arith, len))))

        -- A client that fetches a file over such a network gets the file's content, however the two
        -- replies are cut into reads.
        pub fetch-serve_conn :
            0 < length content
            → md.len ≡ length content
            → fetch p net key iv pc_id path ≡ done content
        unfolding fetch
        fetch-serve_conn nonempty same =
            let (st, sent, size, is_dir) = stat_name-serve_conn in
            let n : st.size ≡ length content = size ∙ same in
            rw
              (
                fetch,
                sent,
                n,
                ==-≢ (length content) 0 (omega arith),
                read-serve_conn (length content) 0 (omega (arith, same, sized)) (omega arith)
                    (omega arith),
              )
              (ap done (take_all (length content) content (omega arith)))
