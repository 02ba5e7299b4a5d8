-- ===== src/VdfsPlane/Loopback/Listing.antt =====
-- crates/pcsuite-core/src/vdfs.rs: `list_dir` against `serve_conn`.
use pcsuite_rs.Base.{
  ◌%◌, take-append, ◌+◌, ◌^◌, ◌≤◌, ◌<◌, ◌≡◌, refl, ap, ◌∙◌, true, false, [], ◌∷◌, ◌++◌, none, some,
  length, arith, le→leb, All, inr,
}
use pcsuite_rs.Base.Streams.{concat}
use pcsuite_rs.Base.Wire.{Bytes, to_be, length-to_be, from_be-to_be}
use pcsuite_rs.Base.Outcome.{u32_mod}
use pcsuite_rs.Base.Utf8.{is_utf8, from_utf8_lossy-valid}
use pcsuite_rs.Base.Result.{done}
use pcsuite_rs.Crypto.{good, Primitives, Laws}
use pcsuite_rs.Crypto.Gcm.{gcm12_open_noauth, gcm12_open_noauth-gcm12_seal}
use pcsuite_rs.Vdfs.{
  request_frame, response_frame, response_ciphertext, length-response_frame, response_frame_fields,
}
use pcsuite_rs.Vdfs.Request.{list_plaintext}
use pcsuite_rs.Vdfs.Request.RoundTrip.{parse_request-name, length-list_plaintext}
use pcsuite_rs.VdfsPlane.{FileSystem}
use pcsuite_rs.VdfsPlane.Server.{name_to_path, has_double, list_local_dir, response_plaintext}
use pcsuite_rs.VdfsPlane.Server.Paths.{NoBackslash, name_to_path-append}
use pcsuite_rs.VdfsPlane.Client.{Network, roundtrip_framed, list_dir, next_total}
use pcsuite_rs.VdfsPlane.Loopback.{Answers, serve_conn-request_frame}
use pcsuite_rs.VdfsPlane.Loopback.Reads.{framed_loop-arrivals}
use pcsuite_rs.VdfsPlane.Loopback.Fetch.{Carries, Seals}
use pcsuite_rs.Vdfs.Dirent.{serialize_dirent_list}
use pcsuite_rs.Vdfs.Dirent.RoundTrip.{IsWritable, listed, parse_dirent_list-serialize_dirent_list}

-- A reply announces its own length to the client.
next_total-response_frame :
    (tag ct : Bytes)
    → length tag ≡ 16
    → length ct < 2 ^ 31
    → next_total none (response_frame tag ct) ≡ some (22 + length ct)
unfolding next_total response_frame
next_total-response_frame tag ct h fits =
    let size = (length ct + 17) % u32_mod in
    rw
      (
        next_total,
        le→leb 5 (length (response_frame tag ct)) (omega (arith, length-response_frame tag ct h)),
        take-append 4 (to_be 4 size) (0 ∷ (tag ++ ct)) (length-to_be 4 size),
        from_be-to_be 4 size (omega arith),
      )
      (ap some (omega arith))

module _ (p : Primitives) (laws : Laws p) (fs : FileSystem) (key iv pc_id : Bytes)
    (net : Network) where
  roundtrip_framed-Answers :
      {plain path resp ct tag ct' tag' : Bytes}
      → Carries p fs key iv pc_id net
      → Answers p laws fs key iv pc_id plain path resp ct tag ct' tag'
      → length resp < 2 ^ 31
      → (roundtrip_framed net (request_frame tag ct) ≡ done (response_frame tag' ct'))
        × (response_ciphertext (response_frame tag' ct') ≡ some ct')
        × (gcm12_open_noauth p ct' key iv ≡ good resp)
  unfolding roundtrip_framed
  roundtrip_framed-Answers {resp = resp} {ct = ct} {tag = tag} {ct' = ct'} {tag' = tag'} carries a
        fits =
      let (opened, len_ct, len_tag) = gcm12_open_noauth-gcm12_seal p laws resp key iv a.resealed in
      let (chunks, later, nonempty, whole, sent) =
        carries (request_frame tag ct) (response_frame tag' ct')
          (serve_conn-request_frame p laws fs key iv pc_id a) in
      let size : length (concat chunks) ≡ 22 + length ct' =
        ap length whole ∙ length-response_frame tag' ct' len_tag in
      let fits' : length ct' < 2 ^ 31 = omega (arith, len_ct, fits) in
      let loop =
        framed_loop-arrivals none [] chunks later (22 + length ct') nonempty
          (ap (next_total none) whole ∙ next_total-response_frame tag' ct' len_tag fits') size
          (omega arith) (inr (refl, omega arith)) in
      (
        rw (roundtrip_framed, sent) (loop ∙ ap done whole),
        (response_frame_fields tag' ct' len_tag fits').0,
        opened,
      )

  -- A client that lists a directory over such a network gets the entries that the server's directory
  -- has, but for `.`, `..` and the nameless, however the reply is cut into reads.
  pub list_dir-serve_conn :
      Seals p key iv
      → Carries p fs key iv pc_id net
      → (path : Bytes) → is_utf8 (pc_id ++ path) ≡ true
      → length (pc_id ++ path) ≤ 2 ^ 16
      → has_double path ≡ false
      → NoBackslash path
      → All IsWritable (list_local_dir fs path)
      → length (serialize_dirent_list (list_local_dir fs path)) < 2 ^ 31
      → list_dir p net key iv pc_id path ≡ done (listed (list_local_dir fs path))
  unfolding list_dir response_plaintext
  list_dir-serve_conn seals carries path text short single plain_slashes writable fits =
      let name = pc_id ++ path in
      let resp = serialize_dirent_list (list_local_dir fs path) in
      let (ct, tag, s) = seals (list_plaintext 0x43 name) in
      let (ct', tag', s') = seals resp in
      let a : Answers p laws fs key iv pc_id (list_plaintext 0x43 name) path resp ct tag ct' tag' =
        record {
          req = record { cmd = 2; size = 0; offset = 0; name = name };
          sealed = s;
          small = omega (arith, length-list_plaintext 0x43 name);
          parsed = (parse_request-name name (omega arith) 0x43).1;
          located =
              ap (λ n. name_to_path n pc_id) (from_utf8_lossy-valid name text)
              ∙ name_to_path-append pc_id path single plain_slashes;
          answered = refl;
          resealed = s';
        } in
      let (sent, ctext, opened) = roundtrip_framed-Answers carries a fits in
      rw (list_dir, s, sent, ctext, opened)
        (ap done (parse_dirent_list-serialize_dirent_list (list_local_dir fs path) writable))
