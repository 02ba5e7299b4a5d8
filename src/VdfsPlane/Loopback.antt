-- ===== src/VdfsPlane/Loopback.antt =====
-- The client against the server, over any cutting of the reply into reads:
-- crates/pcsuite-core/src/vdfs.rs.
pub mod Reads
pub mod Fetch
pub mod Listing
use pcsuite_rs.Base.{
  ℕ, zero, suc, ◌+◌, ◌-◌, ◌*◌, ◌^◌, ◌≤◌, ◌<◌, ◌≡◌, ◌≢◌, refl, ap, sym, ◌∙◌, Bool, true, false, ◌&&◌,
  List, [], ◌∷◌, ◌++◌, Option, none, some, length, ltb, leb, if◌then◌else◌, ◌==◌, take, drop, slice,
  is_empty, arith, take-take, take-append-drop, take_all, length-take, length-drop, le→ltb_false,
  lt→ltb, le→leb, length-append, append-nil, append_assoc,
}
use pcsuite_rs.Base.Wire.{Bytes, to_be, from_be, length-to_be}
use pcsuite_rs.Base.Utf8.{from_utf8_lossy, is_utf8, from_utf8_lossy-valid}
use pcsuite_rs.Base.Result.{Result, done, bail, ◌>>=◌, context}
use pcsuite_rs.Crypto.{good, Primitives, Laws}
use pcsuite_rs.Crypto.Gcm.{gcm12_seal, gcm12_open_noauth, gcm12_open_noauth-gcm12_seal}
use pcsuite_rs.Vdfs.{
  request_frame, response_frame, response_ciphertext, request_total_len, request_ciphertext,
  length-request_frame, length-response_frame, request_frame_fields, response_frame_fields,
}
use pcsuite_rs.Vdfs.Request.{Request, stat_plaintext, list_plaintext, read_plaintext, parse_request}
use pcsuite_rs.VdfsPlane.{FileSystem, Metadata}
use pcsuite_rs.VdfsPlane.Server.{name_to_path, response_plaintext, serve_conn, lift, max_request}

request_total_len-take :
    (s : Bytes) → 8 ≤ length s → request_total_len (take 8 s) ≡ request_total_len s
unfolding request_total_len
request_total_len-take s h = rw (
  le→ltb_false (length s) 8 h,
  le→ltb_false (length (take 8 s)) 8 (omega (arith, length-take 8 s)),
  take-take 8 8 s (omega arith),
)

module _ (p : Primitives) (laws : Laws p) (fs : FileSystem) (key iv pc_id : Bytes) where
  -- What the server needs to answer a sealed request.
  pub record Answers (plain : Bytes) (path resp ct tag ct' tag' : Bytes) : Type 0 where
    pub req : Request
    pub sealed : gcm12_seal p plain key iv ≡ good (ct, tag)
    pub small : length plain ≤ 2 ^ 20
    pub parsed : parse_request plain ≡ some req
    pub located : name_to_path (from_utf8_lossy req.name) pc_id ≡ path
    pub answered : response_plaintext fs req path ≡ done resp
    pub resealed : gcm12_seal p resp key iv ≡ good (ct', tag')

  pub serve_conn-request_frame :
      {plain path resp ct tag ct' tag' : Bytes}
      → Answers plain path resp ct tag ct' tag'
      → serve_conn p fs key iv pc_id (request_frame tag ct) ≡ done (response_frame tag' ct')
  unfolding serve_conn
  serve_conn-request_frame {plain} {path} {resp} {ct} {tag} a =
      let (opened, len_ct, len_tag) = gcm12_open_noauth-gcm12_seal p laws plain key iv a.sealed in
      let s = request_frame tag ct in
      let len = length-request_frame tag ct len_tag in
      let (total, ctext) = request_frame_fields tag ct len_tag (omega (arith, a.small, len_ct)) in
      let whole : take 8 s ++ drop 8 s ≡ s = take-append-drop 8 s in
      let rest : take (length s - 8) (drop 8 s) ≡ drop 8 s =
        take_all (length s - 8) (drop 8 s) (omega (arith, length-drop 8 s)) in
      rw (
        serve_conn,
        le→ltb_false (length s) 8 (omega (arith, len)),
        request_total_len-take s (omega (arith, len)),
        total,
        le→leb 24 (length s) (omega (arith, len)),
        le→leb (length s) max_request (omega (arith, len, len_ct, a.small)),
        le→ltb_false (length (drop 8 s)) (length s - 8) (omega (arith, length-drop 8 s)),
        rest,
        whole,
        ctext,
        opened,
        a.parsed,
        a.located,
        a.answered,
        a.resealed,
      )
