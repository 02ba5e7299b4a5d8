-- ===== src/Mdfs/Transfer/Upload.antt =====
-- crates/pcsuite-core/src/mdfs.rs: `ChunkedWriter` against the decoders.
use pcsuite_rs.Base.{
  ℕ, ◌^◌, ◌<◌, ◌≤◌, ◌≡◌, refl, ap, sym, ◌∙◌, true, List, [], ◌∷◌, ◌++◌, some, length, leb, is_empty,
  arith, All, Bool-cases, inl, inr, length-append, append_assoc, append-nil,
}
use pcsuite_rs.Base.Wire.{Bytes, codes}
use pcsuite_rs.Base.Streams.{concat, nonempty_length}
use pcsuite_rs.Base.Text.{to_hex}
use pcsuite_rs.Base.Text.Hex.{from_str_radix-to_hex, to_hex-ascii, to_hex-no_cr}
use pcsuite_rs.Base.Utf8.{from_utf8_lossy-ascii, is_utf8-ascii}
use pcsuite_rs.Base.Result.{done}
use pcsuite_rs.Http
use pcsuite_rs.Http.{chunk_size}
use pcsuite_rs.Http.Chunked.{Chunk, encode, contents, dechunk-encode}
use pcsuite_rs.Mdfs.Transfer.{
  crlf, lenient_size, dechunk, ChunkedWriter, flush_buf, write, finish, chunk_target,
}
use pcsuite_rs.Mdfs.Transfer.Decoding.{
  IsWritten, dechunk_loop-encode, zero_line, zero-IsLast, strict_chunks,
}

-- A writer before its first write.
abbrev pub fresh : ChunkedWriter
fresh = record { inner = []; buf = [] }

abbrev pub write_all : ChunkedWriter → List Bytes → ChunkedWriter
write_all w [] = w
write_all w (b ∷ bs) = write_all (write w b) bs

-- The chunks as bytes, without the last chunk.
abbrev chunk_bytes : List Chunk → Bytes
chunk_bytes [] = []
chunk_bytes (c ∷ cs) = c.line ++ (13 ∷ 10 ∷ (c.content ++ (13 ∷ 10 ∷ chunk_bytes cs)))

encode-chunk_bytes :
    (cs : List Chunk) (last trailer : Bytes)
    → encode cs last trailer ≡ chunk_bytes cs ++ (last ++ (13 ∷ 10 ∷ trailer))
encode-chunk_bytes [] last trailer = refl
encode-chunk_bytes (c ∷ cs) last trailer = rw (
  encode-chunk_bytes cs last trailer,
  append_assoc c.line (13 ∷ 10 ∷ (c.content ++ (13 ∷ 10 ∷ chunk_bytes cs)))
      (last ++ (13 ∷ 10 ∷ trailer)),
  append_assoc c.content (13 ∷ 10 ∷ chunk_bytes cs) (last ++ (13 ∷ 10 ∷ trailer)),
)

chunk_bytes-append :
    (cs ds : List Chunk) → chunk_bytes (cs ++ ds) ≡ chunk_bytes cs ++ chunk_bytes ds
chunk_bytes-append [] ds = refl
chunk_bytes-append (c ∷ cs) ds = rw (
  chunk_bytes-append cs ds,
  append_assoc c.line (13 ∷ 10 ∷ (c.content ++ (13 ∷ 10 ∷ chunk_bytes cs))) (chunk_bytes ds),
  append_assoc c.content (13 ∷ 10 ∷ chunk_bytes cs) (chunk_bytes ds),
)

contents-append : (cs ds : List Chunk) → contents (cs ++ ds) ≡ contents cs ++ contents ds
contents-append [] ds = refl
contents-append (c ∷ cs) ds =
    rw (contents-append cs ds) (sym (append_assoc c.content (contents cs) (contents ds)))

IsWritten-append :
    (cs ds : List Chunk) → All IsWritten cs → All IsWritten ds → All IsWritten (cs ++ ds)
IsWritten-append [] ds h k = k
IsWritten-append (c ∷ cs) ds (h, hs) k = (h, IsWritten-append cs ds hs k)

chunk_size-to_hex : (n : ℕ) → n < 2 ^ 64 → chunk_size (to_hex n) ≡ some n
unfolding chunk_size
chunk_size-to_hex n h =
    rw (chunk_size, from_utf8_lossy-ascii (to_hex n) (to_hex-ascii n)) (from_str_radix-to_hex n h)

lenient_size-to_hex : (n : ℕ) → n < 2 ^ 64 → lenient_size (to_hex n) ≡ n
unfolding lenient_size
lenient_size-to_hex n h =
    rw (lenient_size, is_utf8-ascii (to_hex n) (to_hex-ascii n), from_str_radix-to_hex n h)

abbrev chunk_of : Bytes → Chunk
chunk_of bytes = record { line = to_hex (length bytes); content = bytes }

chunk_of-IsWritten :
    (bytes : Bytes) → 0 < length bytes → length bytes < 2 ^ 64 → IsWritten (chunk_of bytes)
chunk_of-IsWritten bytes h k = record {
  strict = record {
    no_cr = to_hex-no_cr (length bytes);
    sized = chunk_size-to_hex (length bytes) k;
    nonempty = h;
  };
  lenient = lenient_size-to_hex (length bytes) k;
}

-- What a writer has sent is chunks, and what it was given is their contents and its buffer.
record HasWritten (w : ChunkedWriter) (given : Bytes) : Type 0 where
  cs : List Chunk
  chunks : All IsWritten cs
  sent : w.inner ≡ chunk_bytes cs
  sum : given ≡ contents cs ++ w.buf

flush_buf-HasWritten :
    (w : ChunkedWriter) (given : Bytes)
    → HasWritten w given
    → length w.buf < 2 ^ 64
    → HasWritten (flush_buf w) given × (is_empty (flush_buf w).buf ≡ true)
unfolding flush_buf
flush_buf-HasWritten w given h k = elim (Bool-cases (is_empty w.buf)) [
  | inl empty ↦ rw empty (h, empty)
  | inr full ↦ rw full (
    record {
      cs = h.cs ++ (chunk_of w.buf ∷ []);
      chunks =
          IsWritten-append h.cs (chunk_of w.buf ∷ []) h.chunks
            (chunk_of-IsWritten w.buf (nonempty_length w.buf full) k, tt);
      sent =
          ap (λ i. i ++ (to_hex (length w.buf) ++ (crlf ++ (w.buf ++ crlf)))) h.sent
          ∙ sym (chunk_bytes-append h.cs (chunk_of w.buf ∷ []));
      sum =
          h.sum
          ∙ sym (
              append-nil _
              ∙ contents-append h.cs (chunk_of w.buf ∷ [])
              ∙ ap (λ b. contents h.cs ++ b) (append-nil w.buf));
    },
    refl,
  )
]

buffer_bound :
    (w : ChunkedWriter) (given : Bytes) → HasWritten w given → length w.buf ≤ length given
buffer_bound w given h = omega (arith, ap length h.sum, length-append (contents h.cs) w.buf)

write-HasWritten :
    (w : ChunkedWriter) (given bytes : Bytes)
    → HasWritten w given
    → length (given ++ bytes) < 2 ^ 64
    → HasWritten (write w bytes) (given ++ bytes)
unfolding write
write-HasWritten w given bytes h k =
    let w' : ChunkedWriter = record { inner = w.inner; buf = w.buf ++ bytes } in
    let h' : HasWritten w' (given ++ bytes) = record {
      cs = h.cs;
      chunks = h.chunks;
      sent = h.sent;
      sum = ap (λ g. g ++ bytes) h.sum ∙ append_assoc (contents h.cs) w.buf bytes;
    } in
    elim (Bool-cases (leb chunk_target (length (w.buf ++ bytes)))) [
      | inl long ↦ rw long (
          (flush_buf-HasWritten w' (given ++ bytes) h'
            (omega (arith, k, buffer_bound w' (given ++ bytes) h'))).0)
      | inr short ↦ rw short h'
    ]

write_all-HasWritten :
    (w : ChunkedWriter) (given : Bytes) (bs : List Bytes)
    → HasWritten w given
    → length (given ++ concat bs) < 2 ^ 64
    → HasWritten (write_all w bs) (given ++ concat bs)
write_all-HasWritten w given [] h k = rw (append-nil given) h
write_all-HasWritten w given (b ∷ bs) h k =
    let assoc = append_assoc given b (concat bs) in
    let short : length (given ++ b) < 2 ^ 64 = omega (
      arith,
      k,
      length-append given (b ++ concat bs),
      length-append b (concat bs),
      length-append given b,
    ) in
    rw (← assoc) (
      write_all-HasWritten (write w b) (given ++ b) bs (write-HasWritten w given b h short)
        (let e = ap length assoc in omega (arith, e, k)))

nil_of_empty : (bs : Bytes) → is_empty bs ≡ true → bs ≡ []
nil_of_empty [] h = refl
nil_of_empty (b ∷ bs) h = cc

-- What was sent in the end: chunks that hold all that was written, and the last chunk.
record Sent (bytes given : Bytes) : Type 0 where
  cs : List Chunk
  chunks : All IsWritten cs
  sent : bytes ≡ encode cs (codes "0") (13 ∷ 10 ∷ [])
  sum : contents cs ≡ given

finish-Sent :
    (bs : List Bytes) → length (concat bs) < 2 ^ 64 → Sent (finish (write_all fresh bs)) (concat bs)
unfolding finish
finish-Sent bs k =
    let start : HasWritten fresh [] = record { cs = []; chunks = tt; sent = refl; sum = refl } in
    let w = write_all fresh bs in
    let h = write_all-HasWritten fresh [] bs start k in
    let (f, empty) =
      flush_buf-HasWritten w (concat bs) h (omega (arith, k, buffer_bound w (concat bs) h)) in
    record {
      cs = f.cs;
      chunks = f.chunks;
      sent =
          ap (λ i. i ++ (b'0' ∷ 13 ∷ 10 ∷ 13 ∷ 10 ∷ [])) f.sent
          ∙ sym (encode-chunk_bytes f.cs (codes "0") (13 ∷ 10 ∷ []));
      sum = sym (
          f.sum
          ∙ ap (λ b. contents f.cs ++ b) (nil_of_empty (flush_buf w).buf empty)
          ∙ append-nil (contents f.cs));
    }

-- Whatever is written to a fresh `ChunkedWriter` in whatever portions, less than 2^64 bytes of it: what
-- `finish` has sent is decoded to just those bytes, by this module's decoder and by the cloud client's.
pub dechunk-finish :
    (bs : List Bytes)
    → length (concat bs) < 2 ^ 64
    → (dechunk (finish (write_all fresh bs)) ≡ concat bs)
      × (Http.dechunk (finish (write_all fresh bs)) ≡ done (concat bs))
unfolding dechunk
dechunk-finish bs k =
    let s = finish-Sent bs k in
    let whole = encode s.cs (codes "0") (13 ∷ 10 ∷ []) in
    (
      ap dechunk s.sent
          ∙ dechunk_loop-encode (length whole) s.cs (codes "0") (13 ∷ 10 ∷ []) s.chunks
              (omega arith, tt) zero_line (omega arith)
          ∙ s.sum,
      ap Http.dechunk s.sent
          ∙ dechunk-encode s.cs (codes "0") (13 ∷ 10 ∷ []) (strict_chunks s.cs s.chunks) zero-IsLast
          ∙ ap done s.sum,
    )
