-- ===== src/Http/Streaming/Cut.antt =====
-- crates/pcsuite-net/src/https.rs: `stream_chunked` over a chunked body that arrives cut anywhere.
use pcsuite_rs.Base.{
  suc, ◌≡◌, refl, ◌∙◌, false, List, [], ◌∷◌, ◌++◌, length, arith, All, inl, inr, append_assoc,
}
use pcsuite_rs.Base.Wire.{Bytes}
use pcsuite_rs.Base.Streams.{Read, got, failed, IsNonempty, concat, arrivals}
use pcsuite_rs.Base.Result.{done}
use pcsuite_rs.Http.{dechunk}
use pcsuite_rs.Http.Chunked.{Chunk, IsChunk, IsLast, encode, contents, dechunk-encode}
use pcsuite_rs.Http.Streaming.{
  Copy, Round, progressed, idle, finished, malformed, settle, with_more, stream_chunked,
}
use pcsuite_rs.Http.Streaming.Settle.{Owes}
use pcsuite_rs.Http.Streaming.Rounds.{Settled, settle-Owes}

module _ (last trailer : Bytes) (is_last : IsLast last) where
  with_more-Owes :
      (c : Copy) (chunk later total : Bytes)
      → Owes last trailer is_last c (chunk ++ later) total
      → Owes last trailer is_last (with_more c chunk) later total
  with_more-Owes c chunk later total (inl s) = inl (record {
    d = s.d;
    cs = s.cs;
    chunks = s.chunks;
    owed = s.owed;
    some_owed = s.some_owed;
    no_gap = s.no_gap;
    ahead = append_assoc c.buf chunk later ∙ s.ahead;
    sum = s.sum;
  })
  with_more-Owes c chunk later total (inr (inl s)) = inr (
      inl (record {
        cs = s.cs;
        chunks = s.chunks;
        none_owed = s.none_owed;
        gap = s.gap;
        ahead = append_assoc c.buf chunk later ∙ s.ahead;
        sum = s.sum;
      }))
  with_more-Owes c chunk later total (inr (inr s)) = inr (
      inr (record {
        cs = s.cs;
        chunks = s.chunks;
        none_owed = s.none_owed;
        no_gap = s.no_gap;
        ahead = append_assoc c.buf chunk later ∙ s.ahead;
        sum = s.sum;
      }))

  -- Once the rounds have written everything, no read is waited for.
  stream_chunked-finished :
      (src : List Read) (c c' : Copy) (total : Bytes)
      → settle (suc (length c.buf)) c ≡ finished c'
      → c'.out ≡ total
      → stream_chunked src c ≡ (total, done (length total))
  unfolding stream_chunked
  stream_chunked-finished [] c c' total e h = rw (stream_chunked, e, h)
  stream_chunked-finished (failed ∷ src) c c' total e h = rw (stream_chunked, e, h)
  stream_chunked-finished (got chunk ∷ src) c c' total e h = rw (stream_chunked, e, h)

  stream_chunked-idle :
      (src : List Read) (c c' : Copy) (chunk : Bytes)
      → settle (suc (length c.buf)) c ≡ idle c'
      → IsNonempty chunk
      → stream_chunked (got chunk ∷ src) c ≡ stream_chunked src (with_more c' chunk)
  unfolding stream_chunked
  stream_chunked-idle src c c' chunk e h = rw (stream_chunked, e, h)

  -- No read is needed once the rest of the body is buffered.
  stream_chunked-buffered :
      (src : List Read) (c : Copy) (total : Bytes) (r : Round)
      → settle (suc (length c.buf)) c ≡ r
      → Settled last trailer is_last [] total r
      → stream_chunked src c ≡ (total, done (length total))
  stream_chunked-buffered src c total (finished c') e g = stream_chunked-finished src c c' total e g
  stream_chunked-buffered src c total (idle c') e (s, some_later) = absurd (omega arith)
  stream_chunked-buffered src c total (progressed c') e g = absurd g
  stream_chunked-buffered src c total (malformed c') e g = absurd g

  stream_chunked-next :
      (chunk later total : Bytes) (src : List Read) (c : Copy) (r : Round)
      → IsNonempty chunk
      → settle (suc (length c.buf)) c ≡ r
      → Settled last trailer is_last (chunk ++ later) total r
      → ((c : Copy)
          → Owes last trailer is_last c later total
          → stream_chunked src c ≡ (total, done (length total)))
      → stream_chunked (got chunk ∷ src) c ≡ (total, done (length total))
  stream_chunked-next chunk later total src c (finished c') h e g k =
      stream_chunked-finished (got chunk ∷ src) c c' total e g
  stream_chunked-next chunk later total src c (idle c') h e (s, some_later) k =
      stream_chunked-idle src c c' chunk e h
      ∙ k (with_more c' chunk) (with_more-Owes c' chunk later total s)
  stream_chunked-next chunk later total src c (progressed c') h e g k = absurd g
  stream_chunked-next chunk later total src c (malformed c') h e g k = absurd g

  stream_chunked-Owes :
      (chunks : List Bytes) (later : List Read) (c : Copy) (total : Bytes)
      → All IsNonempty chunks
      → Owes last trailer is_last c (concat chunks) total
      → stream_chunked (arrivals chunks later) c ≡ (total, done (length total))
  stream_chunked-Owes [] later c total h s =
      stream_chunked-buffered later c total (settle (suc (length c.buf)) c) refl
        (settle-Owes last trailer is_last (suc (length c.buf)) c [] total s (omega arith))
  stream_chunked-Owes (chunk ∷ chunks) later c total (h, hs) s =
      stream_chunked-next chunk (concat chunks) total (arrivals chunks later) c
        (settle (suc (length c.buf)) c) h refl
        (settle-Owes last trailer is_last (suc (length c.buf)) c (chunk ++ concat chunks) total s
          (omega arith))
        (λ c' s'. stream_chunked-Owes chunks later c' total hs s')

-- A chunked body that arrives cut anywhere, some of it perhaps with the headers, is written to the sink
-- as `dechunk` decodes it whole: the contents of its chunks. The function returns their length, and
-- needs no read behind the last chunk's line.
pub stream_chunked-dechunk :
    (cs : List Chunk) (last trailer buffered : Bytes) (chunks : List Bytes) (later : List Read)
    → All IsChunk cs
    → IsLast last
    → All IsNonempty chunks
    → buffered ++ concat chunks ≡ encode cs last trailer
    → (stream_chunked
          (arrivals chunks later)
          (record { out = []; buf = buffered; remaining = 0; expect_crlf = false })
        ≡ (contents cs, done (length (contents cs))))
      × (dechunk (encode cs last trailer) ≡ done (contents cs))
stream_chunked-dechunk cs last trailer buffered chunks later h is_last nonempty whole = (
  stream_chunked-Owes last trailer is_last chunks later _ (contents cs) nonempty (
      inr (
        inr (record {
          cs = cs;
          chunks = h;
          none_owed = refl;
          no_gap = refl;
          ahead = whole;
          sum = refl;
        }))),
  dechunk-encode cs last trailer h is_last,
)
