-- ===== src/Http/Tests.antt =====
-- Runs of the cloud client's response parser, and its theorems at concrete inputs.
use pcsuite_rs.Base.{◌≡◌, refl, arith, false, List, [], ◌∷◌, ◌++◌, All}
use pcsuite_rs.Base.Wire.{Bytes, codes, position_of, position_from, starts_with}
use pcsuite_rs.Base.Text.{
  white_prefix, trim_start_loop, trim_start, trim_end, trim, split_once, split_loop, split, lines,
  words_loop, split_whitespace, contains, digits_from, from_str_radix,
}
use pcsuite_rs.Base.Utf8.{from_utf8_lossy}
use pcsuite_rs.Base.Streams.{failed, arrivals}
use pcsuite_rs.Base.Result.{done, bail}
use pcsuite_rs.Http.{
  crlf, status_of, says_chunked, any_chunked, chunk_size, dechunk_loop, dechunk, parse_response,
}
use pcsuite_rs.Http.Chunked.{Chunk, IsChunk, IsLast, encode}
use pcsuite_rs.Http.Streaming.{stream_chunked}
use pcsuite_rs.Http.Streaming.Cut.{stream_chunked-dechunk}

-- The repository's own tests of `parse_response`.
plain_response :
    parse_response (
      codes "HTTP/1.1 200 OK"
      ++ (crlf ++ (codes "Content-Length: 3" ++ (crlf ++ (crlf ++ codes "{a}")))))
    ≡ done (record { status = 200; body = codes "{a}" })
unfolding parse_response status_of says_chunked any_chunked lines split split_loop split_once
    split_whitespace words_loop white_prefix from_utf8_lossy contains from_str_radix digits_from
    position_of position_from starts_with
plain_response = refl

abbrev first_chunk : Chunk
first_chunk = record { line = codes "3;x=1"; content = codes "abc" }

abbrev second_chunk : Chunk
second_chunk = record { line = codes "A"; content = codes "0123456789" }

abbrev body : List Chunk
body = first_chunk ∷ second_chunk ∷ []

chunked_response :
    parse_response (
      codes "HTTP/1.1 404 X"
      ++ (crlf
          ++ (codes "Transfer-Encoding: Chunked"
              ++ (crlf ++ (crlf ++ encode body (codes "0") crlf)))))
    ≡ done (record { status = 404; body = codes "abc0123456789" })
unfolding parse_response status_of says_chunked any_chunked lines split split_loop split_once
    split_whitespace words_loop white_prefix from_utf8_lossy contains from_str_radix digits_from
    position_of position_from starts_with dechunk dechunk_loop chunk_size trim trim_start
    trim_start_loop trim_end
chunked_response = refl

malformed_size : dechunk (codes "zz" ++ (crlf ++ codes "abc")) ≡ bail "malformed chunk size"
unfolding dechunk dechunk_loop chunk_size trim trim_start trim_start_loop trim_end split_once
    white_prefix from_utf8_lossy from_str_radix digits_from position_of position_from starts_with
malformed_size = refl

body-IsChunk : All IsChunk body
unfolding chunk_size trim trim_start trim_start_loop trim_end split_once white_prefix
    from_utf8_lossy from_str_radix digits_from
body-IsChunk = (
  record {
    no_cr = (omega arith, (omega arith, (omega arith, (omega arith, (omega arith, tt)))));
    sized = refl;
    nonempty = omega arith;
  },
  (record { no_cr = (omega arith, tt); sized = refl; nonempty = omega arith }, tt),
)

zero-IsLast : IsLast (codes "0")
unfolding chunk_size trim trim_start trim_start_loop trim_end split_once white_prefix
    from_utf8_lossy from_str_radix digits_from
zero-IsLast = record { no_cr = (omega arith, tt); sized = refl }

-- The body in three pieces: within a size line, within a chunk, and the rest.
abbrev pieces : List Bytes
pieces =
    (codes ";x=1" ++ (crlf ++ codes "a"))
    ∷ (codes "bc" ++ (crlf ++ codes "A"))
    ∷ (crlf ++ (codes "0123456789" ++ (crlf ++ (codes "0" ++ (crlf ++ crlf)))))
    ∷ []

stream_chunked-dechunk_example :
    (stream_chunked
        (arrivals pieces (failed ∷ []))
        (record { out = []; buf = codes "3"; remaining = 0; expect_crlf = false })
      ≡ (codes "abc0123456789", done 13))
    × (dechunk (encode body (codes "0") crlf) ≡ done (codes "abc0123456789"))
stream_chunked-dechunk_example =
    stream_chunked-dechunk body (codes "0") crlf (codes "3") pieces (failed ∷ []) body-IsChunk
      zero-IsLast (refl, (refl, (refl, tt))) refl
