-- ===== src/Http/Chunked.antt =====
-- crates/pcsuite-net/src/https.rs: `dechunk` against chunked bodies. A body is described by its chunks:
-- a size line, with or without a chunk extension, and the data of that size.
use pcsuite_rs.Base.{
  ℕ, zero, suc, ◌+◌, ◌<◌, ◌≤◌, ◌≡◌, ◌≢◌, refl, List, [], ◌∷◌, ◌++◌, some, length, ==-≢, min, arith,
  All, length-append, take-append, drop-append_add, le→ltb_false,
}
use pcsuite_rs.Base.Wire.{Bytes}
use pcsuite_rs.Base.Search.{position_of_pair}
use pcsuite_rs.Base.Result.{done}
use pcsuite_rs.Http.{chunk_size, dechunk_loop, dechunk}

pub record Chunk : Type 0 where
  pub line : Bytes
  pub content : Bytes

pub record IsChunk (c : Chunk) : Type 0 where
  pub no_cr : All (λ b. b ≢ 13) c.line
  pub sized : chunk_size c.line ≡ some (length c.content)
  pub nonempty : 0 < length c.content

-- The line of the last chunk, of size 0.
pub record IsLast (line : Bytes) : Type 0 where
  pub no_cr : All (λ b. b ≢ 13) line
  pub sized : chunk_size line ≡ some 0

abbrev pub encode : List Chunk → Bytes → Bytes → Bytes
encode [] last trailer = last ++ (13 ∷ 10 ∷ trailer)
encode (c ∷ cs) last trailer =
    c.line ++ (13 ∷ 10 ∷ (c.content ++ (13 ∷ 10 ∷ encode cs last trailer)))

abbrev pub contents : List Chunk → Bytes
contents [] = []
contents (c ∷ cs) = c.content ++ contents cs

dechunk_loop-encode :
    (fuel : ℕ) (cs : List Chunk) (last trailer : Bytes)
    → All IsChunk cs
    → IsLast last
    → length (encode cs last trailer) ≤ fuel
    → dechunk_loop fuel (encode cs last trailer) ≡ done (contents cs)
unfolding dechunk_loop
dechunk_loop-encode zero [] last trailer h l f =
    absurd (omega (arith, length-append last (13 ∷ 10 ∷ trailer)))
dechunk_loop-encode zero (c ∷ cs) last trailer h l f = absurd (
    omega
      (arith, length-append c.line (13 ∷ 10 ∷ (c.content ++ (13 ∷ 10 ∷ encode cs last trailer)))))
dechunk_loop-encode (suc fuel) [] last trailer h l f = rw (
  dechunk_loop,
  position_of_pair 13 10 last trailer l.no_cr,
  take-append (length last) last (13 ∷ 10 ∷ trailer) refl,
  l.sized,
)
dechunk_loop-encode (suc fuel) (c ∷ cs) last trailer (h, hs) l f =
    let rest = encode cs last trailer in
    let body = c.content ++ (13 ∷ 10 ∷ rest) in
    let len = length-append c.content (13 ∷ 10 ∷ rest) in
    let skip : min (length c.content + 2) (length body) ≡ length c.content + 2 =
      omega (arith, len) in
    rw (
      dechunk_loop,
      position_of_pair 13 10 c.line body h.no_cr,
      take-append (length c.line) c.line (13 ∷ 10 ∷ body) refl,
      h.sized,
      drop-append_add (length c.line) 2 c.line (13 ∷ 10 ∷ body) refl,
      ==-≢ (length c.content) 0 (let n = h.nonempty in omega arith),
      le→ltb_false (length body) (length c.content) (omega (arith, len)),
      skip,
      drop-append_add (length c.content) 2 c.content (13 ∷ 10 ∷ rest) refl,
      dechunk_loop-encode fuel cs last trailer hs l
          (omega (arith, len, length-append c.line (13 ∷ 10 ∷ body))),
      take-append (length c.content) c.content (13 ∷ 10 ∷ rest) refl,
    )

-- A chunked body is decoded to the contents of its chunks one after the other, with or without chunk
-- extensions on the size lines, and whatever stands behind the last chunk's line.
pub dechunk-encode :
    (cs : List Chunk) (last trailer : Bytes)
    → All IsChunk cs
    → IsLast last
    → dechunk (encode cs last trailer) ≡ done (contents cs)
unfolding dechunk
dechunk-encode cs last trailer h l =
    dechunk_loop-encode (length (encode cs last trailer)) cs last trailer h l (omega arith)
