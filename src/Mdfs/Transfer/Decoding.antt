-- ===== src/Mdfs/Transfer/Decoding.antt =====
-- crates/pcsuite-core/src/mdfs.rs: `dechunk` against chunked bodies, described as for the cloud client.
use pcsuite_rs.Base.{
  ℕ, zero, suc, ◌+◌, ◌-◌, ◌^◌, ◌<◌, ◌≤◌, ◌≡◌, ◌≢◌, refl, ap, sym, ◌∙◌, Bool, true, false, List, [],
  ◌∷◌, ◌++◌, Option, none, some, length, leb, if◌then◌else◌, ◌==◌, ==-≢, take, drop, min, is_empty,
  arith, All, Bool-cases, inl, inr, length-append, append_assoc, append-nil, take-append,
  drop-append, drop-append_add,
}
use pcsuite_rs.Base.Wire.{Bytes, codes}
use pcsuite_rs.Base.Search.{position_of_pair, starts_with-append}
use pcsuite_rs.Base.Text.{to_hex}
use pcsuite_rs.Base.Utf8.{from_utf8_lossy, is_utf8}
use pcsuite_rs.Http.{chunk_size}
use pcsuite_rs.Http.Chunked.{Chunk, IsChunk, IsLast, encode, contents}
use pcsuite_rs.Mdfs.Transfer.{crlf, find, lenient_size, dechunk_loop}

-- A chunk whose size line both decoders read.
pub record IsWritten (c : Chunk) : Type 0 where
  pub strict : IsChunk c
  pub lenient : lenient_size c.line ≡ length c.content

pub dechunk_loop-encode :
    (fuel : ℕ) (cs : List Chunk) (last trailer : Bytes)
    → All IsWritten cs
    → All (λ b. b ≢ 13) last
    → lenient_size last ≡ 0
    → length (encode cs last trailer) ≤ fuel
    → dechunk_loop fuel (encode cs last trailer) ≡ contents cs
unfolding dechunk_loop find
dechunk_loop-encode zero [] last trailer h l z f =
    absurd (omega (arith, length-append last (13 ∷ 10 ∷ trailer)))
dechunk_loop-encode zero (c ∷ cs) last trailer h l z f = absurd (
    omega
      (arith, length-append c.line (13 ∷ 10 ∷ (c.content ++ (13 ∷ 10 ∷ encode cs last trailer)))))
dechunk_loop-encode (suc fuel) [] last trailer h l z f = rw (
  dechunk_loop,
  find,
  position_of_pair 13 10 last trailer l,
  take-append (length last) last (13 ∷ 10 ∷ trailer) refl,
  z,
)
dechunk_loop-encode (suc fuel) (c ∷ cs) last trailer (h, hs) l z f =
    let rest = encode cs last trailer in
    let body = c.content ++ (13 ∷ 10 ∷ rest) in
    let len = length-append c.content (13 ∷ 10 ∷ rest) in
    let s = h.strict in
    let pos = s.nonempty in
    let n : min (length c.content) (length body) ≡ length c.content = omega (arith, len) in
    rw (
      dechunk_loop,
      find,
      position_of_pair 13 10 c.line body s.no_cr,
      take-append (length c.line) c.line (13 ∷ 10 ∷ body) refl,
      h.lenient,
      drop-append_add (length c.line) 2 c.line (13 ∷ 10 ∷ body) refl,
      ==-≢ (length c.content) 0 (omega arith),
      n,
      take-append (length c.content) c.content (13 ∷ 10 ∷ rest) refl,
      drop-append (length c.content) c.content (13 ∷ 10 ∷ rest) refl,
      starts_with-append crlf rest,
      dechunk_loop-encode fuel cs last trailer hs l z
          (omega (arith, len, length-append c.line (13 ∷ 10 ∷ body))),
    )

pub zero_line : lenient_size (codes "0") ≡ 0
unfolding lenient_size is_utf8 pcsuite_rs.Base.Text.trim pcsuite_rs.Base.Text.trim_start
    pcsuite_rs.Base.Text.trim_start_loop pcsuite_rs.Base.Text.trim_end
    pcsuite_rs.Base.Text.split_once pcsuite_rs.Base.Text.white_prefix
    pcsuite_rs.Base.Text.from_str_radix pcsuite_rs.Base.Text.digits_from
zero_line = refl

pub zero-IsLast : IsLast (codes "0")
unfolding chunk_size from_utf8_lossy pcsuite_rs.Base.Text.trim pcsuite_rs.Base.Text.trim_start
    pcsuite_rs.Base.Text.trim_start_loop pcsuite_rs.Base.Text.trim_end
    pcsuite_rs.Base.Text.split_once pcsuite_rs.Base.Text.white_prefix
    pcsuite_rs.Base.Text.from_str_radix pcsuite_rs.Base.Text.digits_from
zero-IsLast = record { no_cr = (omega arith, tt); sized = refl }

pub strict_chunks : (cs : List Chunk) → All IsWritten cs → All IsChunk cs
strict_chunks [] h = tt
strict_chunks (c ∷ cs) (h, hs) = (h.strict, strict_chunks cs hs)
