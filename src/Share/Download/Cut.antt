-- ===== src/Share/Download/Cut.antt =====
-- A chunked file that arrives cut anywhere: crates/pcsuite-core/src/share.rs.
use pcsuite_rs.Base.{
  ℕ, zero, suc, ◌+◌, ◌-◌, ◌<◌, ◌≤◌, ◌≡◌, ◌≢◌, refl, sym, ap, ◌∙◌, true, List, [], ◌∷◌, ◌++◌, none,
  some, length, take, drop, leb, All, arith, Bool-cases, Option-cases, inl, inr, append_assoc,
  append-nil, length-append, take-append, drop-append, drop-append_add, length-drop, take-append_le,
  drop-append_le, take-append-drop, le→leb, leb→le, leb_false→lt,
}
use pcsuite_rs.Base.Wire.{Bytes, position_of}
use pcsuite_rs.Base.Search.{position_of_pair, position_of_pair-arrived}
use pcsuite_rs.Base.Result.{Result, done}
use pcsuite_rs.Base.Streams.{Read, got, failed, IsNonempty, concat, arrivals}
use pcsuite_rs.Http.Chunked.{Chunk, encode, contents}
use pcsuite_rs.Share.Download.{
  Taken, crlf, read_line, consume, copy_exact, line_size, chunk_loop, download_chunks, bytes_of,
  behind,
}

none≢some : {n : ℕ} → none ≢ some n
none≢some e = cc

line_cut :
    (buf more line rest : Bytes) (pos : ℕ)
    → All (λ b. b ≢ 13) line
    → buf ++ more ≡ line ++ (13 ∷ 10 ∷ rest)
    → position_of crlf buf ≡ some pos
    → (take (pos + 0) buf ≡ line) × (drop (pos + 2) buf ++ more ≡ rest)
line_cut buf more line rest pos ok e found =
    let (at_, long) = position_of_pair-arrived 13 10 pos buf more line rest e ok found in
    let p : pos + 0 ≡ length line = omega (arith, at_) in
    let q : pos + 2 ≡ length line + 2 = omega (arith, at_) in
    (
      ap (λ n. take n buf) p
          ∙ sym (take-append_le (length line) buf more (omega (arith, long)))
          ∙ ap (take (length line)) e
          ∙ take-append (length line) line (13 ∷ 10 ∷ rest) refl,
      ap (λ n. drop n buf ++ more) q
          ∙ sym (drop-append_le (length line + 2) buf more long)
          ∙ ap (drop (length line + 2)) e
          ∙ drop-append_add (length line) 2 line (13 ∷ 10 ∷ rest) refl,
    )

read_line-found :
    (buf : Bytes) (reads : List Read) (pos : ℕ)
    → position_of crlf buf ≡ some pos
    → read_line buf reads ≡ done (take (pos + 0) buf, drop (pos + 2) buf, reads)
unfolding read_line
read_line-found buf [] pos e = rw (read_line, e) refl
read_line-found buf (failed ∷ reads) pos e = rw (read_line, e) refl
read_line-found buf (got c ∷ reads) pos e = rw (read_line, e) refl

copy_exact-here :
    (left : ℕ) (buf : Bytes) (reads : List Read)
    → leb left (length buf) ≡ true
    → copy_exact left buf reads ≡ done (take left buf, drop left buf, reads)
unfolding copy_exact
copy_exact-here left buf [] e = rw (copy_exact, e) refl
copy_exact-here left buf (failed ∷ reads) e = rw (copy_exact, e) refl
copy_exact-here left buf (got c ∷ reads) e = rw (copy_exact, e) refl

consume-here :
    (n : ℕ) (buf : Bytes) (reads : List Read)
    → leb n (length buf) ≡ true
    → consume n buf reads ≡ done (drop n buf, reads)
unfolding consume
consume-here n buf [] e = rw (consume, e) refl
consume-here n buf (failed ∷ reads) e = rw (consume, e) refl
consume-here n buf (got c ∷ reads) e = rw (consume, e) refl

-- The wanted bytes are in the buffer.
prefix_cut :
    (buf more front rest : Bytes)
    → buf ++ more ≡ front ++ rest
    → length front ≤ length buf
    → (take (length front) buf ≡ front) × (drop (length front) buf ++ more ≡ rest)
prefix_cut buf more front rest e le =
    let n = length front in
    (
      sym (take-append_le n buf more le) ∙ ap (take n) e ∙ take-append n front rest refl,
      sym (drop-append_le n buf more le) ∙ ap (drop n) e ∙ drop-append n front rest refl,
    )

not_within : (buf front rest : Bytes) → buf ++ [] ≡ front ++ rest → length front ≤ length buf
not_within buf front rest e =
    omega (arith, ap length e, length-append buf [], length-append front rest)

module _ (later : List Read) where
  -- A function took `out`; the bytes `rest` are ahead.
  record Reads (r : Result Taken) (out rest : Bytes) : Type 0 where
    buf : Bytes
    chunks : List Bytes
    nonempty : All IsNonempty chunks
    whole : buf ++ concat chunks ≡ rest
    result : r ≡ done (out, buf, arrivals chunks later)

  record Leaves (r : Result (Bytes × List Read)) (rest : Bytes) : Type 0 where
    buf : Bytes
    chunks : List Bytes
    nonempty : All IsNonempty chunks
    whole : buf ++ concat chunks ≡ rest
    result : r ≡ done (buf, arrivals chunks later)

  line_here :
      (cs : List Bytes) (buf line rest : Bytes)
      → All IsNonempty cs
      → All (λ b. b ≢ 13) line
      → buf ++ concat cs ≡ line ++ (13 ∷ 10 ∷ rest)
      → (pos : ℕ) → position_of crlf buf ≡ some pos
      → Reads (read_line buf (arrivals cs later)) line rest
  line_here cs buf line rest h ok e pos found =
      let (l, w) = line_cut buf (concat cs) line rest pos ok e found in
      record {
        buf = drop (pos + 2) buf;
        chunks = cs;
        nonempty = h;
        whole = w;
        result =
            read_line-found buf (arrivals cs later) pos found
            ∙ ap (λ t. done (t, drop (pos + 2) buf, arrivals cs later)) l;
      }

  copy_here :
      (cs : List Bytes) (buf front rest : Bytes)
      → All IsNonempty cs
      → buf ++ concat cs ≡ front ++ rest
      → length front ≤ length buf
      → Reads (copy_exact (length front) buf (arrivals cs later)) front rest
  copy_here cs buf front rest h e le =
      let n = length front in
      let (l, w) = prefix_cut buf (concat cs) front rest e le in
      record {
        buf = drop n buf;
        chunks = cs;
        nonempty = h;
        whole = w;
        result =
            copy_exact-here n buf (arrivals cs later) (le→leb n (length buf) le)
            ∙ ap (λ t. done (t, drop n buf, arrivals cs later)) l;
      }

  consume_here :
      (cs : List Bytes) (buf front rest : Bytes)
      → All IsNonempty cs
      → buf ++ concat cs ≡ front ++ rest
      → length front ≤ length buf
      → Leaves (consume (length front) buf (arrivals cs later)) rest
  consume_here cs buf front rest h e le =
      let n = length front in
      record {
        buf = drop n buf;
        chunks = cs;
        nonempty = h;
        whole = (prefix_cut buf (concat cs) front rest e le).1;
        result = consume-here n buf (arrivals cs later) (le→leb n (length buf) le);
      }

  read_line-Reads :
      (cs : List Bytes) (buf line rest : Bytes)
      → All IsNonempty cs
      → All (λ b. b ≢ 13) line
      → buf ++ concat cs ≡ line ++ (13 ∷ 10 ∷ rest)
      → Reads (read_line buf (arrivals cs later)) line rest
  unfolding read_line
  read_line-Reads [] buf line rest h ok e = elim (Option-cases (position_of crlf buf)) [
    | inr (pos, found) ↦ line_here [] buf line rest h ok e pos found
    | inl missing ↦
        let there =
          ap (position_of crlf) (sym (append-nil buf) ∙ e) ∙ position_of_pair 13 10 line rest ok in
        absurd (none≢some (sym missing ∙ there))
  ]
  read_line-Reads (c ∷ cs) buf line rest (c_ok, h) ok e =
      elim (Option-cases (position_of crlf buf)) [
        | inr (pos, found) ↦ line_here (c ∷ cs) buf line rest (c_ok, h) ok e pos found
        | inl missing ↦
            let next =
              read_line-Reads cs (buf ++ c) line rest h ok (append_assoc buf c (concat cs) ∙ e) in
            record {
              buf = next.buf;
              chunks = next.chunks;
              nonempty = next.nonempty;
              whole = next.whole;
              result = rw (read_line, missing, c_ok) next.result;
            }
      ]

  copy_exact-Reads :
      (cs : List Bytes) (buf front rest : Bytes)
      → All IsNonempty cs
      → buf ++ concat cs ≡ front ++ rest
      → Reads (copy_exact (length front) buf (arrivals cs later)) front rest
  unfolding copy_exact
  copy_exact-Reads [] buf front rest h e =
      copy_here [] buf front rest h e (not_within buf front rest e)
  copy_exact-Reads (c ∷ cs) buf front rest (c_ok, h) e =
      elim (Bool-cases (leb (length front) (length buf))) [
        | inl yes_ ↦ copy_here (c ∷ cs) buf front rest (c_ok, h) e (leb→le _ _ yes_)
        | inr no_ ↦
            let n = length buf in
            let lt = leb_false→lt (length front) n no_ in
            let tail = drop n front in
            let start : buf ≡ take n front =
              sym (take-append n buf (c ++ concat cs) refl)
              ∙ ap (take n) e
              ∙ take-append_le n front rest (omega (arith, lt)) in
            let same : buf ++ tail ≡ front = ap (λ t. t ++ tail) start ∙ take-append-drop n front in
            let ahead : c ++ concat cs ≡ tail ++ rest =
              sym (drop-append n buf (c ++ concat cs) refl)
              ∙ ap (drop n) e
              ∙ drop-append_le n front rest (omega (arith, lt)) in
            let next = copy_exact-Reads cs c tail rest h ahead in
            let left : length tail ≡ length front - n = length-drop n front in
            record {
              buf = next.buf;
              chunks = next.chunks;
              nonempty = next.nonempty;
              whole = next.whole;
              result =
                  rw (copy_exact, no_, c_ok)
                    (ap (λ k. behind buf (copy_exact k c (arrivals cs later))) (sym left)
                      ∙ ap (behind buf) next.result
                      ∙ ap (λ t. done (t, next.buf, arrivals next.chunks later)) same);
            }
      ]

  consume-Leaves :
      (cs : List Bytes) (buf front rest : Bytes)
      → All IsNonempty cs
      → buf ++ concat cs ≡ front ++ rest
      → Leaves (consume (length front) buf (arrivals cs later)) rest
  unfolding consume
  consume-Leaves [] buf front rest h e =
      consume_here [] buf front rest h e (not_within buf front rest e)
  consume-Leaves (c ∷ cs) buf front rest (c_ok, h) e =
      elim (Bool-cases (leb (length front) (length buf))) [
        | inl yes_ ↦ consume_here (c ∷ cs) buf front rest (c_ok, h) e (leb→le _ _ yes_)
        | inr no_ ↦
            let next =
              consume-Leaves cs (buf ++ c) front rest h (append_assoc buf c (concat cs) ∙ e) in
            record {
              buf = next.buf;
              chunks = next.chunks;
              nonempty = next.nonempty;
              whole = next.whole;
              result = rw (consume, no_, c_ok) next.result;
            }
      ]

-- A chunk whose line gives its size, in the way that this receiver reads it.
pub record IsPiece (c : Chunk) : Type 0 where
  pub no_cr : All (λ b. b ≢ 13) c.line
  pub sized : line_size c.line ≡ some (length c.content)
  pub nonempty : 0 < length c.content

pub record IsEnd (line : Bytes) : Type 0 where
  pub no_cr : All (λ b. b ≢ 13) line
  pub sized : line_size line ≡ some 0

positive : (n : ℕ) → 0 < n → (m : ℕ) × (n ≡ suc m)
positive zero h = absurd (omega arith)
positive (suc m) h = (m, refl)

-- A round that reads a line of size 0, and one that reads a chunk.
last_round :
    (fuel : ℕ) (buf line buf₁ : Bytes) (reads reads₁ : List Read)
    → read_line buf reads ≡ done (line, buf₁, reads₁)
    → line_size line ≡ some 0
    → chunk_loop (suc fuel) buf reads ≡ done []
unfolding chunk_loop
last_round fuel buf line buf₁ reads reads₁ r z = rw (chunk_loop, r, z) refl

chunk_round :
    (fuel n : ℕ) (buf line buf₁ front buf₂ buf₃ more : Bytes)
    (reads reads₁ reads₂ reads₃ : List Read)
    → read_line buf reads ≡ done (line, buf₁, reads₁)
    → line_size line ≡ some (suc n)
    → copy_exact (suc n) buf₁ reads₁ ≡ done (front, buf₂, reads₂)
    → consume 2 buf₂ reads₂ ≡ done (buf₃, reads₃)
    → chunk_loop fuel buf₃ reads₃ ≡ done more
    → chunk_loop (suc fuel) buf reads ≡ done (front ++ more)
unfolding chunk_loop
chunk_round fuel n buf line buf₁ front buf₂ buf₃ more reads reads₁ reads₂ reads₃ r z c k m =
    rw (chunk_loop, r, z, c, k, m) refl

length-encode :
    (pieces : List Chunk) (last trailer : Bytes)
    → length pieces ≤ length (encode pieces last trailer)
length-encode [] last trailer = omega arith
length-encode (p ∷ ps) last trailer =
    let rest = encode ps last trailer in
    let tail = p.content ++ (13 ∷ 10 ∷ rest) in
    omega (
      arith,
      length-append p.line (13 ∷ 10 ∷ tail),
      length-append p.content (13 ∷ 10 ∷ rest),
      length-encode ps last trailer,
    )

bytes_of-arrivals :
    (cs : List Bytes) (later : List Read) → length (concat cs) ≤ bytes_of (arrivals cs later)
bytes_of-arrivals [] later = omega arith
bytes_of-arrivals (c ∷ cs) later =
    omega (arith, length-append c (concat cs), bytes_of-arrivals cs later)

module _ (later : List Read) (last trailer : Bytes) (is_end : IsEnd last) where
  chunk_loop-encode :
      (fuel : ℕ) (pieces : List Chunk) (cs : List Bytes) (buf : Bytes)
      → length pieces < fuel
      → All IsPiece pieces
      → All IsNonempty cs
      → buf ++ concat cs ≡ encode pieces last trailer
      → chunk_loop fuel buf (arrivals cs later) ≡ done (contents pieces)
  chunk_loop-encode zero pieces cs buf f ok h e = absurd (omega arith)
  chunk_loop-encode (suc fuel) [] cs buf f ok h e =
      let l = read_line-Reads later cs buf last trailer h is_end.no_cr e in
      last_round fuel buf last l.buf _ _ l.result is_end.sized
  chunk_loop-encode (suc fuel) (p ∷ ps) cs buf f (p_ok, ok) h e =
      let rest = encode ps last trailer in
      let (n, size) = positive (length p.content) p_ok.nonempty in
      let l = read_line-Reads later cs buf p.line (p.content ++ (13 ∷ 10 ∷ rest)) h p_ok.no_cr e in
      let d = copy_exact-Reads later l.chunks l.buf p.content (13 ∷ 10 ∷ rest) l.nonempty l.whole in
      let k = consume-Leaves later d.chunks d.buf crlf rest d.nonempty d.whole in
      let more =
        chunk_loop-encode fuel ps k.chunks k.buf (omega (arith, f)) ok k.nonempty k.whole in
      chunk_round fuel n buf p.line l.buf p.content d.buf k.buf (contents ps) _ _ _ _ l.result
        (p_ok.sized ∙ ap some size)
        (ap (λ m. copy_exact m l.buf (arrivals l.chunks later)) (sym size) ∙ d.result) k.result more

-- A chunked file whose bytes arrive cut anywhere into non-empty reads, some of them perhaps with the
-- headers, is written whole: the contents of its chunks, whatever reads come later. Each chunk's line has
-- no carriage return and gives the size of its content, which is not empty, and the last line gives 0.
pub download_chunks-encode :
    (pieces : List Chunk) (last trailer buffered : Bytes) (chunks : List Bytes) (later : List Read)
    → All IsPiece pieces
    → IsEnd last
    → All IsNonempty chunks
    → buffered ++ concat chunks ≡ encode pieces last trailer
    → download_chunks buffered (arrivals chunks later) ≡ done (contents pieces)
unfolding download_chunks
download_chunks-encode pieces last trailer buffered chunks later ok is_end h e =
    chunk_loop-encode later last trailer is_end
      (suc (length buffered + bytes_of (arrivals chunks later))) pieces chunks buffered
      (omega (
        arith,
        ap length e,
        length-append buffered (concat chunks),
        length-encode pieces last trailer,
        bytes_of-arrivals chunks later,
      ))
      ok h e
