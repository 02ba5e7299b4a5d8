-- ===== src/Http/Streaming/Settle.antt =====
-- crates/pcsuite-net/src/https.rs: what `stream_chunked` still owes while a chunked body arrives, and its
-- rounds at a line end or a size line.
use pcsuite_rs.Base.{
  ℕ, ◌+◌, ◌<◌, ◌≤◌, ◌≡◌, ◌≢◌, refl, ap, sym, ◌∙◌, Bool, true, false, not, ◌&&◌, ◌||◌, List, [], ◌∷◌,
  ◌++◌, none, some, length, leb, ◌==◌, ==-≢, take, drop, arith, All, length-append, take-append,
  drop-append_add, drop-append_le, take-append_le, Bool-cases, Option-cases, ◌⊎◌, inl, inr,
  append-nil, length-drop, leb→le, leb_false→lt,
}
use pcsuite_rs.Base.Wire.{Bytes, position_of}
use pcsuite_rs.Base.Search.{position_of_pair, position_of_pair-arrived}
use pcsuite_rs.Http.{crlf}
use pcsuite_rs.Http.Chunked.{Chunk, IsChunk, IsLast, encode, contents}
use pcsuite_rs.Http.Streaming.{
  Copy, Round, progressed, idle, finished, malformed, copy_data, skip_crlf, take_line, quiet, round,
}

pub append_nonempty : (xs ys zs : Bytes) → xs ++ ys ≡ zs → length xs < length zs → 0 < length ys
append_nonempty xs ys zs e h = omega (arith, length-append xs ys, ap length e)

or_false : (b : Bool) → b || false ≡ true → b ≡ true
or_false true h = refl
or_false false h = h

pub take_line_behind :
    (c : Copy) (b : Bool)
    → (c.remaining == 0) && not c.expect_crlf ≡ false
    → take_line c b ≡ quiet c b
unfolding take_line
take_line_behind c b h = rw (take_line, h)

copy_data-none : (c : Copy) → c.remaining ≡ 0 → copy_data c ≡ (c, false)
unfolding copy_data
copy_data-none c h = rw (copy_data, h)

pub skip_crlf-none :
    (c : Copy) → (c.remaining == 0) && c.expect_crlf ≡ false → skip_crlf c ≡ (c, false)
unfolding skip_crlf
skip_crlf-none c h = rw (skip_crlf, h)

module _ (last trailer : Bytes) (is_last : IsLast last) where
  -- Inside a chunk: `d` is still owed of it, then come the chunks `cs`.
  pub record InData (c : Copy) (later total : Bytes) : Type 0 where
    pub d : Bytes
    pub cs : List Chunk
    pub chunks : All IsChunk cs
    pub owed : length d ≡ c.remaining
    pub some_owed : 0 < c.remaining
    pub no_gap : c.expect_crlf ≡ false
    pub ahead : c.buf ++ later ≡ d ++ (13 ∷ 10 ∷ encode cs last trailer)
    pub sum : total ≡ c.out ++ (d ++ contents cs)

  -- Between a chunk's data and its line end.
  pub record InGap (c : Copy) (later total : Bytes) : Type 0 where
    pub cs : List Chunk
    pub chunks : All IsChunk cs
    pub none_owed : c.remaining ≡ 0
    pub gap : c.expect_crlf ≡ true
    pub ahead : c.buf ++ later ≡ 13 ∷ 10 ∷ encode cs last trailer
    pub sum : total ≡ c.out ++ contents cs

  -- In front of a size line.
  pub record InLine (c : Copy) (later total : Bytes) : Type 0 where
    pub cs : List Chunk
    pub chunks : All IsChunk cs
    pub none_owed : c.remaining ≡ 0
    pub no_gap : c.expect_crlf ≡ false
    pub ahead : c.buf ++ later ≡ encode cs last trailer
    pub sum : total ≡ c.out ++ contents cs

  abbrev pub Owes : Copy → Bytes → Bytes → Type 0
  Owes c later total = InData c later total ⊎ (InGap c later total ⊎ InLine c later total)

  -- What a round that starts with `n` buffered bytes may give.
  abbrev pub Good : ℕ → Bytes → Bytes → Round → Type 0
  Good n later total (progressed c) = Owes c later total × (length c.buf < n)
  Good n later total (idle c) = Owes c later total × (0 < length later)
  Good n later total (finished c) = c.out ≡ total
  Good n later total (malformed c) = ⊥

  take_line_quiet :
      (n : ℕ) (c : Copy) (later total : Bytes) (b : Bool)
      → Owes c later total
      → (b ≡ true → length c.buf < n)
      → (b ≡ false → 0 < length later)
      → Good n later total (quiet c b)
  take_line_quiet n c later total true s hb hf = (s, hb refl)
  take_line_quiet n c later total false s hb hf = (s, hf refl)

  later_nonempty :
      (buf later xs rest : Bytes)
      → buf ++ later ≡ xs ++ (13 ∷ 10 ∷ rest)
      → All (λ b. b ≢ 13) xs
      → position_of crlf buf ≡ none
      → 0 < length later
  later_nonempty buf [] xs rest e h lost =
      let there : position_of crlf buf ≡ some (length xs) =
        ap (position_of crlf) (sym (append-nil buf) ∙ e) ∙ position_of_pair 13 10 xs rest h in
      absurd cc
  later_nonempty buf (b ∷ later) xs rest e h lost = omega arith

  -- A line end was found in the buffer, in front of the bytes `rest`.
  record Found (buf later xs rest : Bytes) (m : ℕ) : Type 0 where
    at : m ≡ length xs
    line : take m buf ≡ xs
    after : drop (m + 2) buf ++ later ≡ rest
    shorter : length (drop (m + 2) buf) < length buf

  position_of-Found :
      (buf later xs rest : Bytes) (m : ℕ)
      → buf ++ later ≡ xs ++ (13 ∷ 10 ∷ rest)
      → All (λ b. b ≢ 13) xs
      → position_of crlf buf ≡ some m
      → Found buf later xs rest m
  position_of-Found buf later xs rest m e h found =
      let (at, fits) = position_of_pair-arrived 13 10 m buf later xs rest e h found in
      record {
        at = at;
        line =
            sym (take-append_le m buf later (omega (arith, at, fits)))
            ∙ ap (take m) e
            ∙ take-append m xs (13 ∷ 10 ∷ rest) (sym at);
        after =
            sym (drop-append_le (m + 2) buf later (omega (arith, at, fits)))
            ∙ ap (drop (m + 2)) e
            ∙ drop-append_add m 2 xs (13 ∷ 10 ∷ rest) (sym at);
        shorter = omega (arith, at, fits, length-drop (m + 2) buf);
      }

  take_line_found :
      (n : ℕ) (c : Copy) (later total : Bytes) (cs : List Chunk) (b : Bool) (m : ℕ)
      → All IsChunk cs
      → c.remaining ≡ 0
      → c.expect_crlf ≡ false
      → c.buf ++ later ≡ encode cs last trailer
      → total ≡ c.out ++ contents cs
      → length c.buf ≤ n
      → position_of crlf c.buf ≡ some m
      → Good n later total (take_line c b)
  unfolding take_line
  take_line_found n c later total [] b m h none_owed no_gap ahead sum hn found =
      let f = position_of-Found c.buf later last trailer m ahead is_last.no_cr found in
      rw (take_line, none_owed, no_gap, found, f.line, is_last.sized) (sym (sum ∙ append-nil c.out))
  take_line_found n c later total (k ∷ cs) b m (h, hs) none_owed no_gap ahead sum hn found =
      let f =
        position_of-Found c.buf later k.line (k.content ++ (13 ∷ 10 ∷ encode cs last trailer)) m
          ahead h.no_cr found in
      let pos = h.nonempty in
      rw
        (
          take_line,
          none_owed,
          no_gap,
          found,
          f.line,
          h.sized,
          ==-≢ (length k.content) 0 (omega arith),
        )
        (
          inl (record {
            d = k.content;
            cs = cs;
            chunks = hs;
            owed = refl;
            some_owed = pos;
            no_gap = no_gap;
            ahead = f.after;
            sum = sum;
          }),
          omega (arith, f.shorter),
        )

  line_first :
      (cs : List Chunk)
      → All IsChunk cs
      → (xs : Bytes) × (rest : Bytes) × (encode cs last trailer ≡ xs ++ (13 ∷ 10 ∷ rest))
        × All (λ b. b ≢ 13) xs
  line_first [] h = (last, trailer, refl, is_last.no_cr)
  line_first (k ∷ cs) (h, hs) = (k.line, _, refl, h.no_cr)

  take_line-InLine :
      (n : ℕ) (c : Copy) (later total : Bytes) (b : Bool)
      → InLine c later total
      → (b ≡ true → length c.buf < n)
      → length c.buf ≤ n
      → Good n later total (take_line c b)
  unfolding take_line
  take_line-InLine n c later total b s hb hn = elim (Option-cases (position_of crlf c.buf)) [
    | inr (m, found) ↦
        take_line_found n c later total s.cs b m s.chunks s.none_owed s.no_gap s.ahead s.sum hn
          found
    | inl lost ↦
        let (xs, rest, e, h) = line_first s.cs s.chunks in
        rw (take_line, s.none_owed, s.no_gap, lost)
          (take_line_quiet n c later total b (inr (inr s)) hb
            (λ q. later_nonempty c.buf later xs rest (s.ahead ∙ e) h lost))
  ]

  -- The rest of a round behind the copying.
  abbrev pub behind_copy : Copy → Bool → Round
  behind_copy c b = let (c', skipped) = skip_crlf c in take_line c' (b || skipped)

  behind_copy-InLine :
      (n : ℕ) (c : Copy) (later total : Bytes) (b : Bool)
      → InLine c later total
      → (b ≡ true → length c.buf < n)
      → length c.buf ≤ n
      → Good n later total (behind_copy c b)
  behind_copy-InLine n c later total b s hb hn =
      rw (skip_crlf-none c (rw (s.none_owed, s.no_gap)))
        (take_line-InLine n c later total (b || false) s (λ t. hb (or_false b t)) hn)

  skipped-InLine :
      (c : Copy) (later total : Bytes)
      → InGap c later total
      → 2 ≤ length c.buf
      → InLine
          (record { out = c.out; buf = drop 2 c.buf; remaining = c.remaining; expect_crlf = false })
          later
          total
  skipped-InLine c later total s long = record {
    cs = s.cs;
    chunks = s.chunks;
    none_owed = s.none_owed;
    no_gap = refl;
    ahead = sym (drop-append_le 2 c.buf later long) ∙ ap (drop 2) s.ahead;
    sum = s.sum;
  }

  pub behind_copy-InGap :
      (n : ℕ) (c : Copy) (later total : Bytes) (b : Bool)
      → InGap c later total
      → (b ≡ true → length c.buf < n)
      → length c.buf ≤ n
      → Good n later total (behind_copy c b)
  unfolding skip_crlf
  behind_copy-InGap n c later total b s hb hn = elim (Bool-cases (leb 2 (length c.buf))) [
    | inr short ↦
        let e : skip_crlf c ≡ (c, false) = rw (skip_crlf, s.none_owed, s.gap, short) in
        rw (e, take_line_behind c (b || false) (rw (s.none_owed, s.gap)))
          (take_line_quiet n c later total (b || false) (inr (inl s)) (λ t. hb (or_false b t))
            (λ t.
              append_nonempty c.buf later _ s.ahead
                (omega (arith, leb_false→lt 2 (length c.buf) short))))
    | inl long ↦
        let c' : Copy = record {
          out = c.out;
          buf = drop 2 c.buf;
          remaining = c.remaining;
          expect_crlf = false;
        } in
        let two = leb→le 2 (length c.buf) long in
        let e : skip_crlf c ≡ (c', true) = rw (skip_crlf, s.none_owed, s.gap, long) in
        let less : length (drop 2 c.buf) < n = omega (arith, two, hn, length-drop 2 c.buf) in
        rw e (
          take_line-InLine n c' later total (b || true) (skipped-InLine c later total s two)
            (λ t. less) (omega (arith, less)))
  ]

  pub round-InGap :
      (c : Copy) (later total : Bytes)
      → InGap c later total
      → Good (length c.buf) later total (round c)
  unfolding round
  round-InGap c later total s =
      rw (round, copy_data-none c s.none_owed)
        (behind_copy-InGap (length c.buf) c later total false s (λ t. absurd cc) (omega arith))

  pub round-InLine :
      (c : Copy) (later total : Bytes)
      → InLine c later total
      → Good (length c.buf) later total (round c)
  unfolding round
  round-InLine c later total s =
      rw (round, copy_data-none c s.none_owed)
        (behind_copy-InLine (length c.buf) c later total false s (λ t. absurd cc) (omega arith))
