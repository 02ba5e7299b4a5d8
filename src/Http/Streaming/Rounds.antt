-- ===== src/Http/Streaming/Rounds.antt =====
-- crates/pcsuite-net/src/https.rs: a round of `stream_chunked` inside a chunk, and rounds until one makes
-- no progress.
use pcsuite_rs.Base.{
  ℕ, zero, suc, ◌-◌, ◌<◌, ◌≤◌, ◌≡◌, refl, ap, sym, ◌∙◌, true, false, [], ◌∷◌, ◌++◌, length,
  if◌then◌else◌, ◌==◌, ==-≢, ==_iff, drop_all, take, drop, min, arith, length-append,
  drop-append_le, take-append_le, lt→ltb, Bool-cases, inl, inr, append_assoc, is_empty, length-drop,
  take-append-drop,
}
use pcsuite_rs.Base.Wire.{Bytes}
use pcsuite_rs.Http.Chunked.{IsLast, encode, contents}
use pcsuite_rs.Http.Streaming.{
  Copy, Round, progressed, idle, finished, malformed, copy_data, round, settle,
}
use pcsuite_rs.Http.Streaming.Settle.{
  append_nonempty, take_line_behind, skip_crlf-none, InData, InGap, Owes, Good, behind_copy,
  behind_copy-InGap, round-InGap, round-InLine,
}

module _ (last trailer : Bytes) (is_last : IsLast last) where
  -- What is copied of the data that is owed.
  abbrev taken : Copy → ℕ
  taken c = min c.remaining (length c.buf)

  abbrev copied : Copy → Copy
  copied c = record {
    out = c.out ++ take (taken c) c.buf;
    buf = drop (taken c) c.buf;
    remaining = c.remaining - taken c;
    expect_crlf = if c.remaining - taken c == 0 then true else c.expect_crlf;
  }

  copied_ahead :
      (c : Copy) (later total : Bytes) (s : InData last trailer is_last c later total)
      → (drop (taken c) c.buf ++ later ≡ drop (taken c) s.d ++ (13 ∷ 10 ∷ encode s.cs last trailer))
        × (total ≡ (c.out ++ take (taken c) c.buf) ++ (drop (taken c) s.d ++ contents s.cs))
  copied_ahead c later total s =
      let n : ℕ = taken c in
      let in_buf : n ≤ length c.buf = omega arith in
      let in_d : n ≤ length s.d = omega (arith, s.owed) in
      let same : take n c.buf ≡ take n s.d =
        sym (take-append_le n c.buf later in_buf)
        ∙ ap (take n) s.ahead
        ∙ take-append_le n s.d _ in_d in
      (
        sym (drop-append_le n c.buf later in_buf)
            ∙ ap (drop n) s.ahead
            ∙ drop-append_le n s.d _ in_d,
        s.sum
            ∙ ap (λ x. c.out ++ (x ++ contents s.cs)) (sym (take-append-drop n s.d))
            ∙ rw (
              same,
              append_assoc (take n s.d) (drop n s.d) (contents s.cs),
              append_assoc c.out (take n s.d) (drop n s.d ++ contents s.cs),
            ),
      )

  empty_length : (bs : Bytes) → is_empty bs ≡ true → length bs ≡ 0
  empty_length [] h = refl
  empty_length (b ∷ bs) h = cc

  positive : (n : ℕ) → 0 < n → (n == 0) ≡ false
  positive n h = ==-≢ n 0 (omega arith)

  nonempty : (bs : Bytes) → is_empty bs ≡ false → 0 < length bs
  nonempty [] h = cc
  nonempty (b ∷ bs) h = omega arith

  pos_of : (n : ℕ) → (n == 0) ≡ false → 0 < n
  pos_of n h = ground arith

  copied-Good :
      (c : Copy) (later total : Bytes)
      → InData last trailer is_last c later total
      → 0 < length c.buf
      → Good last trailer is_last
          (length c.buf)
          later
          total
          (behind_copy last trailer is_last (copied c) true)
  copied-Good c later total s full =
      let (ahead, sum) = copied_ahead c later total s in
      let left : ℕ = c.remaining - taken c in
      let len_d : length (drop (taken c) s.d) ≡ left =
        omega (arith, length-drop (taken c) s.d, s.owed) in
      let pos = s.some_owed in
      let shorter : length (drop (taken c) c.buf) < length c.buf =
        omega (arith, length-drop (taken c) c.buf) in
      elim (Bool-cases (left == 0)) [
        | inl all ↦
            let zero_left : left ≡ 0 = (==_iff left 0).0 all in
            let spent : drop (taken c) s.d ≡ [] =
              drop_all (taken c) s.d (omega (arith, s.owed, zero_left)) in
            let gap : InGap last trailer is_last (copied c) later total = record {
              cs = s.cs;
              chunks = s.chunks;
              none_owed = zero_left;
              gap = rw all;
              ahead = ahead ∙ ap (λ d. d ++ (13 ∷ 10 ∷ encode s.cs last trailer)) spent;
              sum = sum ∙ ap (λ d. (c.out ++ take (taken c) c.buf) ++ (d ++ contents s.cs)) spent;
            } in
            behind_copy-InGap last trailer is_last (length c.buf) (copied c) later total true gap
              (λ t. shorter) (omega (arith, shorter))
        | inr part ↦
            rw (skip_crlf-none (copied c) (rw part), take_line_behind (copied c) true (rw part))
              (
                inl (record {
                  d = drop (taken c) s.d;
                  cs = s.cs;
                  chunks = s.chunks;
                  owed = len_d;
                  some_owed = pos_of left part;
                  no_gap = rw part s.no_gap;
                  ahead = ahead;
                  sum = sum;
                }),
                shorter,
              )
      ]

  round-InData :
      (c : Copy) (later total : Bytes)
      → InData last trailer is_last c later total
      → Good last trailer is_last (length c.buf) later total (round c)
  unfolding round copy_data
  round-InData c later total s = elim (Bool-cases (is_empty c.buf)) [
    | inl empty ↦
        let e : copy_data c ≡ (c, false) =
          rw (copy_data, lt→ltb 0 c.remaining s.some_owed, empty) in
        let owed = positive c.remaining s.some_owed in
        rw (round, e, skip_crlf-none c (rw owed), take_line_behind c false (rw owed))
          (
            inl s,
            append_nonempty c.buf later _ s.ahead (
                let pos = s.some_owed in
                omega (
                  arith,
                  empty_length c.buf empty,
                  s.owed,
                  length-append s.d (13 ∷ 10 ∷ encode s.cs last trailer),
                )),
          )
    | inr full ↦
        let e : copy_data c ≡ (copied c, true) =
          rw (copy_data, lt→ltb 0 c.remaining s.some_owed, full) in
        rw (round, e) (copied-Good c later total s (nonempty c.buf full))
  ]

  round-Owes :
      (c : Copy) (later total : Bytes)
      → Owes last trailer is_last c later total
      → Good last trailer is_last (length c.buf) later total (round c)
  round-Owes c later total (inl s) = round-InData c later total s
  round-Owes c later total (inr (inl s)) = round-InGap last trailer is_last c later total s
  round-Owes c later total (inr (inr s)) = round-InLine last trailer is_last c later total s

  -- What settling may give: it waits for more, or has written all.
  abbrev pub Settled : Bytes → Bytes → Round → Type 0
  Settled later total (progressed c) = ⊥
  Settled later total (idle c) = Owes last trailer is_last c later total × (0 < length later)
  Settled later total (finished c) = c.out ≡ total
  Settled later total (malformed c) = ⊥

  abbrev settle_on : ℕ → Round → Round
  settle_on fuel (progressed c) = settle fuel c
  settle_on fuel (idle c) = idle c
  settle_on fuel (finished c) = finished c
  settle_on fuel (malformed c) = malformed c

  settle-round : (fuel : ℕ) (c : Copy) → settle (suc fuel) c ≡ settle_on fuel (round c)
  unfolding settle
  settle-round fuel c =
      elim (round c)
        as (λ r.
          (elim r [
            | progressed c' ↦ settle fuel c'
            | idle c' ↦ idle c'
            | finished c' ↦ finished c'
            | malformed c' ↦ malformed c'
          ])
          ≡ settle_on fuel r) [
            | progressed c' ↦ refl
            | idle c' ↦ refl
            | finished c' ↦ refl
            | malformed c' ↦ refl
          ]

  settle_on-Good :
      (fuel n : ℕ) (later total : Bytes) (r : Round)
      → Good last trailer is_last n later total r
      → n ≤ fuel
      → ((c : Copy)
          → Owes last trailer is_last c later total
          → length c.buf < fuel
          → Settled later total (settle fuel c))
      → Settled later total (settle_on fuel r)
  settle_on-Good fuel n later total (progressed c) (s, less) h k = k c s (omega arith)
  settle_on-Good fuel n later total (idle c) g h k = g
  settle_on-Good fuel n later total (finished c) g h k = g
  settle_on-Good fuel n later total (malformed c) g h k = g

  pub settle-Owes :
      (fuel : ℕ) (c : Copy) (later total : Bytes)
      → Owes last trailer is_last c later total
      → length c.buf < fuel
      → Settled later total (settle fuel c)
  settle-Owes zero c later total s h = absurd (omega arith)
  settle-Owes (suc fuel) c later total s h = rw (settle-round fuel c) (
      settle_on-Good fuel (length c.buf) later total (round c) (round-Owes c later total s)
        (omega arith) (λ c' s' h'. settle-Owes fuel c' later total s' h'))
