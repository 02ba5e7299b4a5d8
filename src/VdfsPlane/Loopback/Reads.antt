-- ===== src/VdfsPlane/Loopback/Reads.antt =====
-- crates/pcsuite-core/src/vdfs.rs: the two receive loops over a reply that arrives cut anywhere.
use pcsuite_rs.Base.{
  ℕ, ◌+◌, ◌≤◌, ◌<◌, ◌≡◌, refl, ap, ◌∙◌, sym, false, List, [], ◌∷◌, ◌++◌, Option, none, some, length,
  leb, if◌then◌else◌, ◌==◌, take, arith, length-append, append-nil, append_assoc, All, le→ltb_false,
  lt→ltb, le→leb, lt→leb_false, take-append_le, Bool-cases, leb→le, leb_false→lt, ◌⊎◌, inl, inr,
}
use pcsuite_rs.Base.Streams.{Read, got, failed, IsNonempty, concat, arrivals, nonempty_length}
use pcsuite_rs.Base.Wire.{Bytes, from_be}
use pcsuite_rs.Base.Result.{done}
use pcsuite_rs.VdfsPlane.Client.{read_loop, framed_loop, next_total, is_whole}

-- A reply of as many bytes as the caller waits for is returned whole, and no byte behind it.
pub read_loop-arrivals :
    (min : ℕ) (buf : Bytes) (chunks : List Bytes) (later : List Read)
    → All IsNonempty chunks
    → length (buf ++ concat chunks) ≡ min
    → read_loop min buf (arrivals chunks later) ≡ done (buf ++ concat chunks)
unfolding read_loop
read_loop-arrivals min buf [] [] h e = ap done (sym (append-nil buf))
read_loop-arrivals min buf [] (got c ∷ later) h e =
    rw (le→ltb_false (length buf) min (omega (arith, length-append {A = ℕ} buf [])))
      (ap done (sym (append-nil buf)))
read_loop-arrivals min buf [] (failed ∷ later) h e =
    rw (le→ltb_false (length buf) min (omega (arith, length-append {A = ℕ} buf [])))
      (ap done (sym (append-nil buf)))
read_loop-arrivals min buf (c ∷ chunks) later (hc, hs) e =
    let short : length buf < min = omega (
      arith,
      nonempty_length c hc,
      length-append buf (c ++ concat chunks),
      length-append c (concat chunks),
    ) in
    rw (lt→ltb (length buf) min short, hc)
      (read_loop-arrivals min (buf ++ c) chunks later hs
          (ap length (append_assoc buf c (concat chunks)) ∙ e)
        ∙ ap done (append_assoc buf c (concat chunks)))

-- The length that the header announces is read from any prefix of the reply that holds the header.
next_total-prefix :
    (xs ys : Bytes) (t : ℕ)
    → next_total none (xs ++ ys) ≡ some t
    → 5 ≤ length xs
    → next_total none xs ≡ some t
unfolding next_total
next_total-prefix [] ys t e h = absurd (omega arith)
next_total-prefix (x ∷ xs) ys t e h =
    let long : 5 ≤ length ((x ∷ xs) ++ ys) = omega (arith, length-append xs ys) in
    let same : take 4 (xs ++ ys) ≡ take 4 xs = take-append_le 4 xs ys (omega arith) in
    let read_whole : next_total none ((x ∷ xs) ++ ys)
        ≡ (if x == 3 then some (5 + from_be (take 4 (xs ++ ys))) else none) =
      rw (next_total, le→leb 5 (length ((x ∷ xs) ++ ys)) long) in
    let read_part : next_total none (x ∷ xs)
        ≡ (if x == 3 then some (5 + from_be (take 4 (xs ++ ys))) else none) =
      rw (next_total, le→leb 5 (length (x ∷ xs)) h, same) in
    read_part ∙ sym read_whole ∙ e

next_total_short : (xs : Bytes) → length xs < 5 → next_total none xs ≡ none
unfolding next_total
next_total_short xs h = rw (lt→leb_false 5 (length xs) h)

-- What the loop knows of the length of a reply of `t` bytes once it holds `buf`.
abbrev pub Knows : Option ℕ → Bytes → ℕ → Type 0
Knows total buf t = (total ≡ some t) ⊎ ((total ≡ none) × (length buf < 5))

next_total-Knows :
    (total : Option ℕ) (buf c rest : Bytes) (t : ℕ)
    → next_total none (buf ++ (c ++ rest)) ≡ some t
    → Knows total buf t
    → Knows (next_total total (buf ++ c)) (buf ++ c) t
unfolding next_total
next_total-Knows total buf c rest t e (inl k) = inl (rw (next_total, k))
next_total-Knows total buf c rest t e (inr (k, h)) =
    rw (next_total, k)
      (elim (Bool-cases (leb 5 (length (buf ++ c)))) [
        | inl l ↦ inl (
            next_total-prefix (buf ++ c) rest t (ap (next_total none) (append_assoc buf c rest) ∙ e)
              (leb→le 5 _ l))
        | inr l ↦ let s = leb_false→lt 5 _ l in inr (next_total_short (buf ++ c) s, s)
      ])

is_whole-Knows :
    (total : Option ℕ) (buf : Bytes) (t : ℕ)
    → Knows total buf t
    → length buf < t
    → is_whole total buf ≡ false
unfolding is_whole
is_whole-Knows total buf t (inl k) h = rw (is_whole, k) (lt→leb_false t (length buf) h)
is_whole-Knows total buf t (inr (k, l)) h = rw (is_whole, k)

framed_loop-end :
    (total : Option ℕ) (buf : Bytes) (later : List Read) (t : ℕ)
    → length buf ≡ t
    → 5 ≤ t
    → Knows total buf t
    → framed_loop total buf later ≡ done buf
unfolding framed_loop is_whole
framed_loop-end total buf later t l m (inr (k, h)) = absurd (omega arith)
framed_loop-end total buf [] t l m (inl k) = refl
framed_loop-end total buf (got c ∷ later) t l m (inl k) =
    rw (framed_loop, k, is_whole, le→leb t (length buf) (omega (arith, l)))
framed_loop-end total buf (failed ∷ later) t l m (inl k) =
    rw (framed_loop, k, is_whole, le→leb t (length buf) (omega (arith, l)))

-- The same for the loop that learns the length from the header.
pub framed_loop-arrivals :
    (total : Option ℕ) (buf : Bytes) (chunks : List Bytes) (later : List Read) (t : ℕ)
    → All IsNonempty chunks
    → next_total none (buf ++ concat chunks) ≡ some t
    → length (buf ++ concat chunks) ≡ t
    → 5 ≤ t
    → Knows total buf t
    → framed_loop total buf (arrivals chunks later) ≡ done (buf ++ concat chunks)
unfolding framed_loop
framed_loop-arrivals total buf [] later t h e l m k =
    framed_loop-end total buf later t (omega (arith, length-append {A = ℕ} buf [])) m k
    ∙ ap done (sym (append-nil buf))
framed_loop-arrivals total buf (c ∷ chunks) later t (hc, hs) e l m k =
    let short : length buf < t = omega (
      arith,
      nonempty_length c hc,
      length-append buf (c ++ concat chunks),
      length-append c (concat chunks),
    ) in
    let step = append_assoc buf c (concat chunks) in
    rw (is_whole-Knows total buf t k short, hc)
      (framed_loop-arrivals (next_total total (buf ++ c)) (buf ++ c) chunks later t hs
          (ap (next_total none) step ∙ e) (ap length step ∙ l) m
          (next_total-Knows total buf c (concat chunks) t e k)
        ∙ ap done step)
