-- ===== src/Mdfs/Transfer/Replies.antt =====
-- crates/pcsuite-core/src/mdfs.rs: when a reply on an open socket is complete.
use pcsuite_rs.Base.{
  if◌then◌else◌, ℕ, ◌+◌, ◌-◌, ◌≡◌, refl, ap, sym, ◌∙◌, Bool, true, false, ◌&&◌, ◌||◌, List, [], ◌∷◌,
  ◌++◌, map, none, some, length, leb, take, drop, All, arith, length-append, append_assoc,
  take-append, drop-append_add,
}
use pcsuite_rs.Base.Wire.{Bytes, codes, starts_with, position_of}
use pcsuite_rs.Base.Search.{position_from_longer}
use pcsuite_rs.Base.Outcome.{usize_mod}
use pcsuite_rs.Base.Text.{lower, lines, trim, from_str_radix, contains, strip_prefix}
use pcsuite_rs.Base.Utf8.{from_utf8_lossy}
use pcsuite_rs.Mdfs.Transfer.{
  blank_line, find, first_length, any_chunked, final_chunk, is_some, http_reply_complete,
}

abbrev pub NoLength : Bytes → Type 0
NoLength l = starts_with l (codes "content-length:") ≡ false

abbrev pub NotChunked : Bytes → Type 0
NotChunked l = starts_with l (codes "transfer-encoding:") && contains l (codes "chunked") ≡ false

-- No line has a length, or the value of the first one is no number that fits.
pub data Unmeasured (ls : List Bytes) : Type 0 where
  no_length : All NoLength ls → Unmeasured ls
  no_number :
      (before after : List Bytes) (value : Bytes)
      → ls ≡ before ++ ((codes "content-length:" ++ value) ∷ after)
      → All NoLength before
      → from_str_radix 10 usize_mod (trim value) ≡ none
      → Unmeasured ls

-- What the lines of a head, in lower case, say of the body, and the test that a body is whole. Without a
-- length in the first line that gives one, a body is whole if it is chunked and holds the final chunk. The first line with a length
-- counts.
pub data Framing (ls : List Bytes) : (Bytes → Bool) → Type 0 where
  measured_by :
      (before after : List Bytes) (value : Bytes) (n : ℕ)
      → ls ≡ before ++ ((codes "content-length:" ++ value) ∷ after)
      → All NoLength before
      → from_str_radix 10 usize_mod (trim value) ≡ some n
      → Framing ls (λ body. leb n (length body))
  chunked_by :
      (before after : List Bytes) (l : Bytes)
      → Unmeasured ls
      → ls ≡ before ++ (l ∷ after)
      → starts_with l (codes "transfer-encoding:") ≡ true
      → contains l (codes "chunked") ≡ true
      → Framing ls (λ body. is_some (find body final_chunk))
  neither : Unmeasured ls → All NotChunked ls → Framing ls (λ body. false)

first_length-before :
    (before after : List Bytes) (value : Bytes)
    → All NoLength before
    → first_length (before ++ ((codes "content-length:" ++ value) ∷ after)) ≡ some value
unfolding first_length strip_prefix starts_with
first_length-before [] after value ok = refl
first_length-before (l ∷ before) after value (h, ok) =
    rw (first_length, strip_prefix, h, first_length-before before after value ok) refl

first_length-none : (ls : List Bytes) → All NoLength ls → first_length ls ≡ none
unfolding first_length strip_prefix
first_length-none [] ok = refl
first_length-none (l ∷ ls) (h, ok) =
    rw (first_length, strip_prefix, h, first_length-none ls ok) refl

any_chunked-here :
    (before after : List Bytes) (l : Bytes)
    → starts_with l (codes "transfer-encoding:") ≡ true
    → contains l (codes "chunked") ≡ true
    → any_chunked (before ++ (l ∷ after)) ≡ true
unfolding any_chunked
any_chunked-here [] after l p c = rw (any_chunked, p, c) refl
any_chunked-here (k ∷ before) after l p c =
    rw (any_chunked, any_chunked-here before after l p c)
      (or_true (starts_with k (codes "transfer-encoding:") && contains k (codes "chunked")))
  where
    or_true : (b : Bool) → b || true ≡ true
    or_true true = refl
    or_true false = refl

any_chunked-none : (ls : List Bytes) → All NotChunked ls → any_chunked ls ≡ false
unfolding any_chunked
any_chunked-none [] ok = refl
any_chunked-none (l ∷ ls) (h, ok) = rw (any_chunked, h, any_chunked-none ls ok) refl

-- A reply that arrives on an open socket, with any body so far, is complete exactly if the test that its
-- head's lines call for says so: with a number in the first line with a length, from that many bytes on;
-- without such a line, or if its value is no number, if the body is chunked and holds the final chunk, and
-- never if it is not chunked. The head holds no blank line.
pub http_reply_complete-Framing :
    (head body : Bytes) (whole : Bytes → Bool)
    → find (head ++ blank_line) blank_line ≡ some (length head)
    → Framing (lines (map lower (from_utf8_lossy head))) whole
    → http_reply_complete (head ++ (blank_line ++ body)) ≡ whole body
unfolding http_reply_complete find position_of
http_reply_complete-Framing head body whole ends framing = by_case framing
  where
    buf : Bytes
    buf = head ++ (blank_line ++ body)

    ls : List Bytes
    ls = lines (map lower (from_utf8_lossy head))

    len : length buf - (length head + 4) ≡ length body
    len = omega (arith, length-append head (blank_line ++ body))

    at_end : find buf blank_line ≡ some (length head)
    at_end =
        ap (position_of blank_line) (sym (append_assoc head blank_line body))
        ∙ position_from_longer 0 (length head) blank_line (head ++ blank_line) body ends

    front : take (length head) buf ≡ head
    front = take-append (length head) head (blank_line ++ body) refl

    back : drop (length head + 4) buf ≡ body
    back = drop-append_add (length head) 4 head (blank_line ++ body) refl

    by_chunks :
        Unmeasured ls
        → http_reply_complete buf
          ≡ (if any_chunked ls then is_some (find body final_chunk) else false)
    by_chunks (no_length ok) =
        rw (http_reply_complete, at_end, front, first_length-none ls ok, front, back) refl
    by_chunks (no_number before after value e ok invalid) =
        rw
          (
            http_reply_complete,
            at_end,
            front,
            ap first_length e ∙ first_length-before before after value ok,
            invalid,
            front,
            back,
          )
          refl

    by_case : {w : Bytes → Bool} → Framing ls w → http_reply_complete buf ≡ w body
    by_case (measured_by before after value n e ok valid) =
        rw
          (
            http_reply_complete,
            at_end,
            front,
            ap first_length e ∙ first_length-before before after value ok,
            valid,
            len,
          )
          refl
    by_case (chunked_by before after l un e p c) =
        by_chunks un ∙ (rw (ap any_chunked e ∙ any_chunked-here before after l p c) refl)
    by_case (neither un no_chunks) = by_chunks un ∙ (rw (any_chunked-none ls no_chunks) refl)
