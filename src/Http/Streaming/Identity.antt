-- ===== src/Http/Streaming/Identity.antt =====
-- crates/pcsuite-net/src/https.rs: `stream_identity` over a body that arrives cut anywhere.
use pcsuite_rs.Base.{
  ℕ, ◌+◌, ◌-◌, ◌<◌, ◌≤◌, ◌≡◌, refl, ap, sym, ◌∙◌, List, [], ◌∷◌, ◌++◌, some, length, lt→ltb, ==-≢,
  ==-refl, arith, All, leb, Bool-cases, inl, inr, leb→le, leb_false→lt, min, take, append_assoc,
  append-nil, length-append, length-take, take_all, take-append_le, take-append_add,
}
use pcsuite_rs.Base.Wire.{Bytes}
use pcsuite_rs.Base.Streams.{Read, got, failed, IsNonempty, concat, arrivals, nonempty_length}
use pcsuite_rs.Base.Result.{done, bail}
use pcsuite_rs.Http.Streaming.{stream_identity}

-- Less than announced: all of it is written, and the loop goes on with the next read.
stream_identity-short :
    (total : ℕ) (out pending c : Bytes) (src : List Read)
    → IsNonempty c
    → length out + length pending < total
    → stream_identity (some total) out pending (got c ∷ src)
      ≡ stream_identity (some total) (out ++ pending) c src
unfolding stream_identity
stream_identity-short total out pending c src hc short =
    let n : min (length pending) (total - length out) ≡ length pending = omega arith in
    rw (
      stream_identity,
      n,
      take_all (length pending) pending (omega arith),
      ==-≢ total (length (out ++ pending)) (omega (arith, length-append out pending)),
      hc,
    )

-- A body of which the announced length has not arrived before EOF: all of it is written, and the
-- function fails.
pub stream_identity-truncated :
    (total : ℕ) (out pending : Bytes) (chunks : List Bytes) (later : List Read)
    → All IsNonempty chunks
    → length (out ++ (pending ++ concat chunks)) < total
    → stream_identity (some total) out pending (arrivals chunks (got [] ∷ later))
      ≡ (out ++ (pending ++ concat chunks), bail "download truncated")
unfolding stream_identity
stream_identity-truncated total out pending [] later h short =
    let len = length-append out (pending ++ []) in
    let len' = length-append pending [] in
    let n : min (length pending) (total - length out) ≡ length pending = omega (arith, len, len') in
    let now = length-append out pending in
    rw (
      stream_identity,
      n,
      take_all (length pending) pending (omega arith),
      ==-≢ total (length (out ++ pending)) (omega (arith, now, len, len')),
      lt→ltb (length (out ++ pending)) total (omega (arith, now, len, len')),
      append-nil pending,
    )
stream_identity-truncated total out pending (c ∷ chunks) later (hc, hs) short =
    let whole = append_assoc out pending (c ++ concat chunks) in
    let pos = nonempty_length c hc in
    stream_identity-short total out pending c (arrivals chunks (got [] ∷ later)) hc (
      omega (
        arith,
        length-append out (pending ++ (c ++ concat chunks)),
        length-append pending (c ++ concat chunks),
        length-append c (concat chunks),
      ))
    ∙ stream_identity-truncated total (out ++ pending) c chunks later hs
        (let e = ap length whole in omega (arith, e, short))
    ∙ ap (λ b. (b, bail "download truncated")) whole

reached :
    (total : ℕ) (out pending : Bytes)
    → length out ≤ total
    → total ≤ length out + length pending
    → (out ++ take (min (length pending) (total - length out)) pending
        ≡ take total (out ++ pending))
      × (length (take total (out ++ pending)) ≡ total)
reached total out pending h k =
    let n : min (length pending) (total - length out) ≡ total - length out = omega arith in
    let t : total ≡ length out + (total - length out) = omega arith in
    (
      rw n (
          sym (
            ap (λ n. take n (out ++ pending)) t
            ∙ take-append_add (length out) (total - length out) out pending refl)),
      omega (arith, length-take total (out ++ pending), length-append out pending),
    )

stream_identity-written :
    (total : ℕ) (out pending : Bytes) (src : List Read)
    → length out ≤ total
    → total ≤ length out + length pending
    → stream_identity (some total) out pending src ≡ (take total (out ++ pending), done total)
unfolding stream_identity
stream_identity-written total out pending [] h k =
    let (e, n) = reached total out pending h k in rw (stream_identity, e, n, ==-refl total)
stream_identity-written total out pending (failed ∷ src) h k =
    let (e, n) = reached total out pending h k in rw (stream_identity, e, n, ==-refl total)
stream_identity-written total out pending (got c ∷ src) h k =
    let (e, n) = reached total out pending h k in rw (stream_identity, e, n, ==-refl total)

-- A body of which at least the announced length arrives, cut anywhere: exactly the announced length is
-- written, and what arrives behind it is not waited for.
pub stream_identity_complete :
    (total : ℕ) (out pending : Bytes) (chunks : List Bytes) (later : List Read)
    → All IsNonempty chunks
    → length out ≤ total
    → total ≤ length (out ++ (pending ++ concat chunks))
    → stream_identity (some total) out pending (arrivals chunks later)
      ≡ (take total (out ++ (pending ++ concat chunks)), done total)
stream_identity_complete total out pending [] later h k long =
    stream_identity-written total out pending later k
      (omega (arith, length-append out (pending ++ []), length-append pending []))
    ∙ ap (λ p. (take total (out ++ p), done total)) (sym (append-nil pending))
stream_identity_complete total out pending (c ∷ chunks) later (hc, hs) k long =
    elim (Bool-cases (leb total (length out + length pending))) [
      | inl here ↦
          stream_identity-written total out pending (arrivals (c ∷ chunks) later) k
            (leb→le total _ here)
          ∙ ap (λ b. (b, done total))
              (sym (
                ap (take total) (sym (append_assoc out pending (c ++ concat chunks)))
                ∙ take-append_le total (out ++ pending) (c ++ concat chunks)
                    (let l = leb→le total _ here in omega (arith, length-append out pending, l))))
      | inr past ↦
          let l = leb_false→lt total _ past in
          stream_identity-short total out pending c (arrivals chunks later) hc l
          ∙ stream_identity_complete total (out ++ pending) c chunks later hs
              (omega (arith, length-append out pending, l))
              (let e = ap length (append_assoc out pending (c ++ concat chunks)) in
                omega (arith, e, long))
          ∙ ap (λ b. (take total b, done total)) (append_assoc out pending (c ++ concat chunks))
    ]
