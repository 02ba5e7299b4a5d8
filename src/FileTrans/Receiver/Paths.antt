-- ===== src/FileTrans/Receiver/Paths.antt =====
-- Where received files are written: crates/pcsuite-core/src/filetrans.rs.
use pcsuite_rs.Base.{
  ℕ, ◌≡◌, ◌≢◌, refl, false, List, [], ◌∷◌, ◌++◌, Option, none, some, is_empty, All, arith, bytes_eq,
  bytes_eq_iff, Bool-cases, Option-cases, inl, inr,
}
use pcsuite_rs.Base.Wire.{Bytes, codes}
use pcsuite_rs.Base.Text.{split, to_decimal}
use pcsuite_rs.Base.Text.Clear.{IsClear, IsClear-append, split-IsClear, to_decimal-IsClear}
use pcsuite_rs.FileTrans.Receiver.{last_part, file_name_of, safe_name}

-- A name of a file in a directory: not empty, no separator, neither the directory nor its parent.
pub record IsPlainName (c : Bytes) : Type 0 where
  pub some_name : is_empty c ≡ false
  pub one_part : IsClear b'/' c
  pub not_here : c ≢ codes "."
  pub not_up : c ≢ codes ".."

-- What `last_part` may have seen.
record IsPart (c : Bytes) : Type 0 where
  filled : is_empty c ≡ false
  clear : IsClear b'/' c
  no_dot : bytes_eq c (codes ".") ≡ false

IsSeen : Option Bytes → Type 0
IsSeen none = Unit
IsSeen (some c) = IsPart c

last_part-IsSeen :
    (seen : Option Bytes) (cs : List Bytes)
    → IsSeen seen
    → All (IsClear b'/') cs
    → IsSeen (last_part seen cs)
last_part-IsSeen seen [] h k = h
last_part-IsSeen seen (c ∷ cs) h (k, ks) = elim (Bool-cases (is_empty c)) [
  | inl e ↦ rw e (last_part-IsSeen seen cs h ks)
  | inr e ↦ elim (Bool-cases (bytes_eq c (codes "."))) [
    | inl d ↦ rw (e, d) (last_part-IsSeen seen cs h ks)
    | inr d ↦
        rw (e, d)
          (last_part-IsSeen (some c) cs
            (unfold IsSeen in record { filled = e; clear = k; no_dot = d }) ks)
  ]
]

last_part_parts : (name : Bytes) → IsSeen (last_part none (split b'/' name))
last_part_parts name =
    last_part-IsSeen none (split b'/' name) (unfold IsSeen in tt) (split-IsClear b'/' name)

seen-IsPart : (o : Option Bytes) {c : Bytes} → IsSeen o → o ≡ some c → IsPart c
unfolding IsSeen
seen-IsPart none h e = cc
seen-IsPart (some d) {c} h e = let f : d ≡ c = cc in rw (← f) h

file_name_of-IsPart :
    (name c : Bytes) → file_name_of name ≡ some c → IsPart c × (bytes_eq c (codes "..") ≡ false)
unfolding file_name_of
file_name_of-IsPart name c e = elim (Option-cases (last_part none (split b'/' name))) [
  | inl none_seen ↦ let f : none ≡ some c = rw (file_name_of, none_seen) at e in cc
  | inr (d, seen) ↦ elim (Bool-cases (bytes_eq d (codes ".."))) [
    | inl up ↦ let f : none ≡ some c = rw (file_name_of, seen, up) at e in cc
    | inr down ↦
        let f : some d ≡ some c = rw (file_name_of, seen, down) at e in
        let g : d ≡ c = cc in
        (
          seen-IsPart (last_part none (split b'/' name)) (last_part_parts name) (rw (seen, g) refl),
          rw g at down,
        )
  ]
]

differs : (a b : Bytes) → bytes_eq a b ≡ false → a ≢ b
differs a b h e = let f = (bytes_eq_iff a b).1 e in cc

numbered-IsPlainName : (n : ℕ) → IsPlainName (codes "recv-" ++ (to_decimal n ++ codes ".bin"))
numbered-IsPlainName n = record {
  some_name = refl;
  one_part = IsClear-append b'/' (codes "recv-") _ (omega arith) (
      IsClear-append b'/' (to_decimal n) (codes ".bin") (to_decimal-IsClear b'/' n (omega arith))
        (omega arith));
  not_here = λ e. cc;
  not_up = λ e. cc;
}

-- Whatever name an entry has and however many were saved before it, it is saved under a plain name: the
-- file is in the chosen directory and nowhere else.
pub safe_name-IsPlainName : (name : Bytes) (n : ℕ) → IsPlainName (safe_name name n)
unfolding safe_name
safe_name-IsPlainName name n = elim (Option-cases (file_name_of name)) [
  | inl e ↦ rw (safe_name, e) (numbered-IsPlainName n)
  | inr (c, e) ↦
      let (p, down) = file_name_of-IsPart name c e in
      rw (safe_name, e)
        (record {
          some_name = p.filled;
          one_part = p.clear;
          not_here = differs c (codes ".") p.no_dot;
          not_up = differs c (codes "..") down;
        })
]
