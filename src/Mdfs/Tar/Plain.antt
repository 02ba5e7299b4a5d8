-- ===== src/Mdfs/Tar/Plain.antt =====
-- crates/pcsuite-core/src/mdfs.rs: the paths that `extract_tar_to_dir` makes of an entry's name.
use pcsuite_rs.Base.{
  ℕ, zero, suc, ◌+◌, ◌-◌, ◌%◌, ◌^◌, ◌<◌, ◌≡◌, ◌≢◌, refl, ap, sym, ◌∙◌, true, false, List, [], ◌∷◌,
  ◌++◌, some, length, ltb, bytes_eq, is_empty, All, Bool-cases, inl, inr, arith, length-append,
  ◌==◌,
}
use pcsuite_rs.Base.Wire.{Bytes, codes}
use pcsuite_rs.Base.Text.{split}
use pcsuite_rs.Base.Text.Clear.{IsClear, IsClear-append, split-IsClear, to_decimal-IsClear}
use pcsuite_rs.Mdfs.Tar.Extract.{
  join, is_path, is_safe, keep_safe, safe_parts, split_stem, stem_ext, i32_text, numbered,
  first_free, unique_path, fold_join, dirs_down, but_last,
}

-- A component that stays in its directory: not empty, no separator, neither "." nor "..".
pub record IsPlain (c : Bytes) : Type 0 where
  pub named : c ≢ []
  pub one_part : IsClear b'/' c
  pub not_here : c ≢ codes "."
  pub not_up : c ≢ codes ".."

-- A path that leads from the directory down through plain components, one at least.
pub record IsInside (out_dir p : Bytes) : Type 0 where
  pub first : Bytes
  pub rest : List Bytes
  pub plain : All IsPlain (first ∷ rest)
  pub down : p ≡ fold_join out_dir (first ∷ rest)

is_safe-IsPlain : (c : Bytes) → IsClear b'/' c → is_safe c ≡ true → IsPlain c
unfolding bytes_eq
is_safe-IsPlain c clear h = record {
  named = λ e. let f : is_safe c ≡ false = ap is_safe e in cc;
  one_part = clear;
  not_here = λ e. let f : is_safe c ≡ false = ap is_safe e in cc;
  not_up = λ e. let f : is_safe c ≡ false = ap is_safe e in cc;
}

keep_safe-IsPlain : (cs : List Bytes) → All (IsClear b'/') cs → All IsPlain (keep_safe cs)
keep_safe-IsPlain [] h = tt
keep_safe-IsPlain (c ∷ cs) (h, hs) = elim (Bool-cases (is_safe c)) [
  | inl safe ↦ rw safe (is_safe-IsPlain c h safe, keep_safe-IsPlain cs hs)
  | inr unsafe ↦ rw unsafe (keep_safe-IsPlain cs hs)
]

pub safe_parts-IsPlain : (name : Bytes) → All IsPlain (safe_parts name)
unfolding safe_parts
safe_parts-IsPlain name = keep_safe-IsPlain (split b'/' name) (split-IsClear b'/' name)

long_IsPlain : (c : Bytes) → IsClear b'/' c → 2 < length c → IsPlain c
long_IsPlain c clear h = record {
  named = λ e. absurd (omega (arith, ap length e));
  one_part = clear;
  not_here = λ e. absurd (omega (arith, ap length e));
  not_up = λ e. absurd (omega (arith, ap length e));
}

split_stem-IsClear :
    (c : ℕ) (bs : Bytes) → IsClear c bs → IsClear c (split_stem bs).0 × IsClear c (split_stem bs).1
unfolding split_stem
split_stem-IsClear c [] h = (tt, tt)
split_stem-IsClear c (b ∷ bs) (h, hs) =
    let (stem, ext) = split_stem-IsClear c bs hs in
    elim (Bool-cases (is_empty ((split_stem bs).1))) [
      | inr later ↦ rw (split_stem, later) ((h, stem), ext)
      | inl none_later ↦ elim (Bool-cases (b == b'.')) [
        | inl dot ↦ rw (split_stem, none_later, dot) (tt, (h, hs))
        | inr other ↦ rw (split_stem, none_later, other) ((h, hs), tt)
      ]
    ]

stem_ext-IsClear :
    (c : ℕ) (bs : Bytes) → IsClear c bs → IsClear c (stem_ext bs).0 × IsClear c (stem_ext bs).1
stem_ext-IsClear c bs h = elim (Bool-cases (is_empty ((split_stem bs).0))) [
  | inl e ↦ rw e (h, tt)
  | inr e ↦ rw e (split_stem-IsClear c bs h)
]

i32_text-IsClear : (n : ℕ) → IsClear b'/' (i32_text n)
i32_text-IsClear n = elim (Bool-cases (ltb n (2 ^ 31))) [
  | inl e ↦ rw e (to_decimal-IsClear b'/' n (omega arith))
  | inr e ↦
      rw e (λ k. absurd (omega (arith, k)), to_decimal-IsClear b'/' (2 ^ 32 - n) (omega arith))
]

numbered-IsInside :
    (out_dir first : Bytes) (n : ℕ) → IsPlain first → IsInside out_dir (numbered out_dir first n)
unfolding numbered
numbered-IsInside out_dir first n h =
    let (stem, ext) = stem_ext-IsClear b'/' first h.one_part in
    let tail = i32_text n ++ (codes ")" ++ (stem_ext first).1) in
    record {
      first = (stem_ext first).0 ++ (codes " (" ++ tail);
      rest = [];
      plain = (
        long_IsPlain _
            (IsClear-append b'/' _ _ stem (
              IsClear-append b'/' (codes " (") _ (omega arith) (
                IsClear-append b'/' (i32_text n) _ (i32_text-IsClear n)
                  (IsClear-append b'/' (codes ")") _ (omega arith) ext))))
            (omega (
              arith,
              length-append (stem_ext first).0 (codes " (" ++ tail),
              length-append (i32_text n) (codes ")" ++ (stem_ext first).1),
            )),
        tt,
      );
      down = refl;
    }

join-IsInside : (out_dir c : Bytes) → IsPlain c → IsInside out_dir (join out_dir c)
join-IsInside out_dir c h = record { first = c; rest = []; plain = (h, tt); down = refl }

first_free-IsInside :
    (fuel : ℕ) (existing : List Bytes) (out_dir c p : Bytes) (n : ℕ)
    → IsPlain c
    → first_free fuel existing out_dir c n ≡ some p
    → IsInside out_dir p
unfolding first_free
first_free-IsInside zero existing out_dir c p n h e = cc
first_free-IsInside (suc fuel) existing out_dir c p n h e =
    elim (Bool-cases (is_path existing (numbered out_dir c n))) [
      | inl taken ↦
          first_free-IsInside fuel existing out_dir c p ((n + 1) % 2 ^ 32) h
            (rw (first_free, taken) at e)
      | inr free ↦
          let f : some (numbered out_dir c n) ≡ some p = rw (first_free, free) at e in
          let g : numbered out_dir c n ≡ p = cc in rw (← g) (numbered-IsInside out_dir c n h)
    ]

pub unique_path-IsInside :
    (existing : List Bytes) (out_dir c p : Bytes)
    → IsPlain c
    → unique_path existing out_dir c ≡ some p
    → IsInside out_dir p
unfolding unique_path
unique_path-IsInside existing out_dir c p h e =
    elim (Bool-cases (is_path existing (join out_dir c))) [
      | inl taken ↦
          first_free-IsInside (suc (length existing)) existing out_dir c p 1 h
            (rw (unique_path, taken) at e)
      | inr free ↦
          let f : some (join out_dir c) ≡ some p = rw (unique_path, free) at e in
          let g : join out_dir c ≡ p = cc in rw (← g) (join-IsInside out_dir c h)
    ]

fold_join-snoc :
    (p : Bytes) (cs : List Bytes) (c : Bytes)
    → fold_join p (cs ++ (c ∷ [])) ≡ join (fold_join p cs) c
fold_join-snoc p [] c = refl
fold_join-snoc p (d ∷ cs) c = fold_join-snoc (join p d) cs c

All-snoc : (cs : List Bytes) (c : Bytes) → All IsPlain cs → IsPlain c → All IsPlain (cs ++ (c ∷ []))
All-snoc [] c h k = (k, tt)
All-snoc (d ∷ cs) c (h, hs) k = (h, All-snoc cs c hs k)

below-IsInside :
    (out_dir p c : Bytes) → IsInside out_dir p → IsPlain c → IsInside out_dir (join p c)
below-IsInside out_dir p c h k = record {
  first = h.first;
  rest = h.rest ++ (c ∷ []);
  plain = All-snoc (h.first ∷ h.rest) c h.plain k;
  down = ap (λ q. join q c) h.down ∙ sym (fold_join-snoc out_dir (h.first ∷ h.rest) c);
}

pub fold_join-IsInside :
    (out_dir p : Bytes) (cs : List Bytes)
    → IsInside out_dir p
    → All IsPlain cs
    → IsInside out_dir (fold_join p cs)
fold_join-IsInside out_dir p [] h k = h
fold_join-IsInside out_dir p (c ∷ cs) h (k, ks) =
    fold_join-IsInside out_dir (join p c) cs (below-IsInside out_dir p c h k) ks

pub dirs_down-IsInside :
    (out_dir p : Bytes) (cs : List Bytes)
    → IsInside out_dir p
    → All IsPlain cs
    → All (IsInside out_dir) (dirs_down p cs)
dirs_down-IsInside out_dir p [] h k = (h, tt)
dirs_down-IsInside out_dir p (c ∷ cs) h (k, ks) =
    (h, dirs_down-IsInside out_dir (join p c) cs (below-IsInside out_dir p c h k) ks)

pub but_last-IsPlain : (cs : List Bytes) → All IsPlain cs → All IsPlain (but_last cs)
but_last-IsPlain [] h = tt
but_last-IsPlain (c ∷ []) h = tt
but_last-IsPlain (c ∷ (d ∷ cs)) (h, hs) = (h, but_last-IsPlain (d ∷ cs) hs)
