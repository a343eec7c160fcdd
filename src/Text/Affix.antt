-- ===== src/Text/Affix.antt =====
-- Suffixes of texts, and the trailing dot of a name.
use native.Mathlib.Nat.{zero-add, suc-add}
use domudns.Prelude.{
  ℕ, ◌+◌, ◌-◌, ◌≤◌, ◌≡◌, refl, sym, ap, ◌∙◌, true, false, [], ◌∷◌, ◌++◌, length, take, drop,
  length-append, take-append-drop, drop-length-append, take-length-append, arith, leb, text_beq,
  text_beq_iff, text_beq_refl, Bool-cases, inl, inr,
}
use domudns.Text.{Text, has_suffix, trim_suffix, has_prefix}

-- A text ends in `t` exactly when it is some text before `t`.
pub append_of_has_suffix :
    (s t : Text) → has_suffix s t ≡ true → s ≡ take (length s - length t) s ++ t
unfolding has_suffix
append_of_has_suffix s t h =
    let same : text_beq (drop (length s - length t) s) t ≡ true = ground arith in
    let e = (text_beq_iff (drop (length s - length t) s) t).0 same in
    sym (take-append-drop (length s - length t) s) ∙ ap (λ u. take (length s - length t) s ++ u) e

sub_add : (m n : ℕ) → m + n - n ≡ m
sub_add m n = omega arith

le_add : (m n : ℕ) → leb n (m + n) ≡ true
le_add m n = ground arith

pub has_suffix-append : (s t : Text) → has_suffix (s ++ t) t ≡ true
unfolding has_suffix
has_suffix-append s t =
    rw (length-append s t, le_add, sub_add, drop-length-append s t) (text_beq_refl t)

pub trim_suffix-append : (s t : Text) → trim_suffix (s ++ t) t ≡ s
unfolding trim_suffix
trim_suffix-append s t =
    rw (has_suffix-append s t, length-append s t, sub_add) (take-length-append s t)

pub trim_suffix_absent : (s t : Text) → has_suffix s t ≡ false → trim_suffix s t ≡ s
unfolding trim_suffix
trim_suffix_absent s t h = rw h

pub length-trim_suffix-le : (s t : Text) → length (trim_suffix s t) ≤ length s
length-trim_suffix-le s t = elim (Bool-cases (has_suffix s t)) [
  | inl h ↦
      let e = append_of_has_suffix s t h in
      let e' = ap (λ (u : Text). trim_suffix u t) e ∙ trim_suffix-append _ t in
      omega (arith, ap length e, ap length e', length-append (take (length s - length t) s) t)
  | inr h ↦ rw (trim_suffix_absent s t h) (omega arith)
]

pub has_prefix_iff_append : (p s : Text) → has_prefix s p ≡ true → s ≡ p ++ drop (length p) s
has_prefix_iff_append [] s h = refl
has_prefix_iff_append (c ∷ p) [] h = ground arith
has_prefix_iff_append (c ∷ p) (d ∷ s) h = ground (arith, has_prefix_iff_append p s)

drop_add_append : (s u : Text) (k : ℕ) → drop (length s + k) (s ++ u) ≡ drop k u
drop_add_append [] u k = rw zero-add
drop_add_append (c ∷ s) u k = rw suc-add (drop_add_append s u k)

-- Whether a text ends in `t` is told by any suffix that is as long as `t`.
pub has_suffix-append_long :
    (s u t : Text) → length t ≤ length u → has_suffix (s ++ u) t ≡ has_suffix u t
unfolding has_suffix
has_suffix-append_long s u t h =
    let k : length s + length u - length t ≡ length s + (length u - length t) = omega arith in
    let l : leb (length t) (length s + length u) ≡ leb (length t) (length u) = ground arith in
    rw (length-append s u, k, l, drop_add_append s u (length u - length t))
