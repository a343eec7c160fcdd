-- ===== src/Prelude/Eqs.antt =====
-- Types with a Boolean equality, as an interface for the maps and sets of the program.
use Prim.Native.Nat.{ℕ}
use mathlib.Core.Bool.{Bool, true, false, ◌&&◌}
use mathlib.Core.List.{List, [], ◌∷◌}
use mathlib.Core.Logic.{◌↔◌}
use mathlib.Core.Path.{◌≡◌, refl}
use native.Mathlib.Omega.{arith}
use domudns.Prelude.Tests.{◌==◌, ==_iff}

pub record Eq {ℓ} (A : Type ℓ) : Type ℓ where
  pub beq : A → A → Bool
  pub beq_iff : (x y : A) → (beq x y ≡ true) ↔ (x ≡ y)

instance abbrev pub nat_eq : Eq ℕ
nat_eq = record { beq = ◌==◌; beq_iff = ==_iff }

-- `beq` is an equality of bytes; a text is a list of them.
abbrev pub text_beq : List ℕ → List ℕ → Bool
text_beq [] [] = true
text_beq [] (d ∷ t) = false
text_beq (c ∷ s) [] = false
text_beq (c ∷ s) (d ∷ t) = (c == d) && text_beq s t

text_beq→eq : (s t : List ℕ) → text_beq s t ≡ true → s ≡ t
text_beq→eq [] [] h = refl
text_beq→eq [] (d ∷ t) h = ground arith
text_beq→eq (c ∷ s) [] h = ground arith
text_beq→eq (c ∷ s) (d ∷ t) h = ground (arith, text_beq→eq s t)

pub text_beq_refl : (s : List ℕ) → text_beq s s ≡ true
text_beq_refl [] = refl
text_beq_refl (c ∷ s) = ground (arith, text_beq_refl s)

pub text_beq_iff : (s t : List ℕ) → (text_beq s t ≡ true) ↔ (s ≡ t)
text_beq_iff s t = (text_beq→eq s t, λ e. rw e (text_beq_refl t))

instance abbrev pub text_eq : Eq (List ℕ)
text_eq = record { beq = text_beq; beq_iff = text_beq_iff }
