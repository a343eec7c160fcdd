-- ===== src/Cache/Lru.antt =====
-- What the cache relies on of container/heap: the operations keep the elements, keep the order of a
-- heap, and Pop takes an element of least rank.
use domudns.Prelude.{
  ℕ, ◌+◌, ◌≤◌, ◌≡◌, List, [], ◌∷◌, false, Option, none, some, All, text_beq, if◌then◌else◌,
}
use domudns.Text.{Text}

-- How often a key is there.
abbrev pub count : Text → List Text → ℕ
count j [] = 0
count j (k ∷ l) = (if text_beq k j then 1 else 0) + count j l

-- The place of a key.
abbrev pub index_of : Text → List Text → Option ℕ
index_of j [] = none
index_of j (k ∷ l) =
    if text_beq k j then some 0 else elim (index_of j l) [ none ↦ none | some i ↦ some (i + 1) ]

-- A rank stands for the time by which Less compares.
pub record Heap : Type 1 where
  pub fix : (Text → ℕ) → ℕ → List Text → List Text
  pub push : (Text → ℕ) → Text → List Text → List Text
  pub pop : (Text → ℕ) → List Text → Option (Text × List Text)
  pub remove : (Text → ℕ) → ℕ → List Text → List Text
  pub IsHeap : (Text → ℕ) → List Text → Type 0
  pub count-fix :
      (r : Text → ℕ) (i : ℕ) (l : List Text) (j : Text) → count j (fix r i l) ≡ count j l
  pub count-push :
      (r : Text → ℕ) (k : Text) (l : List Text) (j : Text)
      → count j (push r k l) ≡ (if text_beq k j then 1 else 0) + count j l
  pub pop-some :
      (r : Text → ℕ) (k : Text) (l : List Text) → (p : Text × List Text) × (pop r (k ∷ l) ≡ some p)
  pub count-pop :
      (r : Text → ℕ) (l l' : List Text) (k j : Text)
      → pop r l ≡ some (k, l')
      → count j l ≡ (if text_beq k j then 1 else 0) + count j l'
  pub count-remove :
      (r : Text → ℕ) (i : ℕ) (l : List Text) (k j : Text)
      → index_of k l ≡ some i
      → count j l ≡ (if text_beq k j then 1 else 0) + count j (remove r i l)
  pub IsHeap_nil : (r : Text → ℕ) → IsHeap r []
  pub IsHeap_agree :
      (r r' : Text → ℕ) (l : List Text) → All (λ j. r j ≡ r' j) l → IsHeap r l → IsHeap r' l
  pub fix-IsHeap :
      (r r' : Text → ℕ) (i : ℕ) (l : List Text) (k : Text)
      → ((j : Text) → count j l ≤ 1)
      → index_of k l ≡ some i
      → ((j : Text) → text_beq k j ≡ false → r j ≡ r' j)
      → IsHeap r l
      → IsHeap r' (fix r' i l)
  pub push-IsHeap :
      (r : Text → ℕ) (k : Text) (l : List Text) → count k l ≡ 0 → IsHeap r l → IsHeap r (push r k l)
  pub pop-IsHeap :
      (r : Text → ℕ) (l l' : List Text) (k : Text)
      → pop r l ≡ some (k, l')
      → IsHeap r l
      → IsHeap r l' × All (λ j. r k ≤ r j) l'
  pub remove-IsHeap : (r : Text → ℕ) (i : ℕ) (l : List Text) → IsHeap r l → IsHeap r (remove r i l)
