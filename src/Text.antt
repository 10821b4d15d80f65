-- ===== src/Text.antt =====
-- The functions of the C library on texts. A text is the list of its bytes before the NUL.
use middfs.Common.{◌++◌, false, ◌<◌, ap, ◌∙◌}
use middfs.Common.{ℕ, suc, ◌≡◌, refl, arith, List, [], ◌∷◌, Bool, true}
use mathlib.Core.Path.{subst}
use middfs.Common.{length, take, drop, replicate, All}
use middfs.Common.{if◌then◌else◌, ltb, ◌==◌, inl, inr, Bool-cases, ℤ, pos, negsuc, is_zero}

-- The sign of `strcmp`.
unfoldable pub strcmp : List ℕ → List ℕ → ℤ
strcmp [] [] = pos 0
strcmp [] (b ∷ t) = negsuc 0
strcmp (a ∷ s) [] = pos 1
strcmp (a ∷ s) (b ∷ t) = if a == b then strcmp s t else if ltb a b then negsuc 0 else pos 1

pub strcmp-eq : (s t : List ℕ) → is_zero (strcmp s t) ≡ true → s ≡ t
unfolding strcmp
strcmp-eq [] [] h = refl
strcmp-eq [] (b ∷ t) h = cc
strcmp-eq (a ∷ s) [] h = cc
strcmp-eq (a ∷ s) (b ∷ t) h = elim (Bool-cases (a == b)) [
  | inl e ↦ let same : a ≡ b = ground arith in let rest = strcmp-eq s t (rw e at h) in cc
  | inr e ↦ absurd (ground arith)
]

pub strcmp_refl : (s : List ℕ) → is_zero (strcmp s s) ≡ true
unfolding strcmp
strcmp_refl [] = refl
strcmp_refl (a ∷ s) = ground (arith, strcmp_refl s)

-- `strcmp(s, t) == 0`
abbrev pub same_text : List ℕ → List ℕ → Bool
same_text s t = is_zero (strcmp s t)

-- `strspn` and `strcspn` with one character: how many bytes in front are it, and how many are not.
unfoldable pub strspn : ℕ → List ℕ → ℕ
strspn c [] = 0
strspn c (x ∷ s) = let rest = strspn c s in if x == c then suc rest else 0

unfoldable pub strcspn : ℕ → List ℕ → ℕ
strcspn c [] = 0
strcspn c (x ∷ s) = let rest = strcspn c s in if x == c then 0 else suc rest

-- The front that `strspn` finds is made of the character, and the rest begins with another one.
pub strspn-front : (c : ℕ) (s : List ℕ) → s ≡ replicate (strspn c s) c ++ drop (strspn c s) s
unfolding strspn
strspn-front c [] = refl
strspn-front c (x ∷ s) = elim (Bool-cases (x == c)) [
  | inl e ↦
      let same : x ≡ c = ground arith in
      rw e (
        ap (λ t. x ∷ t) (strspn-front c s)
        ∙ ap (λ y. y ∷ (replicate (strspn c s) c ++ drop (strspn c s) s)) same)
  | inr e ↦ rw e refl
]

-- The front that `strcspn` finds is free of the character, and the rest begins with it.
pub strcspn-free : (c : ℕ) (s : List ℕ) → All (λ x. (x == c) ≡ false) (take (strcspn c s) s)
unfolding strcspn
strcspn-free c [] = tt
strcspn-free c (x ∷ s) = elim (Bool-cases (x == c)) [
  | inl e ↦ rw e tt
  | inr e ↦ rw e (e, strcspn-free c s)
]

-- The text is empty or begins with the character.
abbrev pub Begins : ℕ → List ℕ → Type 0
Begins c [] = Unit
Begins c (x ∷ s) = (x == c) ≡ true

pub strcspn-rest : (c : ℕ) (s : List ℕ) → Begins c (drop (strcspn c s) s)
unfolding strcspn
strcspn-rest c [] = tt
strcspn-rest c (x ∷ s) = elim (Bool-cases (x == c)) [
  | inl e ↦ rw e e
  | inr e ↦ rw e (strcspn-rest c s)
]

-- Of a text that does not begin with the character the front is not empty.
pub strcspn-pos :
    (c x : ℕ) (s : List ℕ) → (x == c) ≡ false → 0 < length (take (strcspn c (x ∷ s)) (x ∷ s))
unfolding strcspn
strcspn-pos c x s e = rw e (omega arith)

first_eq : {x y : ℕ} {s t : List ℕ} → x ∷ s ≡ y ∷ t → x ≡ y
first_eq h = cc

pub strspn-other : (c x : ℕ) (s t : List ℕ) → drop (strspn c s) s ≡ x ∷ t → (x == c) ≡ false
unfolding strspn
strspn-other c x [] t h = cc
strspn-other c x (y ∷ s) t h = elim (Bool-cases (y == c)) [
  | inl e ↦ strspn-other c x s t (rw e at h)
  | inr e ↦ let same : y ≡ x = first_eq (rw e at h) in subst (λ z. (z == c) ≡ false) same e
]
