-- ===== src/Base/Lists.antt =====
-- Lists measured by native numbers, and predicates on lists by recursion.
use Prim.Native.Nat.{ℕ, suc, ◌+◌}
use mathlib.Core.Path.{◌≡◌, refl, sym, ◌∙◌}
use mathlib.Core.Bool.{Bool, true, false, false≢true, ◌&&◌, ◌||◌}
use mathlib.Core.List.{Memᴰ}
use mathlib.Core.List.Memᴰ
use mathlib.Core.Logic.{inl, inr}
use mathlib.Core.List.{List, [], ◌∷◌, ◌++◌}
use native.Mathlib.Omega.{arith}
use g3_voicestock.Base.Tests.{Bool-cases, if◌then◌else◌}

module _ {ℓ} {A : Type ℓ} where
  abbrev pub length : List A → ℕ
  length [] = 0
  length (x ∷ xs) = suc (length xs)

  pub length-append : (xs ys : List A) → length (xs ++ ys) ≡ length xs + length ys
  length-append [] ys = omega arith
  length-append (x ∷ xs) ys = omega (arith, length-append xs ys)

  -- `not xs`
  abbrev pub is_nil : List A → Bool
  is_nil [] = true
  is_nil (_ ∷ _) = false

  -- A list comprehension with a condition.
  abbrev pub keep : (A → Bool) → List A → List A
  keep p [] = []
  keep p (x ∷ xs) = if p x then x ∷ keep p xs else keep p xs

  -- `all(p(x) for x in xs)` and `any(p(x) for x in xs)`.
  abbrev pub every : (A → Bool) → List A → Bool
  every p [] = true
  every p (x ∷ xs) = p x && every p xs

  abbrev pub some_of : (A → Bool) → List A → Bool
  some_of p [] = false
  some_of p (x ∷ xs) = p x || some_of p xs

abbrev pub All {ℓ κ} : {A : Type ℓ} → (A → Type κ) → List A → Type κ
All P [] = Unit
All P (x ∷ xs) = P x × All P xs

-- What `keep` returns passes the test.
pub All-keep {ℓ} : {A : Type ℓ} (p : A → Bool) (xs : List A) → All (λ x. p x ≡ true) (keep p xs)
All-keep p [] = tt
All-keep p (x ∷ xs) = ground (arith, All-keep p xs)

module _ {ℓ} {A : Type ℓ} (p : A → Bool) where
  pub keep-mem : {a : A} (l : List A) → Memᴰ a (keep p l) → Memᴰ a l × (p a ≡ true)
  keep-mem [] m = absurd (Memᴰ.not-nil m)
  keep-mem (x ∷ l) m = elim (Bool-cases (p x)) [
    | inl e ↦ elim (Memᴰ.cases_cons (rw e at m)) [
      | inl q ↦ (Memᴰ.head q, rw q e)
      | inr k ↦ let r = keep-mem l k in (Memᴰ.tail r.0, r.1)
    ]
    | inr e ↦ let r = keep-mem l (rw e at m) in (Memᴰ.tail r.0, r.1)
  ]

  pub mem-keep : {a : A} (l : List A) → Memᴰ a l → p a ≡ true → Memᴰ a (keep p l)
  mem-keep [] m h = absurd (Memᴰ.not-nil m)
  mem-keep (x ∷ l) m h = elim (Bool-cases (p x)) [
    | inl e ↦
        rw e (elim (Memᴰ.cases_cons m) [ inl q ↦ Memᴰ.head q | inr k ↦ Memᴰ.tail (mem-keep l k h) ])
    | inr e ↦ elim (Memᴰ.cases_cons m) [
      | inl q ↦ absurd (false≢true (sym e ∙ (rw (← q) h)))
      | inr k ↦ rw e (mem-keep l k h)
    ]
  ]

module _ {ℓ} {A : Type ℓ} (p : A → Bool) where
  pub keep-append : (xs ys : List A) → keep p (xs ++ ys) ≡ keep p xs ++ keep p ys
  keep-append [] ys = refl
  keep-append (x ∷ xs) ys = ground (arith, keep-append xs ys)

  -- Where no member passes the test, nothing is kept.
  pub keep-none : (l : List A) → ((a : A) → Memᴰ a l → p a ≡ false) → keep p l ≡ []
  keep-none [] h = refl
  keep-none (x ∷ l) h = rw (h x (Memᴰ.head refl)) (keep-none l (λ a m. h a (Memᴰ.tail m)))
