-- ===== src/Base/Lists.antt =====
-- Lists over the native numbers, and association lists keyed by texts.
use Prim.Native.Nat.{ℕ, zero, suc, ◌+◌, ◌<◌}
use Prim.Native.String.{String}
use mathlib.Core.Path.{◌≡◌, refl, ◌∙◌}
use mathlib.Core.Logic.{◌⊎◌, inl, inr, ◌↔◌, ∥∥₁_elim}
use mathlib.Core.Bool.{Bool, true, false, ◌||◌}
use mathlib.Core.Option.{Option, none, some}
use mathlib.Core.List.{List, [], ◌∷◌, ◌++◌, map, Perm, Permᴰ}
use native.Mathlib.Omega.{arith}
use text.Mathlib.Text.{◌==◌}
use text.Mathlib.TextEquality.{eq_iff}
use autonomous_agent_account.Base.Tests.{if◌then◌else◌, Bool-cases, Bool-set}

module _ {ℓ} {A : Type ℓ} where
  abbrev pub length : List A → ℕ
  length [] = 0
  length (x ∷ xs) = suc (length xs)

  abbrev pub take : ℕ → List A → List A
  take zero xs = []
  take (suc n) [] = []
  take (suc n) (x ∷ xs) = x ∷ take n xs

  abbrev pub any : (A → Bool) → List A → Bool
  any p [] = false
  any p (x ∷ xs) = p x || any p xs

  -- How many items of a list pass a test.
  abbrev pub count : (A → Bool) → List A → ℕ
  count p [] = 0
  count p (x ∷ xs) = if p x then suc (count p xs) else count p xs

  pub count-append : (p : A → Bool) (xs ys : List A) → count p (xs ++ ys) ≡ count p xs + count p ys
  count-append p [] ys = omega arith
  count-append p (x ∷ xs) ys = ground (arith, count-append p xs ys)

  pub any-append : (p : A → Bool) (xs ys : List A) → any p (xs ++ ys) ≡ (any p xs || any p ys)
  any-append p [] ys = refl
  any-append p (x ∷ xs) ys = ground (arith, any-append p xs ys)

  pub any-eq-count : (p : A → Bool) (xs : List A) → any p xs ≡ true → 0 < count p xs
  any-eq-count p [] h = ground arith
  any-eq-count p (x ∷ xs) h = ground (arith, any-eq-count p xs)

  pub count-zero : (p : A → Bool) (xs : List A) → any p xs ≡ false → count p xs ≡ 0
  count-zero p [] h = refl
  count-zero p (x ∷ xs) h = ground (arith, count-zero p xs)

-- Some item has a property.
module _ {ℓ} {A : Type ℓ} (P : A → Type 0) where
  abbrev pub Any : List A → Type 0
  Any [] = ⊥
  Any (x ∷ xs) = P x ⊎ Any xs

-- Every item has a property.
module _ {ℓ} {A : Type ℓ} (P : A → Type 0) where
  abbrev pub All : List A → Type 0
  All [] = Unit
  All (x ∷ xs) = P x × All xs

module _ {ℓ} {A : Type ℓ} (P Q : A → Type 0) (weaken : (x : A) → P x → Q x) where
  pub All-mono : (xs : List A) → All P xs → All Q xs
  All-mono [] h = tt
  All-mono (x ∷ xs) (p, h) = (weaken x p, All-mono xs h)

  pub Any-mono : (xs : List A) → Any P xs → Any Q xs
  Any-mono [] h = absurd h
  Any-mono (x ∷ xs) (inl p) = inl (weaken x p)
  Any-mono (x ∷ xs) (inr h) = inr (Any-mono xs h)

module _ {ℓ} {A : Type ℓ} (P : A → Type 0) where
  pub Any-append : (xs ys : List A) → Any P xs → Any P (xs ++ ys)
  Any-append [] ys h = absurd h
  Any-append (x ∷ xs) ys (inl p) = inl p
  Any-append (x ∷ xs) ys (inr h) = inr (Any-append xs ys h)

  pub All-append : (xs ys : List A) → All P xs → All P ys → All P (xs ++ ys)
  All-append [] ys h k = k
  All-append (x ∷ xs) ys (p, h) k = (p, All-append xs ys h k)

  module _ (f : A → A) (kept : (x : A) → P x → P (f x)) where
    pub Any-map : (xs : List A) → Any P xs → Any P (map f xs)
    Any-map [] h = absurd h
    Any-map (x ∷ xs) (inl p) = inl (kept x p)
    Any-map (x ∷ xs) (inr h) = inr (Any-map xs h)

    pub All-map : (xs : List A) → All P xs → All P (map f xs)
    All-map [] h = tt
    All-map (x ∷ xs) (p, h) = (kept x p, All-map xs h)

module _ {ℓ} {A : Type ℓ} (p : A → Bool) (P : A → Type 0)
    (agree : (x : A) → (p x ≡ true) ↔ P x) where
  pub any-Any : (xs : List A) → any p xs ≡ true → Any P xs
  any-Any [] h = cc
  any-Any (x ∷ xs) h = elim (Bool-cases (p x)) [
    | inl e ↦ inl ((agree x).0 e)
    | inr e ↦ inr (any-Any xs (rw e at h))
  ]

  pub Any-any : (xs : List A) → Any P xs → any p xs ≡ true
  Any-any [] h = absurd h
  Any-any (x ∷ xs) (inl h) = rw ((agree x).1 h)
  Any-any (x ∷ xs) (inr h) = ground (arith, Any-any xs h)

-- If one item passes a test and some item that passes it has a property, every item that passes has.
module _ {ℓ} {A : Type ℓ} (p : A → Bool) (Q : A → Type 0)
    (passes : (x : A) → Q x → p x ≡ true) where
  none_passes : (xs : List A) → count p xs ≡ 0 → All (λ x. p x ≡ true → Q x) xs
  none_passes [] h = tt
  none_passes (x ∷ xs) h = elim (Bool-cases (p x)) [
    | inl e ↦ absurd (omega (arith, rw e at h))
    | inr e ↦ (λ k. cc, none_passes xs (rw e at h))
  ]

  Any-count : (xs : List A) → Any Q xs → 0 < count p xs
  Any-count [] h = absurd h
  Any-count (x ∷ xs) (inl q) = rw (passes x q) (omega arith)
  Any-count (x ∷ xs) (inr h) = ground (arith, Any-count xs h)

  pub only_passes : (xs : List A) → count p xs ≡ 1 → Any Q xs → All (λ x. p x ≡ true → Q x) xs
  only_passes [] h k = absurd k
  only_passes (x ∷ xs) h (inl q) =
      (λ _. q, none_passes xs (let r = rw (passes x q) at h in omega (arith, r)))
  only_passes (x ∷ xs) h (inr k) = elim (Bool-cases (p x)) [
    | inl e ↦ absurd (let r = rw e at h in omega (arith, r, Any-count xs k))
    | inr e ↦ (λ t. cc, only_passes xs (rw e at h) k)
  ]

-- A search for one item that passes does not depend on the order.
module _ {ℓ} {A : Type ℓ} (p : A → Bool) where
  any-Permᴰ : {xs ys : List A} → Permᴰ xs ys → any p xs ≡ any p ys
  any-Permᴰ Permᴰ.nil = refl
  any-Permᴰ (Permᴰ.cons e q) = rw (e, any-Permᴰ q)
  any-Permᴰ (Permᴰ.swap e f) = rw (e, f) (ground arith)
  any-Permᴰ (Permᴰ.trans q r) = any-Permᴰ q ∙ any-Permᴰ r

  pub any-perm : {xs ys : List A} → Perm xs ys → any p xs ≡ any p ys
  any-perm q = ∥∥₁_elim q (Bool-set _ _) any-Permᴰ

-- A `HashMap<String, V>`: `get`, `contains_key`, `insert` and `remove`.
module _ {ℓ} {V : Type ℓ} where
  abbrev pub lookup : String → List (String × V) → Option V
  lookup k [] = none
  lookup k ((j, v) ∷ m) = if j == k then some v else lookup k m

  abbrev pub remove : String → List (String × V) → List (String × V)
  remove k [] = []
  remove k ((j, v) ∷ m) = let rest = remove k m in if j == k then rest else (j, v) ∷ rest

  abbrev pub insert : String → V → List (String × V) → List (String × V)
  insert k v m = (k, v) ∷ remove k m

  pub lookup-remove :
      (k j : String) (m : List (String × V))
      → lookup j (remove k m) ≡ (if k == j then none else lookup j m)
  lookup-remove k j [] = ground arith
  lookup-remove k j ((i, v) ∷ m) =
      ground (arith, lookup-remove k j m, eq_iff i k, eq_iff i j, eq_iff k j)

  pub lookup-insert :
      (k j : String) (v : V) (m : List (String × V))
      → lookup j (insert k v m) ≡ (if k == j then some v else lookup j m)
  lookup-insert k j v m = ground (arith, lookup-remove k j m)
