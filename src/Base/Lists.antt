-- ===== src/Base/Lists.antt =====
-- Lengths, quantifiers and filters over lists, by recursion, which the tactics read.
use Prim.Native.Nat.{ℕ, suc, ◌≤◌}
use mathlib.Core.Path.{◌≡◌, refl, sym, subst, ap, ◌∙◌}
use mathlib.Core.Logic.{◌⊎◌, inl, inr}
use mathlib.Core.Bool.{Bool, true, false, ◌||◌}
use mathlib.Core.List.{map, List, [], ◌∷◌, Memᴰ}
use native.Mathlib.Omega.{arith}
use orgmetra.Base.Tests.{if◌then◌else◌}

module _ {ℓ} {A : Type ℓ} where
  abbrev pub length : List A → ℕ
  length [] = 0
  length (x ∷ xs) = suc (length xs)

  -- `[x for x in xs if p(x)]`
  unfoldable pub keep_if : (A → Bool) → List A → List A
  keep_if p [] = []
  keep_if p (x ∷ xs) = if p x then x ∷ keep_if p xs else keep_if p xs

  -- `any(p(x) for x in xs)`
  unfoldable pub any_of : (A → Bool) → List A → Bool
  any_of p [] = false
  any_of p (x ∷ xs) = p x || any_of p xs

  -- Where a member of a list stands.
  pub mem-cons_cases : {a x : A} {xs : List A} → Memᴰ a (x ∷ xs) → (a ≡ x) ⊎ Memᴰ a xs
  mem-cons_cases (Memᴰ.head e) = inl e
  mem-cons_cases (Memᴰ.tail m) = inr m

  pub mem-if_cons :
      (b : Bool) (x a : A) (ys : List A)
      → Memᴰ a (if b then x ∷ ys else ys)
      → (a ≡ x) × (b ≡ true) ⊎ Memᴰ a ys
  mem-if_cons true x a ys (Memᴰ.head e) = inl (e, refl)
  mem-if_cons true x a ys (Memᴰ.tail m) = inr m
  mem-if_cons false x a ys m = inr m

  pub if_cons-mem :
      (b : Bool) (x a : A) (ys : List A)
      → (a ≡ x) × (b ≡ true) ⊎ Memᴰ a ys
      → Memᴰ a (if b then x ∷ ys else ys)
  if_cons-mem true x a ys (inl h) = Memᴰ.head h.0
  if_cons-mem true x a ys (inr m) = Memᴰ.tail m
  if_cons-mem false x a ys (inl h) = cc
  if_cons-mem false x a ys (inr m) = m

  pub mem-keep_if :
      (p : A → Bool) (xs : List A) {a : A} → Memᴰ a xs → p a ≡ true → Memᴰ a (keep_if p xs)
  unfolding keep_if
  mem-keep_if p [] m h = elim m [ ]
  mem-keep_if p (x ∷ xs) {a} m h = if_cons-mem (p x) x a _ (elim (mem-cons_cases m) [
    | inl e ↦ inl (e, ap p (sym e) ∙ h)
    | inr n ↦ inr (mem-keep_if p xs n h)
  ])

  pub mem_of_mem-keep_if :
      (p : A → Bool) (xs : List A) {a : A} → Memᴰ a (keep_if p xs) → Memᴰ a xs × (p a ≡ true)
  unfolding keep_if
  mem_of_mem-keep_if p [] m = elim m [ ]
  mem_of_mem-keep_if p (x ∷ xs) {a} m = elim (mem-if_cons (p x) x a _ m) [
    | inl h ↦ (Memᴰ.head h.0, ap p h.0 ∙ h.1)
    | inr n ↦ let r = mem_of_mem-keep_if p xs n in (Memᴰ.tail r.0, r.1)
  ]

  pub length-keep_if-le : (p : A → Bool) (xs : List A) → length (keep_if p xs) ≤ length xs
  unfolding keep_if
  length-keep_if-le p [] = omega arith
  length-keep_if-le p (x ∷ xs) = ground (arith, length-keep_if-le p xs)

  pub any_of-mem :
      (p : A → Bool) (xs : List A) {a : A} → Memᴰ a xs → p a ≡ true → any_of p xs ≡ true
  unfolding any_of
  any_of-mem p [] m h = elim m [ ]
  any_of-mem p (x ∷ xs) (Memᴰ.head e) h = ground (arith, ap p e)
  any_of-mem p (x ∷ xs) (Memᴰ.tail m) h = ground (arith, any_of-mem p xs m h)

  pub mem_of_any_of :
      (p : A → Bool) (xs : List A) → any_of p xs ≡ true → (a : A) × Memᴰ a xs × (p a ≡ true)
  unfolding any_of
  mem_of_any_of p [] h = cc
  mem_of_any_of p (x ∷ xs) h = elim (or_true (p x) (any_of p xs) h) [
    | inl e ↦ (x, Memᴰ.head refl, e)
    | inr e ↦ let r = mem_of_any_of p xs e in (r.0, Memᴰ.tail r.1, r.2)
  ]
    where
      or_true : (b c : Bool) → (b || c) ≡ true → (b ≡ true) ⊎ (c ≡ true)
      or_true true c h = inl refl
      or_true false c h = inr h

module _ {ℓ κ} {A : Type ℓ} where
  abbrev pub All : (A → Type κ) → List A → Type κ
  All P [] = Unit
  All P (x ∷ xs) = P x × All P xs

  pub All-mem : (P : A → Type κ) (xs : List A) {a : A} → All P xs → Memᴰ a xs → P a
  All-mem P [] h m = elim m [ ]
  All-mem P (x ∷ xs) h (Memᴰ.head e) = subst P (sym e) h.0
  All-mem P (x ∷ xs) h (Memᴰ.tail m) = All-mem P xs h.1 m

  pub All-of_mem : (P : A → Type κ) (xs : List A) → ((a : A) → Memᴰ a xs → P a) → All P xs
  All-of_mem P [] h = tt
  All-of_mem P (x ∷ xs) h = (h x (Memᴰ.head refl), All-of_mem P xs (λ a m. h a (Memᴰ.tail m)))

-- Members of a mapped list.
pub mem-map_cases {ℓ κ} :
    {A : Type ℓ} {B : Type κ} (f : A → B) (xs : List A) {b : B}
    → Memᴰ b (map f xs)
    → (a : A) × Memᴰ a xs × (b ≡ f a)
mem-map_cases f [] m = elim m [ ]
mem-map_cases f (x ∷ xs) (Memᴰ.head e) = (x, Memᴰ.head refl, e)
mem-map_cases f (x ∷ xs) (Memᴰ.tail m) = let r = mem-map_cases f xs m in (r.0, Memᴰ.tail r.1, r.2)

pub map-mem {ℓ κ} :
    {A : Type ℓ} {B : Type κ} (f : A → B) (xs : List A) {a : A} → Memᴰ a xs → Memᴰ (f a) (map f xs)
map-mem f [] m = elim m [ ]
map-mem f (x ∷ xs) (Memᴰ.head e) = Memᴰ.head (ap f e)
map-mem f (x ∷ xs) (Memᴰ.tail m) = Memᴰ.tail (map-mem f xs m)

pub length-map {ℓ κ} :
    {A : Type ℓ} {B : Type κ} (f : A → B) (xs : List A) → length (map f xs) ≡ length xs
length-map f [] = refl
length-map f (x ∷ xs) = ap suc (length-map f xs)
