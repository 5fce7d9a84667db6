-- ===== src/Base/Results.antt =====
-- Results of code that may raise, with their monad.
use mathlib.Core.Path.{sym, ◌≡◌, refl, ap, ◌∙◌}
use mathlib.Core.Logic.{◌⊎◌, inl, inr}
use mathlib.Core.Bool.{Bool, true, false}
use mathlib.Core.List.{List, [], ◌∷◌, Memᴰ}
use orgmetra.Base.Tests.{Bool-cases, if◌then◌else◌}
use orgmetra.Base.Lists.{keep_if, mem-cons_cases, if_cons-mem, mem-if_cons}

pub data Result {ℓ κ} (E : Type ℓ) (A : Type κ) : Type (ℓ ⊔ κ) where
  ok : A → Result E A
  err : E → Result E A

-- `if not test: raise e`
abbrev pub guard {ℓ} : {E : Type ℓ} → Bool → E → Result E (Unit {0})
guard test e = if test then ok tt else err e

infixl 5 ◌>>=◌ ◌>>◌
abbrev pub ◌>>=◌ {ℓ κ μ} :
    {E : Type ℓ} {A : Type κ} {B : Type μ} → Result E A → (A → Result E B) → Result E B
ok x >>= next = next x
err raised >>= next = err raised

abbrev pub ◌>>◌ {ℓ κ} : {E : Type ℓ} {B : Type κ} → Result E (Unit {0}) → Result E B → Result E B
first >> second = first >>= λ done. second

pub ok_kept {ℓ κ} : {E : Type ℓ} {A : Type κ} {a b : A} → ◌≡◌ {A = Result E A} (ok a) (ok b) → b ≡ a
ok_kept h = cc

-- A chain that returns has a first step that returns.
pub >>=-eq-ok {ℓ κ μ} :
    {E : Type ℓ} {A : Type κ} {B : Type μ} (first : Result E A) (next : A → Result E B) {y : B}
    → (first >>= next) ≡ ok y
    → (x : A) × (first ≡ ok x) × (next x ≡ ok y)
>>=-eq-ok (err raised) next returned = cc
>>=-eq-ok (ok x) next returned = (x, refl, returned)

-- The same, for a chain of several steps: what follows sees variables.
pub >>=-ok_elim {ℓ κ μ ν} :
    {E : Type ℓ} {A : Type κ} {B : Type μ} {P : Type ν} (first : Result E A) {next : A → Result E B}
    {y : B}
    → (first >>= next) ≡ ok y
    → ((x : A) → first ≡ ok x → next x ≡ ok y → P)
    → P
>>=-ok_elim (ok x) returned k = k x refl returned
>>=-ok_elim (err raised) returned k = cc

pub >>=-ok {ℓ κ} : {E : Type ℓ} {A : Type κ} (m : Result E A) → (m >>= λ a. ok a) ≡ m
>>=-ok (ok a) = refl
>>=-ok (err e) = refl

pub Result-cases {ℓ κ} :
    {E : Type ℓ} {A : Type κ} (m : Result E A) → ((a : A) × (m ≡ ok a)) ⊎ ((e : E) × (m ≡ err e))
Result-cases (ok a) = inl (a, refl)
Result-cases (err e) = inr (e, refl)

pub guard-eq-ok {ℓ} : {E : Type ℓ} (b : Bool) (e : E) → guard b e ≡ ok tt → b ≡ true
guard-eq-ok true e h = refl
guard-eq-ok false e h = cc

module _ {ℓ κ} {E : Type ℓ} {A : Type κ} where
  -- `[x for x in xs if p(x)]` where the test may raise: the first error ends the comprehension.
  unfoldable pub select : (A → Result E Bool) → List A → Result E (List A)
  select p [] = ok []
  select p (x ∷ xs) = do keep ← p x; rest ← select p xs; ok (if keep then x ∷ rest else rest)

  -- `for x in xs: f(x)` where the body only raises.
  unfoldable pub for_each : (A → Result E (Unit {0})) → List A → Result E (Unit {0})
  for_each f [] = ok tt
  for_each f (x ∷ xs) = f x >> for_each f xs

  pub select-cons-ok :
      (p : A → Result E Bool) (x : A) (xs ys : List A)
      → select p (x ∷ xs) ≡ ok ys
      → (keep : Bool) × (rest : List A) × (p x ≡ ok keep)
        × (select p xs ≡ ok rest)
        × (ys ≡ (if keep then x ∷ rest else rest))
  unfolding select
  select-cons-ok p x xs ys h =
      let (keep, e, h') = >>=-eq-ok (p x) _ h in
      let (rest, e', h'') = >>=-eq-ok (select p xs) _ h' in (keep, rest, e, e', cc)

  -- What the comprehension keeps: exactly the members whose test says true.
  pub mem-select :
      (p : A → Result E Bool) (xs ys : List A) {a : A}
      → select p xs ≡ ok ys
      → Memᴰ a xs
      → p a ≡ ok true
      → Memᴰ a ys
  mem-select p [] ys h m t = elim m [ ]
  mem-select p (x ∷ xs) ys {a} h m t =
      let (keep, rest, e, e', q) = select-cons-ok p x xs ys h in
      rw q (
        if_cons-mem keep x a rest (elim (mem-cons_cases m) [
          | inl here ↦ inl (here, cc (ap p here))
          | inr n ↦ inr (mem-select p xs rest e' n t)
        ]))

  pub mem_of_mem-select :
      (p : A → Result E Bool) (xs ys : List A) {a : A}
      → select p xs ≡ ok ys
      → Memᴰ a ys
      → Memᴰ a xs × (p a ≡ ok true)
  unfolding select
  mem_of_mem-select p [] [] h m = elim m [ ]
  mem_of_mem-select p [] (y ∷ ys) h m = cc
  mem_of_mem-select p (x ∷ xs) ys {a} h m =
      let (keep, rest, e, e', q) = select-cons-ok p x xs ys h in
      elim (mem-if_cons keep x a rest (rw q at m)) [
        | inl here ↦ (Memᴰ.head here.0, cc (ap p here.0))
        | inr n ↦ let r = mem_of_mem-select p xs rest e' n in (Memᴰ.tail r.0, r.1)
      ]

  -- A comprehension returns if its test returns at each element.
  pub select_total :
      (p : A → Result E Bool) (xs : List A)
      → ((a : A) → Memᴰ a xs → (b : Bool) × (p a ≡ ok b))
      → (ys : List A) × (select p xs ≡ ok ys)
  unfolding select
  select_total p [] h = ([], refl)
  select_total p (x ∷ xs) h =
      let (b, e) = h x (Memᴰ.head refl) in
      let (rest, e') = select_total p xs (λ a m. h a (Memᴰ.tail m)) in
      (if b then x ∷ rest else rest, rw e (rw e'))

  pub for_each-mem :
      (f : A → Result E (Unit {0})) (xs : List A) {a : A}
      → for_each f xs ≡ ok tt
      → Memᴰ a xs
      → f a ≡ ok tt
  unfolding for_each
  for_each-mem f [] h m = elim m [ ]
  for_each-mem f (x ∷ xs) h m =
      let (u, e, h') = >>=-eq-ok (f x) _ h in
      elim (mem-cons_cases m) [ inl here ↦ ap f here ∙ e | inr n ↦ for_each-mem f xs h' n ]

  pub for_each_of_mem :
      (f : A → Result E (Unit {0})) (xs : List A)
      → ((a : A) → Memᴰ a xs → f a ≡ ok tt)
      → for_each f xs ≡ ok tt
  unfolding for_each
  for_each_of_mem f [] h = refl
  for_each_of_mem f (x ∷ xs) h =
      rw (h x (Memᴰ.head refl)) (for_each_of_mem f xs (λ a m. h a (Memᴰ.tail m)))

module _ {ℓ κ} {E : Type ℓ} {A : Type κ} where
  -- `for index, left in enumerate(xs): for right in xs[index + 1:]: f(left, right)`
  unfoldable pub for_pairs : (A → A → Result E (Unit {0})) → List A → Result E (Unit {0})
  for_pairs f [] = ok tt
  for_pairs f (x ∷ xs) = for_each (f x) xs >> for_pairs f xs

  -- Two members are one, or the body returned on them in the order in which they stand.
  pub for_pairs-mem :
      (f : A → A → Result E (Unit {0})) (xs : List A) {a b : A}
      → for_pairs f xs ≡ ok tt
      → Memᴰ a xs
      → Memᴰ b xs
      → (a ≡ b) ⊎ (f a b ≡ ok tt) ⊎ (f b a ≡ ok tt)
  unfolding for_pairs
  for_pairs-mem f [] h m n = elim m [ ]
  for_pairs-mem f (x ∷ xs) {a} {b} h m n =
      let (u, e, h') = >>=-eq-ok (for_each (f x) xs) _ h in
      elim (mem-cons_cases m) [
        | inl here ↦ elim (mem-cons_cases n) [
          | inl here' ↦ inl (here ∙ sym here')
          | inr n' ↦ inr (inl (rw here (for_each-mem (f x) xs e n')))
        ]
        | inr m' ↦ elim (mem-cons_cases n) [
          | inl here' ↦ inr (inr (rw here' (for_each-mem (f x) xs e m')))
          | inr n' ↦ for_pairs-mem f xs h' m' n'
        ]
      ]

  pub for_pairs_of_mem :
      (f : A → A → Result E (Unit {0})) (xs : List A)
      → ((a b : A) → Memᴰ a xs → Memᴰ b xs → f a b ≡ ok tt)
      → for_pairs f xs ≡ ok tt
  unfolding for_pairs
  for_pairs_of_mem f [] h = refl
  for_pairs_of_mem f (x ∷ xs) h =
      rw (for_each_of_mem (f x) xs (λ b m. h x b (Memᴰ.head refl) (Memᴰ.tail m)))
        (for_pairs_of_mem f xs (λ a b m n. h a b (Memᴰ.tail m) (Memᴰ.tail n)))

  -- Elements on which the test says false can be dropped first.
  pub select-keep_if :
      (q : A → Bool) (p : A → Result E Bool) (xs : List A)
      → ((a : A) → q a ≡ false → p a ≡ ok false)
      → select p (keep_if q xs) ≡ select p xs
  unfolding select keep_if
  select-keep_if q p [] h = refl
  select-keep_if q p (x ∷ xs) h = elim (Bool-cases (q x)) [
    | inl e ↦ rw e (rw (select-keep_if q p xs h))
    | inr e ↦ rw e (rw (h x e) (rw (select-keep_if q p xs h) (sym (>>=-ok (select p xs)))))
  ]
