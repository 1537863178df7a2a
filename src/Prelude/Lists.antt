-- ===== src/Prelude/Lists.antt =====
-- Lists measured and indexed by native numbers, and the tests on lists that the program uses.
use Prim.Native.Nat.{ℕ, zero, suc, ◌+◌}
use mathlib.Core.Path.{◌≡◌, refl, ap}
use mathlib.Core.Logic.{◌⊎◌, inl, inr}
use mathlib.Core.Bool.{Bool, true, false, ◌&&◌, ◌||◌}
use mathlib.Core.List.{List, [], ◌∷◌, ◌++◌, map}
use mathlib.Core.Option.{Option, none, some}
use native.Mathlib.Omega.{arith}
use rintel_core.Prelude.Tests.{Eq, ◌==◌, if◌then◌else◌, Bool-cases, Option-cases}

module _ {ℓ} {A : Type ℓ} where
  abbrev pub length : List A → ℕ
  length [] = 0
  length (x ∷ xs) = suc (length xs)

  abbrev pub get_elem? : List A → ℕ → Option A
  get_elem? [] i = none
  get_elem? (x ∷ xs) zero = some x
  get_elem? (x ∷ xs) (suc i) = get_elem? xs i

  abbrev pub replicate : ℕ → A → List A
  replicate zero a = []
  replicate (suc n) a = a ∷ replicate n a

  -- `any(p(x) for x in xs)` and `all(...)`
  abbrev pub any : (A → Bool) → List A → Bool
  any p [] = false
  any p (x ∷ xs) = p x || any p xs

  abbrev pub all : (A → Bool) → List A → Bool
  all p [] = true
  all p (x ∷ xs) = p x && all p xs

  -- A predicate that holds of every entry, as a tuple.
  abbrev pub All {κ} : (A → Type κ) → List A → Type κ
  All P [] = Unit
  All P (x ∷ xs) = P x × All P xs

  pub length-append : (xs ys : List A) → length (xs ++ ys) ≡ length xs + length ys
  length-append [] ys = omega arith
  length-append (x ∷ xs) ys = omega (arith, length-append xs ys)

pub some-inj {ℓ} : {A : Type ℓ} {a b : A} → (let o : Option A = some a in o ≡ some b) → a ≡ b
some-inj e = cc

pub none-some {ℓ} : {A : Type ℓ} {a : A} → (let o : Option A = none in o ≡ some a) → ⊥
none-some e = cc

-- `a in xs`, with the place where it stands
abbrev pub In : {A : Type 0} → A → List A → Type 0
In a [] = ⊥
In a (x ∷ xs) = (x ≡ a) ⊎ In a xs

module _ {A : Type 0} ⦃e : Eq A⦄ where
  -- `a in xs`
  abbrev pub contains : A → List A → Bool
  contains a [] = false
  contains a (x ∷ xs) = x == a || contains a xs

  pub contains-In : (a : A) (xs : List A) → contains a xs ≡ true → In a xs
  contains-In a [] h = cc
  contains-In a (x ∷ xs) h = ground (arith, e.same_iff x a, contains-In a xs)

  pub In-contains : (a : A) (xs : List A) → In a xs → contains a xs ≡ true
  In-contains a [] h = absurd h
  In-contains a (x ∷ xs) h = ground (arith, e.same_iff x a, In-contains a xs)

module _ {A : Type 0} where
  pub all-In : (p : A → Bool) (xs : List A) {a : A} → all p xs ≡ true → In a xs → p a ≡ true
  all-In p [] h m = absurd m
  all-In p (x ∷ xs) h (inl e) = rw (← e) (ground (arith, h))
  all-In p (x ∷ xs) h (inr m) = all-In p xs (ground (arith, h)) m

module _ {A : Type 0} where
  pub All-append : (P : A → Type 0) (xs ys : List A) → All P xs → All P ys → All P (xs ++ ys)
  All-append P [] ys h k = k
  All-append P (x ∷ xs) ys h k = (h.0, All-append P xs ys h.1 k)

  pub any-All : (p : A → Bool) (xs : List A) → any p xs ≡ false → All (λ x. p x ≡ false) xs
  any-All p [] h = tt
  any-All p (x ∷ xs) h = (ground (arith, h), any-All p xs (ground (arith, h)))

  pub all-All : (p : A → Bool) (xs : List A) → all p xs ≡ true → All (λ x. p x ≡ true) xs
  all-All p [] h = tt
  all-All p (x ∷ xs) h = (ground (arith, h), all-All p xs (ground (arith, h)))

  pub All-map : (P Q : A → Type 0) (xs : List A) → ((x : A) → P x → Q x) → All P xs → All Q xs
  All-map P Q [] f h = tt
  All-map P Q (x ∷ xs) f h = (f x h.0, All-map P Q xs f h.1)

module _ {A : Type 0} where
  -- `[x for x in xs if p(x)]`
  abbrev pub keep : (A → Bool) → List A → List A
  keep p [] = []
  keep p (x ∷ xs) = let rest = keep p xs in if p x then x ∷ rest else rest

  -- `next((x for x in xs if p(x)), None)`
  abbrev pub find_first : (A → Bool) → List A → Option A
  find_first p [] = none
  find_first p (x ∷ xs) = let rest = find_first p xs in if p x then some x else rest

  -- what a dictionary filled from `xs` holds at the key for which `p` tests
  abbrev pub find_last : (A → Bool) → List A → Option A
  find_last p [] = none
  find_last p (x ∷ xs) = elim (find_last p xs) [
    | some y ↦ some y
    | none ↦ if p x then some x else none
  ]

  abbrev pub is_nil : List A → Bool
  is_nil [] = true
  is_nil (x ∷ xs) = false

  abbrev pub last : List A → Option A
  last [] = none
  last (x ∷ []) = some x
  last (x ∷ y ∷ xs) = last (y ∷ xs)

  pub In-keep : (p : A → Bool) (xs : List A) {a : A} → In a (keep p xs) → In a xs × (p a ≡ true)
  In-keep p [] m = absurd m
  In-keep p (x ∷ xs) {a} m = elim (Bool-cases (p x)) [
    | inl q ↦ elim (rw q at m) [
      | inl e ↦ (inl e, rw (← e) q)
      | inr n ↦ let both = In-keep p xs {a = a} n in (inr both.0, both.1)
    ]
    | inr q ↦ let both = In-keep p xs {a = a} (rw q at m) in (inr both.0, both.1)
  ]

  pub keep-In : (p : A → Bool) (xs : List A) {a : A} → In a xs → p a ≡ true → In a (keep p xs)
  keep-In p [] m h = absurd m
  keep-In p (x ∷ xs) {a} (inl e) h = let q : p x ≡ true = rw e h in rw q (inl e)
  keep-In p (x ∷ xs) {a} (inr m) h = elim (Bool-cases (p x)) [
    | inl q ↦ rw q (inr (keep-In p xs {a = a} m h))
    | inr q ↦ rw q (keep-In p xs {a = a} m h)
  ]

  pub find_last-holds : (p : A → Bool) (xs : List A) {y : A} → find_last p xs ≡ some y → p y ≡ true
  find_last-holds p [] h = absurd cc
  find_last-holds p (x ∷ xs) h = elim (Option-cases (find_last p xs)) [
    | inl q ↦ elim (Bool-cases (p x)) [
      | inl t ↦ let e : x ≡ _ = some-inj (rw (q, t) at h) in rw (← e) t
      | inr f ↦ absurd (none-some (rw (q, f) at h))
    ]
    | inr (y, q) ↦ let e : y ≡ _ = some-inj (rw q at h) in rw (← e) (find_last-holds p xs q)
  ]

  pub is_nil-In : (xs : List A) (a : A) → is_nil xs ≡ true → In a xs → ⊥
  is_nil-In [] a h m = m
  is_nil-In (x ∷ xs) a h m = absurd cc

pub In-map :
    {A B : Type 0} (f : A → B) (xs : List A) {b : B}
    → In b (map f xs)
    → (a : A) × In a xs × (f a ≡ b)
In-map f [] m = absurd m
In-map f (x ∷ xs) (inl e) = (x, inl refl, e)
In-map f (x ∷ xs) (inr m) = let (a, n, e) = In-map f xs m in (a, inr n, e)

pub map-In : {A B : Type 0} (f : A → B) (xs : List A) (a : A) → In a xs → In (f a) (map f xs)
map-In f [] a m = absurd m
map-In f (x ∷ xs) a (inl e) = inl (ap f e)
map-In f (x ∷ xs) a (inr m) = inr (map-In f xs a m)
