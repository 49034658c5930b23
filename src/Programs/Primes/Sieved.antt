-- ===== src/Programs/Primes/Sieved.antt =====
-- What the sieve of primes.c prints.
use native.Mathlib.Nat.{mul_assoc, mod-add-div, mul-mod_right}
use learning_mits.Base.{
  ℕ, zero, suc, ◌+◌, ◌*◌, ◌/◌, ◌%◌, ◌≤◌, ◌<◌, ◌≡◌, refl, sym, ap, ◌∙◌, ◌≢◌, ◌↔◌, inl, inr, true,
  some, List, [], ◌∷◌, arith, ◌==◌, Bool-cases, ==→eq, eq→==, length, has, Ascending, has-cons,
  has_tail,
}
use learning_mits.Programs.Primes.{filter_multiples, printed_before, sieve, numbers}

abbrev pub IsPrime : ℕ → Type 0
IsPrime x = (2 ≤ x) × ((d : ℕ) → 2 ≤ d → d < x → x % d ≢ 0)

mod_trans : (x y p : ℕ) → y % p ≡ 0 → x % y ≡ 0 → x % p ≡ 0
mod_trans x y p hy hx = ap (λ z. z % p) split ∙ mul-mod_right p (y / p * (x / y))
  where
    y_split : y ≡ p * (y / p)
    y_split = sym (mod-add-div y p) ∙ ap (λ z. z + p * (y / p)) hy ∙ omega arith

    x_split : x ≡ y * (x / y)
    x_split = sym (mod-add-div x y) ∙ ap (λ z. z + y * (x / y)) hx ∙ omega arith

    split : x ≡ p * (y / p * (x / y))
    split = x_split ∙ ap (λ z. z * (x / y)) y_split ∙ mul_assoc p (y / p) (x / y)

-- What passes the loop: the numbers that are no multiples.
has-filter :
    (p : ℕ) (xs : List ℕ) (a : ℕ)
    → has a (filter_multiples p xs) ≡ true
    → (has a xs ≡ true) × (a % p ≢ 0)
unfolding filter_multiples
has-filter p [] a h = ground (arith, h)
has-filter p (x ∷ xs) a h = ground (arith, h, has-filter p xs a)

filter-has :
    (p : ℕ) (xs : List ℕ) (a : ℕ)
    → has a xs ≡ true
    → a % p ≢ 0
    → has a (filter_multiples p xs) ≡ true
unfolding filter_multiples
filter-has p [] a h n = ground (arith, h)
filter-has p (x ∷ xs) a h n = ground (arith, h, n, filter-has p xs a)

length-filter : (p : ℕ) (xs : List ℕ) → length (filter_multiples p xs) ≤ length xs
unfolding filter_multiples
length-filter p [] = omega arith
length-filter p (x ∷ xs) = ground (arith, length-filter p xs)

Ascending-filter : (p : ℕ) (xs : List ℕ) → Ascending xs → Ascending (filter_multiples p xs)
unfolding filter_multiples
Ascending-filter p [] up = tt
Ascending-filter p (x ∷ xs) (lo, up) = elim (Bool-cases (x % p == 0)) [
  | inl e ↦ rw e (Ascending-filter p xs up)
  | inr e ↦ rw e ((λ y i. lo y (has-filter p xs y i).0), Ascending-filter p xs up)
]

-- No smaller number of the list divides x.
abbrev Undivided : List ℕ → ℕ → Type 0
Undivided xs x = (y : ℕ) → has y xs ≡ true → y < x → x % y ≢ 0

-- The printed numbers: those of the list that no smaller one of the list divides.
record Sieved (xs out : List ℕ) : Type 0 where
  ascending : Ascending out
  of_list : (x : ℕ) → has x out ≡ true → has x xs ≡ true
  undivided : (x : ℕ) → has x out ≡ true → Undivided xs x
  all : (x : ℕ) → has x xs ≡ true → Undivided xs x → has x out ≡ true

Sieved-cons :
    (p : ℕ) (xs out : List ℕ)
    → Ascending (p ∷ xs)
    → Sieved (filter_multiples p xs) out
    → Sieved (p ∷ xs) (p ∷ out)
Sieved-cons p xs out (lo, up) s = record {
  ascending = ((λ y i. lo y (passed y (s.of_list y i)).0), s.ascending);
  of_list = λ x i. elim (has-cons x p out i) [
    | inl e ↦ ground (arith, e)
    | inr i' ↦ has_tail x p xs (passed x (s.of_list x i')).0
  ];
  undivided = λ x i y j less z. elim (has-cons x p out i) [
    | inl e ↦ elim (has-cons y p xs j) [ inl e' ↦ omega arith | inr j' ↦ omega (arith, lo y j') ]
    | inr i' ↦ elim (has-cons y p xs j) [
      | inl e' ↦ (passed x (s.of_list x i')).1 (cc (e', z))
      | inr j' ↦ elim (Bool-cases (y % p == 0)) [
        | inl m ↦ (passed x (s.of_list x i')).1 (mod_trans x y p (==→eq _ _ m) z)
        | inr m ↦ s.undivided x i' y (filter-has p xs y j' (λ e. cc (eq→== _ 0 e, m))) less z
      ]
    ]
  ];
  all = λ x i free. elim (has-cons x p xs i) [
    | inl e ↦ ground (arith, e)
    | inr i' ↦ has_tail x p out (
        s.all x (filter-has p xs x i' (free p (ground arith) (lo x i')))
          (λ y j less. free y (has_tail y p xs (passed y j).0) less))
  ];
}
  where
    passed : (y : ℕ) → has y (filter_multiples p xs) ≡ true → (has y xs ≡ true) × (y % p ≢ 0)
    passed y i = has-filter p xs y i

sieve-Sieved :
    (f : ℕ) (xs : List ℕ)
    → length xs < f
    → Ascending xs
    → (out : List ℕ) × (sieve f xs ≡ some out) × Sieved xs out
unfolding sieve
sieve-Sieved zero xs short up = absurd (omega arith)
sieve-Sieved (suc f) [] short up = (
  [],
  refl,
  record {
    ascending = tt;
    of_list = λ x i. i;
    undivided = λ x i. ground (arith, i);
    all = λ x i _. i;
  },
)
sieve-Sieved (suc f) (p ∷ xs) short (lo, up) =
    let (out, e, s) =
      sieve-Sieved f (filter_multiples p xs) (omega (arith, length-filter p xs))
        (Ascending-filter p xs up) in
    (p ∷ out, ap (printed_before p) e, Sieved-cons p xs out (lo, up) s)

-- The numbers that main writes.
has-numbers :
    (count num x : ℕ) → (has x (numbers count num) ≡ true) ↔ ((num ≤ x) × (x < num + count))
unfolding numbers
has-numbers zero num x = ((λ h. ground (arith, h)), (λ h. ground (arith, h)))
has-numbers (suc count) num x = (
  (λ h. ground (arith, h, has-numbers count (num + 1) x)),
  (λ (lo, hi). ground (arith, lo, hi, has-numbers count (num + 1) x)),
)

Ascending-numbers : (count num : ℕ) → Ascending (numbers count num)
unfolding numbers
Ascending-numbers zero num = tt
Ascending-numbers (suc count) num =
    ((λ y i. omega (arith, (has-numbers count (num + 1) y).0 i)), Ascending-numbers count (num + 1))

length-numbers : (count num : ℕ) → length (numbers count num) ≡ count
unfolding numbers
length-numbers zero num = refl
length-numbers (suc count) num = omega (arith, length-numbers count (num + 1))

-- For `count` numbers from 2 on and a chain of up to `f` processes, `f` above `count`, the sieve
-- ends, and what it prints is, in ascending order, exactly the primes among them.
pub sieve-IsPrime :
    (f count : ℕ)
    → count < f
    → (out : List ℕ) × (sieve f (numbers count 2) ≡ some out)
      × Ascending out
      × ((x : ℕ) → (has x out ≡ true) ↔ ((x < 2 + count) × IsPrime x))
sieve-IsPrime f count enough =
    let (out, e, s) =
      sieve-Sieved f (numbers count 2) (omega (arith, length-numbers count 2))
        (Ascending-numbers count 2) in
    (
      out,
      e,
      s.ascending,
      λ x. (
        (λ i.
            let (lo, hi) = (has-numbers count 2 x).0 (s.of_list x i) in
            (
              hi,
              (
                lo,
                λ d dlo less. s.undivided x i d ((has-numbers count 2 d).1 (dlo, omega arith)) less,
              ),
            )),
        (λ (hi, (lo, prime)).
            s.all x ((has-numbers count 2 x).1 (lo, hi))
              (λ y j less. prime y ((has-numbers count 2 y).0 j).0 less)),
      ),
    )
