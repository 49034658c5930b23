-- ===== src/Printf/Digits.antt =====
-- printint: what is printed reads back as the number, and fits `buf`.
use learning_mits.Base.{
  ℕ, zero, suc, ◌+◌, ◌-◌, ◌*◌, ◌/◌, ◌%◌, ◌^◌, ◌≤◌, ◌<◌, ◌≡◌, refl, sym, ap, ◌∙◌, ◌&&◌, append-nil,
  inl, inr, Bool, true, List, [], ◌∷◌, ◌++◌, arith, ◌==◌, ltb, leb, Bool-cases, ==→eq, eq→==,
  if◌then◌else◌, length, length-append,
}
use native.Mathlib.Nat.{pow-suc}
use learning_mits.Printf.{digit, digits_loop, is_negative, printint_buf}

-- The value of a digit's character.
unfoldable pub digit_value : ℕ → ℕ
digit_value c = if ltb c b'a' then c - b'0' else c - b'a' + 10

digit_value-digit : (d : ℕ) → d < 16 → digit_value (digit d) ≡ d
unfolding digit_value
digit_value-digit d h = ground arith

-- The number whose digits these characters are, the lowest first.
unfoldable pub value : ℕ → List ℕ → ℕ
unfolding digit_value
value base [] = 0
value base (c ∷ cs) = digit_value c + base * value base cs

-- The two bases that printf asks for.
pub data IsBase : ℕ → Type 0 where
  ten : IsBase 10
  sixteen : IsBase 16

digits-value_step :
    {base : ℕ} (x : ℕ)
    → IsBase base
    → (digit_value (digit (x % base)) + base * (x / base) ≡ x) × (x / base * 2 ≤ x)
digits-value_step x ten = omega (arith, digit_value-digit (x % 10) (omega arith))
digits-value_step x sixteen = omega (arith, digit_value-digit (x % 16) (omega arith))

value-digits_loop :
    {base : ℕ} (f x : ℕ) → IsBase base → x < 2 ^ f → value base (digits_loop f base x) ≡ x
unfolding value digits_loop
value-digits_loop zero x b h = omega arith
value-digits_loop {base} (suc f) x b h = elim (Bool-cases (x / base == 0)) [
  | inl z ↦ rw z (
      ap (λ q. digit_value (digit (x % base)) + base * q) (sym (==→eq (x / base) 0 z))
      ∙ (digits-value_step x b).0)
  | inr nz ↦ rw nz (rw (value-digits_loop f (x / base) b smaller) (digits-value_step x b).0)
]
  where
    smaller : x / base < 2 ^ f
    smaller = omega (arith, (digits-value_step x b).1, pow-suc 2 f)

-- No more digits than the power of the base that bounds the number.
length-digits_ten : (n f x : ℕ) → x < 10 ^ suc n → length (digits_loop f 10 x) ≤ suc n
unfolding digits_loop
length-digits_ten n zero x h = omega arith
length-digits_ten zero (suc f) x h = rw (eq→== (x / 10) 0 (omega arith)) (omega arith)
length-digits_ten (suc n) (suc f) x h = elim (Bool-cases (x / 10 == 0)) [
  | inl z ↦ rw z (omega arith)
  | inr nz ↦
      rw nz (omega (arith, length-digits_ten n f (x / 10) (omega (arith, pow-suc 10 (suc n)))))
]

length-digits_sixteen : (n f x : ℕ) → x < 16 ^ suc n → length (digits_loop f 16 x) ≤ suc n
unfolding digits_loop
length-digits_sixteen n zero x h = omega arith
length-digits_sixteen zero (suc f) x h = rw (eq→== (x / 16) 0 (omega arith)) (omega arith)
length-digits_sixteen (suc n) (suc f) x h = elim (Bool-cases (x / 16 == 0)) [
  | inl z ↦ rw z (omega arith)
  | inr nz ↦
      rw nz (omega (arith, length-digits_sixteen n f (x / 16) (omega (arith, pow-suc 16 (suc n)))))
]

length-digits : {base : ℕ} (x : ℕ) → IsBase base → x < 2 ^ 32 → length (digits_loop 32 base x) ≤ 10
length-digits x ten h = length-digits_ten 9 32 x (omega arith)
length-digits x sixteen h = omega (arith, length-digits_sixteen 7 32 x (omega arith))

-- For an int in base 10 or 16, the characters in `buf` are the digits of its absolute value, lowest
-- first, with a '-' behind them exactly if it is printed as signed and is negative; read back they
-- give that value; and at most 11 of the 16 places are used.
pub printint_reads_back :
    {base : ℕ} (xx : ℕ) (sign : Bool)
    → IsBase base
    → xx < 2 ^ 32
    → (ds : List ℕ) × (printint_buf xx base sign
        ≡ ds ++ (if sign && is_negative xx then b'-' ∷ [] else []))
      × (value base ds ≡ (if sign && is_negative xx then 2 ^ 32 - xx else xx))
      × (length (printint_buf xx base sign) ≤ 11)
unfolding printint_buf is_negative
printint_reads_back {base} xx sign b h = elim (Bool-cases (sign && leb (2 ^ 31) xx)) [
  | inl neg ↦ rw neg (
    digits_loop 32 base ((2 ^ 32 - xx) % 2 ^ 32),
    refl,
    value-digits_loop 32 _ b (omega arith) ∙ small (big sign neg),
    omega (
      arith,
      length-append (digits_loop 32 base ((2 ^ 32 - xx) % 2 ^ 32)) (b'-' ∷ []),
      length-digits ((2 ^ 32 - xx) % 2 ^ 32) b (omega arith),
    ),
  )
  | inr pos ↦ rw pos (
    digits_loop 32 base xx,
    sym (append-nil _),
    value-digits_loop 32 xx b h,
    omega (arith, length-digits xx b h),
  )
]
  where
    big : (s : Bool) → (s && leb (2 ^ 31) xx) ≡ true → 2 ^ 31 ≤ xx
    big s e = ground arith

    small : 2 ^ 31 ≤ xx → (2 ^ 32 - xx) % 2 ^ 32 ≡ 2 ^ 32 - xx
    small lo = omega arith
