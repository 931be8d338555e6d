-- ===== src/PreOutputBuilder/Digits.antt =====
-- server/modules/PreOutputBuilder/PreOutputBuilder.cpp: how a number is written.
use Prim.{tt, absurd}
use zhttpd.Base.{
  ℕ, zero, suc, ◌+◌, ◌-◌, ◌*◌, ◌/◌, ◌%◌, ◌^◌, ◌≤◌, ◌<◌, Bytes, codes, [], ◌∷◌, ◌++◌, ltb, leb, ◌==◌,
  if◌then◌else◌, ◌≡◌, refl, arith, append_assoc, ◌∙◌, ap, sym, All, All-append, Bool-cases, inl,
  inr, ◌⊎◌, append-nil, ◌≢◌,
}

-- `out += str[i]`, on strings that have an `i`-th byte.
unfoldable pub push_at : ℕ → Bytes → Bytes → Bytes
push_at i [] out = out
push_at zero (c ∷ cs) out = out ++ c ∷ []
push_at (suc i) (c ∷ cs) out = push_at i cs out

-- `my_putnbr_base_rec`, with a bound on the depth of its recursion.
unfoldable pub put_digits : ℕ → Bytes → ℕ → ℕ → Bytes → Bytes
unfolding push_at
put_digits zero out n base str = out
put_digits (suc depth) out n base str =
    let high = put_digits depth out (n / base) base str in
    if ltb 0 n then push_at (n % base) str high else out

-- `my_putnbr_base`. The argument is an `unsigned int`; it gets no more than 32 digits.
unfoldable pub put_number : Bytes → ℕ → ℕ → Bytes → Bytes
unfolding put_digits push_at
put_number out n base str =
    if n % 2 ^ 32 == 0 then push_at 0 str out else put_digits 32 out (n % 2 ^ 32) base str

-- A reader of numbers: the value of a digit, and of a text of digits behind `acc`.
abbrev pub digit_value : ℕ → ℕ
digit_value c = if leb b'a' c then c - 87 else c - 48

abbrev pub IsHexDigit : ℕ → Type 0
IsHexDigit c = ((48 ≤ c) × (c ≤ 57)) ⊎ ((97 ≤ c) × (c ≤ 102))

abbrev pub read_digits : ℕ → ℕ → Bytes → ℕ
read_digits base acc [] = acc
read_digits base acc (c ∷ cs) = read_digits base (acc * base + digit_value c) cs

read_digits-append :
    (base acc : ℕ) (xs ys : Bytes)
    → read_digits base acc (xs ++ ys) ≡ read_digits base (read_digits base acc xs) ys
read_digits-append base acc [] ys = refl
read_digits-append base acc (x ∷ xs) ys = read_digits-append base (acc * base + digit_value x) xs ys

-- The `d`-th digit of the text is the digit `d`.
abbrev pub DigitAt : Bytes → ℕ → Type 0
DigitAt str d =
    (c : ℕ) × (digit_value c ≡ d)
    × IsHexDigit c
    × ((out : Bytes) → push_at d str out ≡ out ++ c ∷ [])

-- What is written for a number, as digits that read back as it.
abbrev pub Written : ℕ → ℕ → Bytes → Bytes → Type 0
Written base n out text =
    (ds : Bytes) × (text ≡ out ++ ds) × All IsHexDigit ds × (ds ≢ []) × (read_digits base 0 ds ≡ n)

first_digit : (base d : ℕ) → 0 * base + d ≡ d
first_digit base d = omega arith

module _ (base : ℕ) (str : Bytes) (digit_at : (d : ℕ) → d < base → DigitAt str d)
    (parts : (n : ℕ) → (n / base) * base + n % base ≡ n) (small : (n : ℕ) → n % base < base)
    (half : (n m : ℕ) → n < m + m → n / base < m) where
  -- What `put_digits` adds: digits, which read back as the number.
  put_digits-read :
      (depth n : ℕ) (out : Bytes)
      → n < 2 ^ depth
      → (ds : Bytes) × (put_digits depth out n base str ≡ out ++ ds)
        × All IsHexDigit ds
        × (read_digits base 0 ds ≡ n)
  unfolding put_digits
  put_digits-read zero n out h = ([], sym (append-nil out), tt, omega arith)
  put_digits-read (suc depth) n out h = elim (Bool-cases (ltb 0 n)) [
    | inr e ↦ ([], rw (e, append-nil out), tt, ground arith)
    | inl e ↦
        let (ds, put, hex, val) =
          put_digits-read depth (n / base) out (half n (2 ^ depth) (omega (arith, h))) in
        let (c, value, digit, push) = digit_at (n % base) (small n) in
        (
          ds ++ c ∷ [],
          rw (e, put, push (out ++ ds), append_assoc out ds (c ∷ [])),
          All-append IsHexDigit ds (c ∷ []) hex (digit, tt),
          rw (read_digits-append base 0 ds (c ∷ []), val, value, parts n),
        )
  ]

  put_number-read_digits :
      (n : ℕ) (out : Bytes) → n < 2 ^ 32 → Written base n out (put_number out n base str)
  unfolding put_number
  put_number-read_digits n out h = elim (Bool-cases (n % 2 ^ 32 == 0)) [
    | inl e ↦
        let (c, value, digit, push) = digit_at 0 (omega (arith, small 0)) in
        (
          c ∷ [],
          rw (e, push out),
          (digit, tt),
          (λ e. cc),
          first_digit base (digit_value c) ∙ value ∙ ground arith,
        )
    | inr e ↦
        let (ds, put, hex, val) = put_digits-read 32 (n % 2 ^ 32) out (omega arith) in
        (
          ds,
          rw (e, put),
          hex,
          (λ z. let v : n % 2 ^ 32 ≡ 0 = sym val ∙ ap (read_digits base 0) z in ground arith),
          omega (arith, val),
        )
  ]

decimal_digit : (d : ℕ) → d < 10 → DigitAt (codes "0123456789") d
unfolding push_at
decimal_digit zero h = (48, refl, inl (omega arith, omega arith), λ out. refl)
decimal_digit (suc zero) h = (49, refl, inl (omega arith, omega arith), λ out. refl)
decimal_digit (suc (suc zero)) h = (50, refl, inl (omega arith, omega arith), λ out. refl)
decimal_digit (suc (suc (suc zero))) h = (51, refl, inl (omega arith, omega arith), λ out. refl)
decimal_digit (suc (suc (suc (suc zero)))) h =
    (52, refl, inl (omega arith, omega arith), λ out. refl)
decimal_digit (suc (suc (suc (suc (suc zero))))) h =
    (53, refl, inl (omega arith, omega arith), λ out. refl)
decimal_digit (suc (suc (suc (suc (suc (suc zero)))))) h =
    (54, refl, inl (omega arith, omega arith), λ out. refl)
decimal_digit (suc (suc (suc (suc (suc (suc (suc zero))))))) h =
    (55, refl, inl (omega arith, omega arith), λ out. refl)
decimal_digit (suc (suc (suc (suc (suc (suc (suc (suc zero)))))))) h =
    (56, refl, inl (omega arith, omega arith), λ out. refl)
decimal_digit (suc (suc (suc (suc (suc (suc (suc (suc (suc zero))))))))) h =
    (57, refl, inl (omega arith, omega arith), λ out. refl)
decimal_digit (suc (suc (suc (suc (suc (suc (suc (suc (suc (suc n)))))))))) h = absurd (omega arith)

hex_digit : (d : ℕ) → d < 16 → DigitAt (codes "0123456789abcdef") d
unfolding push_at
hex_digit zero h = (48, refl, inl (omega arith, omega arith), λ out. refl)
hex_digit (suc zero) h = (49, refl, inl (omega arith, omega arith), λ out. refl)
hex_digit (suc (suc zero)) h = (50, refl, inl (omega arith, omega arith), λ out. refl)
hex_digit (suc (suc (suc zero))) h = (51, refl, inl (omega arith, omega arith), λ out. refl)
hex_digit (suc (suc (suc (suc zero)))) h = (52, refl, inl (omega arith, omega arith), λ out. refl)
hex_digit (suc (suc (suc (suc (suc zero))))) h =
    (53, refl, inl (omega arith, omega arith), λ out. refl)
hex_digit (suc (suc (suc (suc (suc (suc zero)))))) h =
    (54, refl, inl (omega arith, omega arith), λ out. refl)
hex_digit (suc (suc (suc (suc (suc (suc (suc zero))))))) h =
    (55, refl, inl (omega arith, omega arith), λ out. refl)
hex_digit (suc (suc (suc (suc (suc (suc (suc (suc zero)))))))) h =
    (56, refl, inl (omega arith, omega arith), λ out. refl)
hex_digit (suc (suc (suc (suc (suc (suc (suc (suc (suc zero))))))))) h =
    (57, refl, inl (omega arith, omega arith), λ out. refl)
hex_digit (suc (suc (suc (suc (suc (suc (suc (suc (suc (suc zero)))))))))) h =
    (97, refl, inr (omega arith, omega arith), λ out. refl)
hex_digit (suc (suc (suc (suc (suc (suc (suc (suc (suc (suc (suc zero))))))))))) h =
    (98, refl, inr (omega arith, omega arith), λ out. refl)
hex_digit (suc (suc (suc (suc (suc (suc (suc (suc (suc (suc (suc (suc zero)))))))))))) h =
    (99, refl, inr (omega arith, omega arith), λ out. refl)
hex_digit (suc (suc (suc (suc (suc (suc (suc (suc (suc (suc (suc (suc (suc zero))))))))))))) h =
    (100, refl, inr (omega arith, omega arith), λ out. refl)
hex_digit (suc (suc (suc (suc (suc (suc (suc (suc (suc (suc (suc (suc (suc (suc zero))))))))))))))
      h =
    (101, refl, inr (omega arith, omega arith), λ out. refl)
hex_digit
      (suc (suc (suc (suc (suc (suc (suc (suc (suc (suc (suc (suc (suc (suc (suc zero)))))))))))))))
      h =
    (102, refl, inr (omega arith, omega arith), λ out. refl)
hex_digit
      (suc
        (suc (suc (suc (suc (suc (suc (suc (suc (suc (suc (suc (suc (suc (suc (suc n))))))))))))))))
      h =
    absurd (omega arith)

-- A number of 32 bits that is written in base 10 or 16 reads back as itself.
pub put_number-Written :
    (n : ℕ) (out : Bytes)
    → n < 2 ^ 32
    → Written 10 n out (put_number out n 10 (codes "0123456789"))
      × Written 16 n out (put_number out n 16 (codes "0123456789abcdef"))
put_number-Written n out h = (
  put_number-read_digits 10 (codes "0123456789") decimal_digit (λ m. omega arith) (λ m. omega arith)
      (λ m k g. omega arith) n out h,
  put_number-read_digits 16 (codes "0123456789abcdef") hex_digit (λ m. omega arith)
      (λ m. omega arith) (λ m k g. omega arith) n out h,
)
