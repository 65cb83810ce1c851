-- ===== src/LinuxSample/Numbers.antt =====
-- Decimal numbers: what %d prints, atoi reads back.
use thing_if_thing_sdk.Prelude.{
  true, false, Bytes, ℕ, zero, suc, ◌+◌, ◌*◌, ◌/◌, ◌%◌, ◌^◌, ◌<◌, ℤ, pos, negsuc, [], ◌∷◌, ◌++◌,
  ◌≡◌, refl, ◌∙◌, ap, arith, append_assoc, ltb, Bool-cases, inl, inr,
}
use thing_if_thing_sdk.Command.Items.{decimal, digits_below}
use thing_if_thing_sdk.LinuxSample.{digits_value, is_digit, signed_decimal, atoi, negated}

abbrev pub power : ℕ → ℕ
power zero = 1
power (suc n) = 10 * power n

-- A text that does not go on with a digit.
abbrev pub Ends : Bytes → Type 0
Ends [] = Unit
Ends (b ∷ bs) = is_digit b ≡ false

ltb→lt : (a b : ℕ) → ltb a b ≡ true → a < b
ltb→lt a b h = ground arith

digits_value-end : (n : ℕ) (rest : Bytes) → Ends rest → digits_value n rest ≡ n
digits_value-end n [] h = refl
digits_value-end n (b ∷ bs) h = rw h refl

digits_value-step :
    (m d : ℕ) (rest : Bytes)
    → d < 10
    → digits_value m ((48 + d) ∷ rest) ≡ digits_value (m * 10 + d) rest
digits_value-step m d rest h = ground arith

digits_value-digits_below :
    (fuel n : ℕ) (rest : Bytes)
    → n < power fuel
    → digits_value 0 (digits_below fuel n ++ rest) ≡ digits_value n rest
digits_value-digits_below zero n rest h = ap (λ m. digits_value m rest) (omega arith)
digits_value-digits_below (suc fuel) n rest h = elim (Bool-cases (ltb n 10)) [
  | inl small ↦
      rw small (
        digits_value-step 0 n rest (ltb→lt n 10 small)
        ∙ ap (λ m. digits_value m rest) (omega arith))
  | inr large ↦
      let ih = digits_value-digits_below fuel (n / 10) ((48 + n % 10) ∷ rest) (omega arith) in
      rw large (
        ap (digits_value 0) (append_assoc (digits_below fuel (n / 10)) ((48 + n % 10) ∷ []) rest)
        ∙ ih
        ∙ digits_value-step (n / 10) (n % 10) rest (omega arith)
        ∙ ap (λ m. digits_value m rest) (omega arith))
]

-- A text that starts with a digit.
abbrev StartsDigit : Bytes → Type 0
StartsDigit bs = (d : ℕ) × (more : Bytes) × (d < 10) × (bs ≡ (48 + d) ∷ more)

starts_append : (bs rest : Bytes) → StartsDigit bs → StartsDigit (bs ++ rest)
starts_append bs rest (d, more, h, e) = (d, more ++ rest, h, ap (λ t. t ++ rest) e)

digits_below-StartsDigit : (fuel n : ℕ) → StartsDigit (digits_below (suc fuel) n)
digits_below-StartsDigit zero n = elim (Bool-cases (ltb n 10)) [
  | inl small ↦ rw small (n, [], ltb→lt n 10 small, refl)
  | inr large ↦ rw large (n % 10, [], omega arith, refl)
]
digits_below-StartsDigit (suc fuel) n =
    let ih =
      starts_append (digits_below (suc fuel) (n / 10)) ((48 + n % 10) ∷ [])
        (digits_below-StartsDigit fuel (n / 10)) in
    elim (Bool-cases (ltb n 10)) [
      | inl small ↦ rw small (n, [], ltb→lt n 10 small, refl)
      | inr large ↦ rw large ih
    ]

atoi-digit :
    (d : ℕ) (more : Bytes)
    → d < 10
    → atoi ((48 + d) ∷ more) ≡ pos (digits_value 0 ((48 + d) ∷ more))
unfolding atoi
atoi-digit d more h = ground arith

atoi-StartsDigit : (bs : Bytes) → StartsDigit bs → atoi bs ≡ pos (digits_value 0 bs)
atoi-StartsDigit bs (d, more, h, e) = rw e (atoi-digit d more h)

-- The values of an int.
abbrev pub InRange : ℤ → Type 0
InRange (pos n) = n < 2 ^ 31
InRange (negsuc n) = n < 2 ^ 31

-- atoi reads back every int that %d printed, in front of a text that does not go on with a digit.
pub atoi-signed_decimal :
    (z : ℤ) (rest : Bytes) → InRange z → Ends rest → atoi (signed_decimal z ++ rest) ≡ z
unfolding decimal atoi
atoi-signed_decimal (pos n) rest h e =
    atoi-StartsDigit (digits_below 20 n ++ rest)
      (starts_append (digits_below 20 n) rest (digits_below-StartsDigit 19 n))
    ∙ ap pos (digits_value-digits_below 20 n rest (omega arith) ∙ digits_value-end n rest e)
atoi-signed_decimal (negsuc n) rest h e =
    ap negated
      (digits_value-digits_below 20 (suc n) rest (omega arith) ∙ digits_value-end (suc n) rest e)
