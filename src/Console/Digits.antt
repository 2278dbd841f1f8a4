-- ===== src/Console/Digits.antt =====
-- The numbers that lib/stdio.c prints, read back from their digits.
use nexus_kernel.Prelude.{
  ℕ, zero, suc, ◌+◌, ◌-◌, ◌*◌, ◌/◌, ◌%◌, ◌^◌, ◌<◌, ◌≤◌, ◌≡◌, ◌≢◌, refl, sym, ap, ◌∙◌, subst, List,
  [], ◌∷◌, arith, inl, inr, ◌⊎◌, some,
}
use nexus_kernel.Console.{Console, fill, decimal, print_uint, print_str}

-- The number that a text of decimal digits names, read from the left, after some digits of value `n`.
abbrev pub read_decimal : ℕ → List ℕ → ℕ
read_decimal n [] = n
read_decimal n (ch ∷ s) = read_decimal (n * 10 + (ch - 48)) s

-- Every character is a digit.
abbrev pub AllDigits : List ℕ → Type 0
AllDigits [] = Unit
AllDigits (ch ∷ s) = ((48 ≤ ch) × (ch ≤ 57)) × AllDigits s

-- The buffer holds the digits of the value, the most significant first, in front of the others.
abbrev pub Filled : ℕ → ℕ → List ℕ → Type 0
Filled room value buf =
    (s : List ℕ) × (fill room 10 decimal value buf ≡ some s)
    × (read_decimal 0 s ≡ read_decimal value buf)
    × AllDigits s

fill-zero : (room : ℕ) (buf : List ℕ) → fill room 10 decimal 0 buf ≡ some buf
unfolding fill
fill-zero zero buf = refl
fill-zero (suc room) buf = refl

fill-suc :
    (room value : ℕ) (buf : List ℕ)
    → value ≢ 0
    → fill (suc room) 10 decimal value buf
      ≡ fill room 10 decimal (value / 10) ((48 + value % 10) ∷ buf)
unfolding fill decimal
fill-suc room value buf h = ground (arith, h)

zero_or_not : (v : ℕ) → (v ≡ 0) ⊎ (v ≢ 0)
zero_or_not v = omega arith

pub fill_lem :
    (room value : ℕ) (buf : List ℕ) → value < 10 ^ room → AllDigits buf → Filled room value buf
fill_lem zero value buf h d =
    let zeroed : value ≡ 0 = omega (arith, h) in
    subst (λ v. Filled 0 v buf) (sym zeroed) (buf, fill-zero 0 buf, refl, d)
fill_lem (suc room) value buf h d = elim (zero_or_not value) [
  | inl e ↦ subst (λ v. Filled (suc room) v buf) (sym e) (buf, fill-zero (suc room) buf, refl, d)
  | inr e ↦
      let ih =
        fill_lem room (value / 10) ((48 + value % 10) ∷ buf) (omega (arith, h))
          ((omega arith, omega arith), d) in
      (
        ih.0,
        fill-suc room value buf e ∙ ih.1,
        ih.2 ∙ ap (λ n. read_decimal n buf) (omega arith),
        ih.3,
      )
]

-- What is printed.
abbrev pub PrintsDecimal : ℕ → Console → Type 0
PrintsDecimal value c =
    (s : List ℕ) × (print_uint value c ≡ some (print_str s c))
    × (read_decimal 0 s ≡ value)
    × AllDigits s
    × (s ≢ [])

-- `print_uint` of a 32-bit number never fills its buffer of twelve places: it prints decimal digits,
-- at least one, which read from the left name the number.
pub print_uint_lem : (value : ℕ) → value < 2 ^ 32 → (c : Console) → PrintsDecimal value c
unfolding print_uint print_str
print_uint_lem value h c = elim (zero_or_not value) [
  | inl e ↦ (
    48 ∷ [],
    ground (arith, e, fill-zero 12 []),
    ground (arith, e),
    ((omega arith, omega arith), tt),
    λ no. ground (arith, no),
  )
  | inr e ↦
      let k = fill_lem 12 value [] (omega (arith, h)) tt in
      (k.0, ground (arith, e, k.1), k.2, k.3, λ no. e (sym k.2 ∙ ap (read_decimal 0) no))
]
