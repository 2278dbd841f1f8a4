-- ===== src/Console/Format.antt =====
-- `kprintf` of lib/stdio.c.
use nexus_kernel.Prelude.{
  ℕ, zero, suc, ◌/◌, ◌%◌, ◌^◌, ◌<◌, ◌≡◌, ◌≢◌, refl, ap, ◌∙◌, Bool, true, false, not, ◌&&◌, ◌||◌,
  ◌==◌, if◌then◌else◌, List, [], ◌∷◌, arith, Option, some, none, Bool-cases, inl, inr,
}
use nexus_kernel.Prelude.Int.{ℤ}
use nexus_kernel.Console.{
  Console, fill, hex, print_uint, print_int, print_hex, print_str, vga_putchar, magnitude,
  is_negative, signed, takes_argument, print_argument, print_other, kprintf,
}
use nexus_kernel.Console.Cursor.{OnScreen, Shown, vga_putchar_lem, print_str_lem}
use nexus_kernel.Console.Digits.{fill_lem}

-- A result, with the cursor on the screen and the memory behind the buffer as it was.
abbrev pub Ends : Console → Option Console → Type 0
Ends c r = (c' : Console) × (r ≡ some c') × Shown c c'

pub Shown-step : (a b c : Console) → Shown a b → Shown b c → Shown a c
Shown-step a b c h k = (k.0, λ p. k.1 p ∙ h.1 p)

fill-hex :
    (room value : ℕ) (buf : List ℕ)
    → value < 16 ^ room
    → (s : List ℕ) × (fill room 16 hex value buf ≡ some s)
unfolding fill
fill-hex zero value buf h = (buf, ground (arith, h))
fill-hex (suc room) value buf h = elim (Bool-cases (value == 0)) [
  | inl e ↦ (buf, ground (arith, e))
  | inr e ↦
      let ih = fill-hex room (value / 16) (hex (value % 16) ∷ buf) (omega (arith, h)) in
      (ih.0, ground (arith, e, ih.1))
]

module _ (c : Console) (on : OnScreen c) where
  chosen : (b : Bool) (x y : Console) → Shown c x → Shown c y → Shown c (if b then x else y)
  chosen true x y hx hy = hx
  chosen false x y hx hy = hy

  print_uint-Ends : (value : ℕ) → value < 2 ^ 32 → Ends c (print_uint value c)
  unfolding print_uint
  print_uint-Ends value h =
      let k = fill_lem 12 value [] (omega (arith, h)) tt in
      (
        if value == 0 then vga_putchar 48 c else print_str k.0 c,
        ground (arith, k.1),
        chosen (value == 0) (vga_putchar 48 c) (print_str k.0 c) (vga_putchar_lem 48 c on)
            (print_str_lem k.0 c on),
      )

  print_hex-Ends : (value : ℕ) → value < 2 ^ 32 → Ends c (print_hex value c)
  unfolding print_hex
  print_hex-Ends value h =
      let k = fill-hex 9 value [] (omega (arith, h)) in
      let x = print_str (48 ∷ 120 ∷ []) c in
      let hx = print_str_lem (48 ∷ 120 ∷ []) c on in
      (
        if value == 0 then print_str (48 ∷ 120 ∷ 48 ∷ []) c else print_str k.0 x,
        ground (arith, k.1),
        chosen (value == 0) (print_str (48 ∷ 120 ∷ 48 ∷ []) c) (print_str k.0 x)
            (print_str_lem (48 ∷ 120 ∷ 48 ∷ []) c on)
            (Shown-step c x (print_str k.0 x) hx (print_str_lem k.0 x hx.0)),
      )

  print_int-Ends : (value : ℤ) → magnitude value < 2 ^ 32 → Ends c (print_int value c)
  unfolding print_int
  print_int-Ends value h =
      let k = fill_lem 12 (magnitude value) [] (omega (arith, h)) tt in
      let x = if is_negative value then vga_putchar 45 c else c in
      let hx =
        chosen (is_negative value) (vga_putchar 45 c) c (vga_putchar_lem 45 c on) (on, λ p. refl) in
      let zeroed = not (is_negative value) && magnitude value == 0 in
      (
        if zeroed then vga_putchar 48 c else print_str k.0 x,
        ground (arith, k.1),
        chosen zeroed (vga_putchar 48 c) (print_str k.0 x) (vga_putchar_lem 48 c on)
            (Shown-step c x (print_str k.0 x) hx (print_str_lem k.0 x hx.0)),
      )

signed_lem : (word : ℕ) → word < 2 ^ 32 → magnitude (signed word) < 2 ^ 32
unfolding signed
signed_lem word h = ground (arith, h)

print_argument-Ends :
    (string_at : ℕ → List ℕ) (k word : ℕ) (c : Console)
    → OnScreen c
    → word < 2 ^ 32
    → Ends c (print_argument string_at k word c)
unfolding print_argument
print_argument-Ends string_at k word c on h =
    pick (k == 100 || k == 105) (print_int (signed word) c) _
      (print_int-Ends c on (signed word) (signed_lem word h))
      (pick (k == 117) (print_uint word c) _ (print_uint-Ends c on word h) (
        pick (k == 120 || k == 88 || k == 112) (print_hex word c) _ (print_hex-Ends c on word h) (
          pick (k == 115) (some (print_str (string_at word) c)) _
            (print_str (string_at word) c, refl, print_str_lem (string_at word) c on)
            (vga_putchar (word % 256) c, refl, vga_putchar_lem (word % 256) c on))))
  where
    pick : (b : Bool) (x y : Option Console) → Ends c x → Ends c y → Ends c (if b then x else y)
    pick true x y hx hy = hx
    pick false x y hx hy = hy

print_other-Shown : (k : ℕ) (c : Console) → OnScreen c → Shown c (print_other k c)
unfolding print_other
print_other-Shown k c on =
    let p = vga_putchar_lem 37 c on in
    chosen c on (k == 37) (vga_putchar 37 c) (vga_putchar k (vga_putchar 37 c)) p (
      Shown-step c (vga_putchar 37 c) (vga_putchar k (vga_putchar 37 c)) p
        (vga_putchar_lem k (vga_putchar 37 c) p.0))

Ends-step : (a b : Console) (r : Option Console) → Shown a b → Ends b r → Ends a r
Ends-step a b r h k = (k.0, k.1, Shown-step a b k.0 h k.2)

either :
    {A B : Type 0} {x y : Option Console} (b : Bool) (c : Console)
    → (elim b as (λ _. Type 0) [ false ↦ A | true ↦ B ])
    → (A → Ends c x)
    → (B → Ends c y)
    → Ends c (elim b as (λ _. Option Console) [ false ↦ x | true ↦ y ])
either false c h f g = f h
either true c h f g = g h

-- The format does not end in a percent sign of its own, and there is a 32-bit word for every argument
-- that it takes.
abbrev pub Fits : List ℕ → List ℕ → Type 0
Fits [] args = Unit
Fits (ch ∷ []) args = ch ≢ 37
Fits (ch ∷ k ∷ fmt) args = elim (ch == 37) [
  | false ↦ Fits (k ∷ fmt) args
  | true ↦ elim (takes_argument k) [
    | false ↦ Fits fmt args
    | true ↦ elim args [ [] ↦ ⊥ | word ∷ words ↦ (word < 2 ^ 32) × Fits fmt words ]
  ]
]

with_argument :
    (string_at : ℕ → List ℕ) (k : ℕ) (fmt : List ℕ) (c : Console)
    → OnScreen c
    → ((words : List ℕ) (c1 : Console)
        → OnScreen c1
        → Fits fmt words
        → Ends c1 (kprintf string_at fmt words c1))
    → (args : List ℕ)
    → (elim args as (λ _. Type 0) [ [] ↦ ⊥ | word ∷ words ↦ (word < 2 ^ 32) × Fits fmt words ])
    → Ends c (elim args as (λ _. Option Console) [
      | [] ↦ none
      | word ∷ words ↦ elim (print_argument string_at k word c) as (λ _. Option Console) [
        | none ↦ none
        | some c1 ↦ kprintf string_at fmt words c1
      ]
    ])
with_argument string_at k fmt c on rec [] g = elim g [ ]
with_argument string_at k fmt c on rec (word ∷ words) g =
    let one = print_argument-Ends string_at k word c on g.0 in
    let rest = rec words one.0 one.2.0 g.1 in
    let run : elim (print_argument string_at k word c) as (λ _. Option Console) [
      | none ↦ none
      | some c1 ↦ kprintf string_at fmt words c1
    ]
        ≡ kprintf string_at fmt words one.0 =
      ap
        (λ r. elim r as (λ _. Option Console) [
          | none ↦ none
          | some c1 ↦ kprintf string_at fmt words c1
        ])
        one.1 in
    (rest.0, run ∙ rest.1, Shown-step c one.0 rest.0 one.2 rest.2)

-- From a cursor on the screen, `kprintf` with a format that does not end in a percent sign of its own
-- and enough arguments returns: no number overruns its buffer, the cursor is on the screen again, and
-- nothing is written behind the cells of the screen.
pub kprintf_lem :
    (string_at : ℕ → List ℕ) (fmt args : List ℕ) (c : Console)
    → OnScreen c
    → Fits fmt args
    → Ends c (kprintf string_at fmt args c)
unfolding kprintf
kprintf_lem string_at [] args c on fits = (c, refl, (on, λ p. refl))
kprintf_lem string_at (ch ∷ []) args c on fits =
    (vga_putchar ch c, ground (arith, fits), vga_putchar_lem ch c on)
kprintf_lem string_at (ch ∷ k ∷ fmt) args c on fits =
    either (ch == 37) c fits
      (λ f.
        let shown = vga_putchar_lem ch c on in
        Ends-step c (vga_putchar ch c) (kprintf string_at (k ∷ fmt) args (vga_putchar ch c)) shown
          (kprintf_lem string_at (k ∷ fmt) args (vga_putchar ch c) shown.0 f))
      (λ f.
        either (takes_argument k) c f
          (λ g.
            let shown = print_other-Shown k c on in
            Ends-step c (print_other k c) (kprintf string_at fmt args (print_other k c)) shown
              (kprintf_lem string_at fmt args (print_other k c) shown.0 g))
          (λ g.
            with_argument string_at k fmt c on
              (λ words c1 on1 h. kprintf_lem string_at fmt words c1 on1 h) args g))
