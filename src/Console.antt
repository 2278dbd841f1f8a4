-- ===== src/Console.antt =====
-- lib/stdio.c: the text console in the VGA buffer, and the printing of numbers.
-- `vga` gives the 16-bit cell at an index of the buffer. A character is its code as an unsigned byte.
pub mod Cursor
pub mod Digits
pub mod Format
mod Tests
use nexus_kernel.Prelude.{
  ℕ, zero, suc, ◌+◌, ◌-◌, ◌*◌, ◌/◌, ◌%◌, ◌^◌, Bool, true, false, not, ◌&&◌, ◌||◌, Option, none,
  some, ltb, leb, ◌==◌, if◌then◌else◌, List, [], ◌∷◌, get_or,
}
use nexus_kernel.Prelude.Int.{ℤ, pos, negsuc}

abbrev pub vga_width : ℕ
vga_width = 80

abbrev pub vga_height : ℕ
vga_height = 25

-- A space in VGA_COLOR, `' ' | (VGA_COLOR << 8)`.
abbrev pub blank : ℕ
blank = 0x0720

-- vga_buffer, cursor_x, cursor_y
pub record Console : Type 0 where
  pub vga : ℕ → ℕ
  pub cursor_x : ℕ
  pub cursor_y : ℕ

unfoldable pub write : (ℕ → ℕ) → ℕ → ℕ → ℕ → ℕ
write f p v i = if i == p then v else f i

-- What `memmove` (Libc.Blocks.memmove_lem) does to the cells.
unfoldable pub move_cells : ℕ → ℕ → ℕ → (ℕ → ℕ) → ℕ → ℕ
move_cells dest src count f i =
    if leb dest i && ltb i (dest + count) then f (i - dest + src) else f i

-- The loop that clears the last row, from column `i` on, with the rounds left.
unfoldable pub clear_row : ℕ → ℕ → (ℕ → ℕ) → ℕ → ℕ
clear_row zero i f = f
clear_row (suc rounds) i f =
    clear_row rounds (i + 1) (write f ((vga_height - 1) * vga_width + i) blank)

unfoldable pub vga_scroll : Console → Console
vga_scroll c =
    if leb vga_height c.cursor_y
    then record c {
      vga = clear_row vga_width 0 (move_cells 0 vga_width (vga_width * (vga_height - 1)) c.vga);
      cursor_y = vga_height - 1;
    }
    else c

-- `(uint16_t)(c | (VGA_COLOR << 8))`: a `char` is signed, so that a code above 127 brings ones into
-- the colour.
unfoldable pub cell : ℕ → ℕ
cell ch = if ltb ch 128 then 0x0700 + ch else 0xFF00 + ch

-- The first `if` of `vga_putchar`: newline, carriage return, tab, backspace or a character to show.
unfoldable pub place : ℕ → Console → Console
place ch c =
    if ch == 10
    then record c { cursor_x = 0; cursor_y = c.cursor_y + 1 }
    else if ch == 13
    then record c { cursor_x = 0 }
    else if ch == 9
    then record c { cursor_x = (c.cursor_x + 8) - (c.cursor_x + 8) % 8 }
    else if ch == 8
    then record c { cursor_x = c.cursor_x - 1 }
    else record c {
      vga = write c.vga (c.cursor_y * vga_width + c.cursor_x) (cell ch);
      cursor_x = c.cursor_x + 1;
    }

-- The second: behind the last column the next line begins.
unfoldable pub wrap : Console → Console
wrap c =
    if leb vga_width c.cursor_x then record c { cursor_x = 0; cursor_y = c.cursor_y + 1 } else c

unfoldable pub vga_putchar : ℕ → Console → Console
vga_putchar ch c = vga_scroll (wrap (place ch c))

-- The characters up to the NUL.
unfoldable pub print_str : List ℕ → Console → Console
print_str [] c = c
print_str (ch ∷ s) c = print_str s (vga_putchar ch c)

-- The loop that stores the digits to a base, in a buffer with so many places left; the list has the
-- one stored last in front, which is the order in which they are printed. `none` means that the
-- buffer is full.
unfoldable pub fill : ℕ → ℕ → (ℕ → ℕ) → ℕ → List ℕ → Option (List ℕ)
fill zero base digit value buf = if value == 0 then some buf else none
fill (suc room) base digit value buf =
    let rest = fill room base digit (value / base) (digit (value % base) ∷ buf) in
    if value == 0 then some buf else rest

-- `'0' + d`
unfoldable pub decimal : ℕ → ℕ
decimal d = 48 + d

-- `hex[d]`
unfoldable pub hex : ℕ → ℕ
hex d = if ltb d 10 then 48 + d else 87 + d

unfoldable pub print_uint : ℕ → Console → Option Console
print_uint value c = elim (fill 12 10 decimal value []) [
  | none ↦ none
  | some buf ↦ some (if value == 0 then vga_putchar 48 c else print_str buf c)
]

unfoldable pub print_hex : ℕ → Console → Option Console
print_hex value c = elim (fill 9 16 hex value []) [
  | none ↦ none
  | some buf ↦ some (
      if value == 0
      then print_str (48 ∷ 120 ∷ 48 ∷ []) c
      else print_str buf (print_str (48 ∷ 120 ∷ []) c))
]

-- The value after the sign is taken off; the least int32_t is its own negative, and the loop over the
-- digits of a negative number ends at once.
abbrev pub magnitude : ℤ → ℕ
magnitude (pos n) = n
magnitude (negsuc n) = if n + 1 == 2 ^ 31 then 0 else n + 1

abbrev pub is_negative : ℤ → Bool
is_negative (pos n) = false
is_negative (negsuc n) = true

unfoldable pub print_int : ℤ → Console → Option Console
print_int value c =
    let signed = if is_negative value then vga_putchar 45 c else c in
    elim (fill 12 10 decimal (magnitude value) []) [
      | none ↦ none
      | some buf ↦ some (
          if not (is_negative value) && magnitude value == 0
          then vga_putchar 48 c
          else print_str buf signed)
    ]

-- The `int32_t` with the bits of a word.
unfoldable pub signed : ℕ → ℤ
signed word = if ltb word (2 ^ 31) then pos word else negsuc (2 ^ 32 - 1 - word)

-- The cases of `kprintf`'s `switch` that take an argument: d and i, u, x and X and p, s, c.
unfoldable pub takes_argument : ℕ → Bool
takes_argument k =
    k == 100 || k == 105 || k == 117 || k == 120 || k == 88 || k == 112 || k == 115 || k == 99

-- What they do with its word; `string_at` gives the characters up to the NUL at an address.
unfoldable pub print_argument : (ℕ → List ℕ) → ℕ → ℕ → Console → Option Console
print_argument string_at k word c =
    if k == 100 || k == 105
    then print_int (signed word) c
    else if k == 117
    then print_uint word c
    else if k == 120 || k == 88 || k == 112
    then print_hex word c
    else if k == 115
    then some (print_str (string_at word) c)
    else some (vga_putchar (word % 256) c)

-- The other cases: `%%`, and a character that is no format.
unfoldable pub print_other : ℕ → Console → Console
print_other k c = if k == 37 then vga_putchar 37 c else vga_putchar k (vga_putchar 37 c)

-- `none` means that a number does not fit its buffer, that there are fewer arguments than the format
-- takes, or that the format ends in a percent sign, behind which the loop goes on past the NUL.
unfoldable pub kprintf : (ℕ → List ℕ) → List ℕ → List ℕ → Console → Option Console
kprintf string_at [] args c = some c
kprintf string_at (ch ∷ []) args c = if ch == 37 then none else some (vga_putchar ch c)
kprintf string_at (ch ∷ k ∷ fmt) args c = elim (ch == 37) [
  | false ↦ kprintf string_at (k ∷ fmt) args (vga_putchar ch c)
  | true ↦ elim (takes_argument k) [
    | false ↦ kprintf string_at fmt args (print_other k c)
    | true ↦ elim args [
      | [] ↦ none
      | word ∷ words ↦ elim (print_argument string_at k word c) [
        | none ↦ none
        | some c1 ↦ kprintf string_at fmt words c1
      ]
    ]
  ]
]
