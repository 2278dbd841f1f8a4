-- ===== src/Console/Cursor.antt =====
-- The cursor of lib/stdio.c stays on the screen, and nothing outside the buffer is written.
use nexus_kernel.Prelude.{
  ℕ, zero, suc, ◌+◌, ◌*◌, ◌<◌, ◌≤◌, ◌≡◌, refl, sym, ◌∙◌, subst, ◌&&◌, ltb, leb, if◌then◌else◌, List,
  [], ◌∷◌, arith,
}
use nexus_kernel.Console.{
  Console, vga_width, vga_height, blank, write, move_cells, clear_row, vga_scroll, place, wrap,
  vga_putchar, print_str,
}

pub record OnScreen (c : Console) : Type 0 where
  pub column : c.cursor_x < vga_width
  pub row : c.cursor_y < vga_height

clear_row_lem :
    (rounds i : ℕ) (f : ℕ → ℕ) (p : ℕ)
    → clear_row rounds i f p
      ≡ (if leb (24 * 80 + i) p && ltb p (24 * 80 + i + rounds) then blank else f p)
unfolding clear_row write
clear_row_lem zero i f p = ground arith
clear_row_lem (suc rounds) i f p =
    ground (arith, clear_row_lem rounds (i + 1) (write f (24 * 80 + i) blank) p)

-- What the screen shows after a scroll: the rows move up by one, and the last is blank.
vga_scroll_lem :
    (c : Console) (p : ℕ)
    → (vga_scroll c).vga p ≡ (
        if leb vga_height c.cursor_y
        then (if ltb p (24 * 80)
            then c.vga (p + 80)
            else if ltb p (25 * 80)
            then blank
            else c.vga p)
        else c.vga p)
unfolding vga_scroll move_cells
vga_scroll_lem c p = ground (arith, clear_row_lem 80 0 (move_cells 0 80 (80 * 24) c.vga) p)

scroll-row : (c : Console) → c.cursor_y ≤ vga_height → (vga_scroll c).cursor_y < vga_height
unfolding vga_scroll
scroll-row c h = ground (arith, h)

scroll-column : (c : Console) → (vga_scroll c).cursor_x ≡ c.cursor_x
unfolding vga_scroll
scroll-column c = ground arith

module _ (ch : ℕ) (c : Console) (on : OnScreen c) where
  -- Neither the tab nor a character goes past the column behind the last.
  placed :
      ((place ch c).cursor_x ≤ vga_width)
      × ((place ch c).cursor_y ≤ vga_height)
      × ((place ch c).cursor_x ≡ vga_width → (place ch c).cursor_y < vga_height)
  unfolding place
  placed = (
    ground (arith, on.row, on.column),
    ground (arith, on.row, on.column),
    ground (arith, on.row, on.column),
  )

  placed_outside :
      (p : ℕ) → (place ch c).vga (vga_width * vga_height + p) ≡ c.vga (vga_width * vga_height + p)
  unfolding place write
  placed_outside p = ground (arith, on.row, on.column)

wrapped :
    (c : Console)
    → c.cursor_x ≤ vga_width
    → c.cursor_y ≤ vga_height
    → (c.cursor_x ≡ vga_width → c.cursor_y < vga_height)
    → ((wrap c).cursor_x < vga_width)
      × ((wrap c).cursor_y ≤ vga_height)
      × ((p : ℕ) → (wrap c).vga p ≡ c.vga p)
unfolding wrap
wrapped c hx hy h = (ground (arith, hx), ground (arith, hx, hy, h), λ p. ground arith)

-- The cursor is on the screen, and the memory behind the buffer is as it was.
abbrev pub Shown : Console → Console → Type 0
Shown c c' =
    OnScreen c'
    × ((p : ℕ) → c'.vga (vga_width * vga_height + p) ≡ c.vga (vga_width * vga_height + p))

-- From a cursor on the screen, `vga_putchar` of any character leaves the cursor on the screen, and
-- writes nothing behind the 80 times 25 cells of the buffer.
pub vga_putchar_lem : (ch : ℕ) (c : Console) → OnScreen c → Shown c (vga_putchar ch c)
unfolding vga_putchar
vga_putchar_lem ch c on =
    let k = placed ch c on in
    let w = wrapped (place ch c) k.0 k.1 k.2 in
    (
      record {
        column = subst (λ x. x < vga_width) (sym (scroll-column (wrap (place ch c)))) w.0;
        row = scroll-row (wrap (place ch c)) w.1;
      },
      λ p.
          vga_scroll_lem (wrap (place ch c)) (vga_width * vga_height + p)
          ∙ ground arith
          ∙ w.2 (vga_width * vga_height + p)
          ∙ placed_outside ch c on p,
    )

-- So does `print_str` of any text.
pub print_str_lem : (s : List ℕ) (c : Console) → OnScreen c → Shown c (print_str s c)
unfolding print_str
print_str_lem [] c on = (on, λ p. refl)
print_str_lem (ch ∷ s) c on =
    let one = vga_putchar_lem ch c on in
    let rest = print_str_lem s (vga_putchar ch c) one.0 in (rest.0, λ p. rest.1 p ∙ one.1 p)
