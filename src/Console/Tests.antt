-- ===== src/Console/Tests.antt =====
-- stdio.c at concrete screens: runs of the model, and the theorems at inputs that meet their
-- conditions.
use nexus_kernel.Prelude.{◌≡◌, refl, arith, [], ◌∷◌, some}
use nexus_kernel.Prelude.Int.{negsuc}
use nexus_kernel.Console.{Console, fill, hex, print_int, print_str, vga_putchar}
use nexus_kernel.Console.Cursor.{OnScreen, Shown, vga_putchar_lem}
use nexus_kernel.Console.{takes_argument, kprintf}
use nexus_kernel.Console.Format.{Ends, kprintf_lem}
use nexus_kernel.Console.Digits.{PrintsDecimal, print_uint_lem}

-- The cursor is at the last place of the screen.
abbrev last_place : Console
last_place = record { vga = (λ i. i); cursor_x = 79; cursor_y = 24 }

last_place-OnScreen : OnScreen last_place
last_place-OnScreen = record { column = omega arith; row = omega arith }

vga_putchar_lem_example : Shown last_place (vga_putchar 65 last_place)
vga_putchar_lem_example = vga_putchar_lem 65 last_place last_place-OnScreen

print_uint_lem_example : PrintsDecimal 4294967295 last_place
print_uint_lem_example = print_uint_lem 4294967295 (omega arith) last_place

-- -2147483648 is printed as a sign alone.
least : print_int (negsuc 2147483647) last_place ≡ some (vga_putchar 45 last_place)
unfolding print_int fill print_str
least = refl

beef : fill 9 16 hex 0xBEEF [] ≡ some (98 ∷ 101 ∷ 101 ∷ 102 ∷ [])
unfolding fill hex
beef = refl

-- The text "%d%%x", with -42.
kprintf_lem_example :
    Ends last_place (kprintf (λ a. []) (37 ∷ 100 ∷ 37 ∷ 37 ∷ 120 ∷ []) (4294967254 ∷ []) last_place)
unfolding takes_argument
kprintf_lem_example =
    kprintf_lem (λ a. []) (37 ∷ 100 ∷ 37 ∷ 37 ∷ 120 ∷ []) (4294967254 ∷ []) last_place
      last_place-OnScreen (omega arith, omega arith)
