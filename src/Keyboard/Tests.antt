-- ===== src/Keyboard/Tests.antt =====
-- keyboard.c at concrete rings: runs of the model, and the theorems at inputs that meet their
-- conditions.
use nexus_kernel.Prelude.{◌≡◌, refl, [], ◌∷◌, replicate, length-replicate}
use nexus_kernel.Keyboard.{Keyboard, ascii, keyboard_callback, keyboard_init}
use nexus_kernel.Keyboard.Ring.{
  Holds, press, Reads, Gets, keyboard_init-Holds, keyboard_callback-Holds, keyboard_driver_read_lem,
  keyboard_getchar-Gets, keyboard_getchar-Waits,
}

-- The ring as the last reader left it, before the driver is set up.
abbrev stale : Keyboard
stale = record { buffer = replicate 256 0; read_idx = 9; write_idx = 200; count = 7 }

abbrev empty : Keyboard
empty = keyboard_init stale

empty-Holds : Holds empty []
empty-Holds = keyboard_init-Holds stale (length-replicate 256 0)

-- The keys a and b are pressed.
abbrev typed : Keyboard
typed = keyboard_callback 48 (keyboard_callback 30 empty)

typed-Holds : Holds typed (97 ∷ 98 ∷ [])
unfolding press ascii
typed-Holds =
    keyboard_callback-Holds 48 (keyboard_callback 30 empty) (97 ∷ [])
      (keyboard_callback-Holds 30 empty [] empty-Holds)

keyboard_callback-Holds_example : Holds (keyboard_callback 46 typed) (press 46 (97 ∷ 98 ∷ []))
keyboard_callback-Holds_example = keyboard_callback-Holds 46 typed (97 ∷ 98 ∷ []) typed-Holds

keyboard_driver_read_lem_example : Reads 5 typed (97 ∷ 98 ∷ [])
keyboard_driver_read_lem_example = keyboard_driver_read_lem 5 typed (97 ∷ 98 ∷ []) typed-Holds

first_key : Gets [] typed 97 (98 ∷ [])
first_key = keyboard_getchar-Gets [] typed 97 (98 ∷ []) typed-Holds

-- Shift is pressed and a let go, and then a pressed.
keyboard_getchar-Waits_example : Gets (42 ∷ 158 ∷ 30 ∷ 48 ∷ []) empty 97 []
unfolding press ascii
keyboard_getchar-Waits_example =
    keyboard_getchar-Waits (42 ∷ 158 ∷ []) 30 (48 ∷ []) empty 97 empty-Holds (refl, (refl, tt)) refl

-- The last key of the table, and the keys behind it.
table : (ascii 57 ≡ 32) × (ascii 58 ≡ 0) × (ascii 127 ≡ 0)
unfolding ascii
table = (refl, refl, refl)
