-- ===== src/Keyboard.antt =====
-- drivers/keyboard.c: the PS/2 keyboard's ring of characters, which the interrupt handler fills and
-- the readers empty. A character is its code, 0 for a key without one. The registration with the
-- driver manager and with the interrupt table is left out of `keyboard_init`.
pub mod Ring
mod Tests
use nexus_kernel.Prelude.{
  ℕ, zero, suc, ◌+◌, ◌-◌, ◌%◌, Bool, true, false, not, ◌&&◌, Option, none, some, ltb, leb, ◌==◌,
  if◌then◌else◌, List, [], ◌∷◌, ◌++◌, get_or, set, replicate,
}

-- KB_BUFFER_SIZE
abbrev pub buffer_size : ℕ
buffer_size = 256

-- kb_buffer, kb_read_idx, kb_write_idx, kb_count
pub record Keyboard : Type 0 where
  pub buffer : List ℕ
  pub read_idx : ℕ
  pub write_idx : ℕ
  pub count : ℕ

-- The rows that name a key; the others are zero, which a read behind the list gives too.
abbrev pub scancode_to_ascii : List ℕ
scancode_to_ascii =
    (0 ∷ 27 ∷ 49 ∷ 50 ∷ 51 ∷ 52 ∷ 53 ∷ 54 ∷ 55 ∷ 56 ∷ 57 ∷ 48 ∷ 45 ∷ 61 ∷ 8 ∷ [])
    ++ (9 ∷ 113 ∷ 119 ∷ 101 ∷ 114 ∷ 116 ∷ 121 ∷ 117 ∷ 105 ∷ 111 ∷ 112 ∷ 91 ∷ 93 ∷ 10 ∷ [])
    ++ (0 ∷ 97 ∷ 115 ∷ 100 ∷ 102 ∷ 103 ∷ 104 ∷ 106 ∷ 107 ∷ 108 ∷ 59 ∷ 39 ∷ 96 ∷ [])
    ++ (0 ∷ 92 ∷ 122 ∷ 120 ∷ 99 ∷ 118 ∷ 98 ∷ 110 ∷ 109 ∷ 44 ∷ 46 ∷ 47 ∷ 0 ∷ [])
    ++ (42 ∷ 0 ∷ 32 ∷ [])

unfoldable pub ascii : ℕ → ℕ
ascii scancode = get_or scancode_to_ascii scancode 0

-- The body of the handler's second `if`.
unfoldable pub store : ℕ → Keyboard → Keyboard
store c kb = record {
  buffer = set kb.buffer kb.write_idx c;
  read_idx = kb.read_idx;
  write_idx = (kb.write_idx + 1) % buffer_size;
  count = kb.count + 1;
}

-- The interrupt handler, on the byte that it reads from the port.
unfoldable pub keyboard_callback : ℕ → Keyboard → Keyboard
keyboard_callback scancode kb =
    let c = ascii scancode in
    if leb 0x80 scancode
    then kb
    else if not (c == 0) && ltb kb.count buffer_size
    then store c kb
    else kb

-- One character is taken off the ring.
unfoldable pub next_char : Keyboard → ℕ
next_char kb = get_or kb.buffer kb.read_idx 0

unfoldable pub advance : Keyboard → Keyboard
advance kb = record kb { read_idx = (kb.read_idx + 1) % buffer_size; count = kb.count - 1 }

-- The bytes that `keyboard_driver_read` stores into the buffer of the given size, whose number it
-- returns, and the ring after it.
unfoldable pub keyboard_driver_read : ℕ → Keyboard → List ℕ × Keyboard
keyboard_driver_read zero kb = ([], kb)
keyboard_driver_read (suc size) kb =
    let rest = keyboard_driver_read size (advance kb) in
    if ltb 0 kb.count then (next_char kb ∷ rest.0, rest.1) else ([], kb)

unfoldable pub keyboard_init : Keyboard → Keyboard
keyboard_init kb = record kb { read_idx = 0; write_idx = 0; count = 0 }

unfoldable pub keyboard_has_input : Keyboard → Bool
keyboard_has_input kb = ltb 0 kb.count

-- `keyboard_getchar`, with the bytes of the keyboard interrupts that come while it waits: each halt
-- lasts until the next one. `none` means that it waits still, after all of them.
unfoldable pub keyboard_getchar : List ℕ → Keyboard → Option (ℕ × Keyboard)
keyboard_getchar [] kb = if kb.count == 0 then none else some (next_char kb, advance kb)
keyboard_getchar (scancode ∷ more) kb =
    let waited = keyboard_getchar more (keyboard_callback scancode kb) in
    if kb.count == 0 then waited else some (next_char kb, advance kb)
