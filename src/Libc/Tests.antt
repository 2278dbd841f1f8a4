-- ===== src/Libc/Tests.antt =====
-- kernel/lib/string.c on a memory that holds the strings "boot" at 100 and "bat" at 200, with no
-- other byte set, and the theorems there.
use nexus_kernel.Prelude.{ℕ, ◌+◌, ◌-◌, ◌≡◌, refl, arith, ◌==◌, if◌then◌else◌, List, [], ◌∷◌, map}
use nexus_kernel.Libc.{Bytes, write, memset, memcpy, memmove, memmove_back, strncpy}
use nexus_kernel.Libc.Blocks.{within, memmove_lem}
use nexus_kernel.Libc.Text.{StrAt}

abbrev boot : List ℕ
boot = b'b' ∷ b'o' ∷ b'o' ∷ b't' ∷ []

abbrev bat : List ℕ
bat = b'b' ∷ b'a' ∷ b't' ∷ []

abbrev mem : Bytes
mem a =
    if a == 100
    then b'b'
    else if a == 101
    then b'o'
    else if a == 102
    then b'o'
    else if a == 103
    then b't'
    else if a == 200
    then b'b'
    else if a == 201
    then b'a'
    else if a == 202
    then b't'
    else 0

boot_at : StrAt mem 100 boot
boot_at = omega arith

bat_at : StrAt mem 200 bat
bat_at = omega arith

-- A move by one place inside the string, both ways.
moves :
    (map (memmove 101 100 4 mem) (100 ∷ 101 ∷ 102 ∷ 103 ∷ 104 ∷ [])
      ≡ b'b' ∷ b'b' ∷ b'o' ∷ b'o' ∷ b't' ∷ [])
    × (map (memmove 100 101 3 mem) (100 ∷ 101 ∷ 102 ∷ 103 ∷ []) ≡ b'o' ∷ b'o' ∷ b't' ∷ b't' ∷ [])
unfolding memmove memmove_back memcpy write
moves = (refl, refl)

-- The byte behind a buffer of four, overwritten by a copy of three bytes.
overrun :
    (strncpy 300 200 4 (write mem 304 7) 304 ≡ 0) × (strncpy 300 200 3 (write mem 303 7) 303 ≡ 7)
unfolding strncpy memset write
overrun = (refl, refl)

memmove_lem_example :
    memmove 101 100 4 mem 103 ≡ (if within 101 4 103 then mem (103 - 101 + 100) else mem 103)
memmove_lem_example = memmove_lem 101 100 4 mem 103
