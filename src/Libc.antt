-- ===== src/Libc.antt =====
-- kernel/lib/string.c: the freestanding string library, over a memory of bytes.
-- Pointers are numbers, and memory is a function from addresses to bytes. A loop with a counter
-- recurs on it; a loop that runs to a NUL byte takes fuel, and `none` means that the fuel ran out.
-- A function that only returns its argument `dest` returns the new memory alone.
pub mod Blocks
mod Tests
pub mod Copy
pub mod Text
pub mod Names
use nexus_kernel.Prelude.{
  ℕ, zero, suc, ◌+◌, ◌-◌, ◌%◌, Bool, true, false, not, ◌&&◌, Option, none, some, ltb, ◌==◌,
  if◌then◌else◌,
}
use nexus_kernel.Prelude.Int.{ℤ, pos, sub_ℕ}

abbrev pub Bytes : Type 0
Bytes = ℕ → ℕ

-- The null pointer.
abbrev pub null : ℕ
null = 0

-- `*p = v`
unfoldable pub write : Bytes → ℕ → ℕ → Bytes
write m p v a = if a == p then v else m a

unfoldable pub memset : ℕ → ℕ → ℕ → Bytes → Bytes
memset dest val zero m = m
memset dest val (suc count) m = memset (dest + 1) val count (write m dest (val % 256))

unfoldable pub memcpy : ℕ → ℕ → ℕ → Bytes → Bytes
memcpy dest src zero m = m
memcpy dest src (suc count) m = memcpy (dest + 1) (src + 1) count (write m dest (m src))

-- The backward loop of `memmove`, its pointers just behind what is left to copy.
unfoldable pub memmove_back : ℕ → ℕ → ℕ → Bytes → Bytes
memmove_back d s zero m = m
memmove_back d s (suc count) m = memmove_back (d - 1) (s - 1) count (write m (d - 1) (m (s - 1)))

unfoldable pub memmove : ℕ → ℕ → ℕ → Bytes → Bytes
memmove dest src count m =
    if ltb dest src
    then memcpy dest src count m
    else memmove_back (dest + count) (src + count) count m

unfoldable pub memcmp : ℕ → ℕ → ℕ → Bytes → ℤ
memcmp a b zero m = pos 0
memcmp a b (suc count) m =
    let rest = memcmp (a + 1) (b + 1) count m in
    if not (m a == m b) then sub_ℕ (m a) (m b) else rest

-- The loop of `strlen`, from the length so far.
unfoldable pub strlen_from : ℕ → ℕ → ℕ → Bytes → Option ℕ
strlen_from zero str len m = none
strlen_from (suc fuel) str len m = elim (m (str + len) == 0) [
  | true ↦ some len
  | false ↦ strlen_from fuel str (len + 1) m
]

unfoldable pub strlen : ℕ → ℕ → Bytes → Option ℕ
strlen fuel str m = strlen_from fuel str 0 m

unfoldable pub strcmp : ℕ → ℕ → ℕ → Bytes → Option ℤ
strcmp zero s1 s2 m = none
strcmp (suc fuel) s1 s2 m = elim (not (m s1 == 0) && m s1 == m s2) [
  | true ↦ strcmp fuel (s1 + 1) (s2 + 1) m
  | false ↦ some (sub_ℕ (m s1) (m s2))
]

unfoldable pub strncmp : ℕ → ℕ → ℕ → Bytes → ℤ
strncmp s1 s2 zero m = pos 0
strncmp s1 s2 (suc n) m =
    let rest = strncmp (s1 + 1) (s2 + 1) n m in
    if not (m s1 == 0) && m s1 == m s2 then rest else sub_ℕ (m s1) (m s2)

unfoldable pub strcpy : ℕ → ℕ → ℕ → Bytes → Option Bytes
strcpy zero dest src m = none
strcpy (suc fuel) dest src m = elim (m src == 0) [
  | true ↦ some (write m dest (m src))
  | false ↦ strcpy fuel (dest + 1) (src + 1) (write m dest (m src))
]

-- Both loops of `strncpy`. The first stops at the NUL byte that it copies, without counting it; the
-- second then writes as many zeros as the counter says.
unfoldable pub strncpy : ℕ → ℕ → ℕ → Bytes → Bytes
strncpy dest src zero m = m
strncpy dest src (suc n) m =
    let rest = strncpy (dest + 1) (src + 1) n (write m dest (m src)) in
    if m src == 0 then memset (dest + 1) 0 (suc n) (write m dest (m src)) else rest

-- The loop of `strcat` that looks for the end of `dest`, and the copy that follows it.
unfoldable pub strcat : ℕ → ℕ → ℕ → Bytes → Option Bytes
strcat zero d src m = none
strcat (suc fuel) d src m = elim (m d == 0) [
  | true ↦ strcpy (suc fuel) d src m
  | false ↦ strcat fuel (d + 1) src m
]

unfoldable pub strchr : ℕ → ℕ → ℕ → Bytes → Option ℕ
strchr zero str c m = none
strchr (suc fuel) str c m = elim (m str == 0) [
  | true ↦ some (if c == 0 then str else null)
  | false ↦ elim (m str == c % 256) [ true ↦ some str | false ↦ strchr fuel (str + 1) c m ]
]

-- The loop of `strrchr`, with the last match so far.
unfoldable pub strrchr_from : ℕ → ℕ → ℕ → ℕ → Bytes → Option ℕ
strrchr_from zero str c last m = none
strrchr_from (suc fuel) str c last m = elim (m str == 0) [
  | true ↦ some (if c == 0 then str else last)
  | false ↦ strrchr_from fuel (str + 1) c (if m str == c % 256 then str else last) m
]

unfoldable pub strrchr : ℕ → ℕ → ℕ → Bytes → Option ℕ
strrchr fuel str c m = strrchr_from fuel str c null m
