-- ===== src/Libc/Names.antt =====
-- Names in the structs of the kernel: the bytes before a NUL, and `strcmp` of two of them as a test.
use nexus_kernel.Prelude.{ℕ, ◌≡◌, refl, Bool, true, false, ◌&&◌, ◌==◌, List, [], ◌∷◌, arith}

abbrev pub Name : Type 0
Name = List ℕ

abbrev pub names_equal : Name → Name → Bool
names_equal [] [] = true
names_equal [] (y ∷ ys) = false
names_equal (x ∷ xs) [] = false
names_equal (x ∷ xs) (y ∷ ys) = x == y && names_equal xs ys

abbrev pub is_empty : Name → Bool
is_empty [] = true
is_empty (x ∷ xs) = false

pub names_equal_self : (n : Name) → names_equal n n ≡ true
names_equal_self [] = refl
names_equal_self (x ∷ xs) = ground (arith, names_equal_self xs)

pub names_equal_sound : (a b : Name) → names_equal a b ≡ true → a ≡ b
names_equal_sound [] [] h = refl
names_equal_sound [] (y ∷ ys) h = ground (arith, h)
names_equal_sound (x ∷ xs) [] h = ground (arith, h)
names_equal_sound (x ∷ xs) (y ∷ ys) h = ground (arith, h, names_equal_sound xs ys)
