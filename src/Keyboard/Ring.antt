-- ===== src/Keyboard/Ring.antt =====
-- The ring of drivers/keyboard.c as a queue of characters.
use nexus_kernel.Prelude.{
  ℕ, zero, suc, ◌+◌, ◌%◌, ◌<◌, ◌≤◌, ◌≡◌, ◌≢◌, refl, sym, ap, ◌∙◌, subst, not, ◌&&◌, some, ltb, ◌==◌,
  if◌then◌else◌, List, [], ◌∷◌, ◌++◌, get_or, length, take, drop, arith, length-set, get_or-set,
  length-append, Bool-cases, inl, inr,
}
use nexus_kernel.Keyboard.{
  store, Keyboard, buffer_size, ascii, keyboard_callback, next_char, advance, keyboard_driver_read,
  keyboard_init, keyboard_getchar,
}

-- The place of the i-th character of the ring.
abbrev pub slot : Keyboard → ℕ → ℕ
slot kb i = (kb.read_idx + i) % buffer_size

-- The ring holds the characters of the queue, the oldest first.
pub record Holds (kb : Keyboard) (q : List ℕ) : Type 0 where
  pub whole : length kb.buffer ≡ buffer_size
  pub counted : kb.count ≡ length q
  pub room : kb.count ≤ buffer_size
  pub read_at : kb.read_idx < buffer_size
  pub write_at : kb.write_idx ≡ slot kb kb.count
  pub chars : (i : ℕ) → i < kb.count → get_or kb.buffer (slot kb i) 0 ≡ get_or q i 0

-- What an interrupt with a byte from the keyboard does to the queue.
unfoldable pub press : ℕ → List ℕ → List ℕ
press scancode q =
    if ltb scancode 0x80 && (not (ascii scancode == 0) && ltb (length q) buffer_size)
    then q ++ (ascii scancode ∷ [])
    else q

get_or-last :
    (q : List ℕ) (c : ℕ) (i : ℕ)
    → get_or (q ++ (c ∷ [])) i 0 ≡ (if i == length q then c else get_or q i 0)
get_or-last [] c zero = refl
get_or-last [] c (suc i) = ground arith
get_or-last (x ∷ q) c zero = ground arith
get_or-last (x ∷ q) c (suc i) = ground (arith, get_or-last q c i)

pub keyboard_init-Holds :
    (kb : Keyboard) → length kb.buffer ≡ buffer_size → Holds (keyboard_init kb) []
unfolding keyboard_init
keyboard_init-Holds kb h = record {
  whole = h;
  counted = refl;
  room = omega arith;
  read_at = omega arith;
  write_at = refl;
  chars = λ i hi. elim hi [ ];
}

store-Holds :
    (kb : Keyboard) (q : List ℕ) (c : ℕ)
    → Holds kb q
    → kb.count < buffer_size
    → Holds (store c kb) (q ++ (c ∷ []))
unfolding store
store-Holds kb q c h free = record {
  whole = length-set kb.buffer kb.write_idx c ∙ h.whole;
  counted = omega (arith, h.counted, length-append q (c ∷ []));
  room = omega arith;
  read_at = h.read_at;
  write_at = omega (arith, h.write_at, h.read_at);
  chars = λ i hi.
      get_or-set kb.buffer kb.write_idx (slot kb i) c 0 (omega (arith, h.write_at, h.whole))
      ∙ seen i hi
      ∙ sym (get_or-last q c i);
}
  where
    seen :
        (i : ℕ)
        → i < kb.count + 1
        → (if kb.write_idx == slot kb i then c else get_or kb.buffer (slot kb i) 0)
          ≡ (if i == length q then c else get_or q i 0)
    seen i hi = ground (arith, h.write_at, h.counted, h.chars i, h.read_at, free)

-- An interrupt with a byte from the keyboard appends the key's character to the queue if the byte
-- says that a key was pressed, the key has a character and fewer than 256 are waiting; otherwise
-- nothing changes.
pub keyboard_callback-Holds :
    (scancode : ℕ) (kb : Keyboard) (q : List ℕ)
    → Holds kb q
    → Holds (keyboard_callback scancode kb) (press scancode q)
unfolding keyboard_callback press
keyboard_callback-Holds scancode kb q h =
    elim (Bool-cases
      (ltb scancode 0x80 && (not (ascii scancode == 0) && ltb (length q) buffer_size))) [
        | inl kept ↦
            subst (λ k. Holds k (press scancode q)) {x = store (ascii scancode) kb}
              (ground (arith, kept, h.counted))
              (subst (Holds (store (ascii scancode) kb)) {x = q ++ (ascii scancode ∷ [])}
                (ground (arith, kept))
                (store-Holds kb q (ascii scancode) h (ground (arith, kept, h.counted))))
        | inr dropped ↦
            subst (λ k. Holds k (press scancode q)) {x = kb} (ground (arith, dropped, h.counted))
              (subst (Holds kb) {x = q} (ground (arith, dropped)) h)
      ]

advance-Holds :
    (kb : Keyboard) (c : ℕ) (q : List ℕ)
    → Holds kb (c ∷ q)
    → Holds (advance kb) q × (next_char kb ≡ c)
unfolding advance next_char
advance-Holds kb c q h = (
  record {
    whole = h.whole;
    counted = omega (arith, h.counted);
    room = omega (arith, h.room);
    read_at = omega arith;
    write_at = omega (arith, h.write_at, h.counted);
    chars = λ i hi.
        subst (λ p. get_or kb.buffer p 0 ≡ get_or q i 0) (omega arith)
          (h.chars (suc i) (omega (arith, hi)));
  },
  subst (λ p. get_or kb.buffer p 0 ≡ c) (omega (arith, h.read_at))
      (h.chars 0 (omega (arith, h.counted))),
)

-- The bytes read, and the ring after the read.
abbrev pub Reads : ℕ → Keyboard → List ℕ → Type 0
Reads size kb q =
    let r = keyboard_driver_read size kb in (r.0 ≡ take size q) × Holds r.1 (drop size q)

read-zero : (kb : Keyboard) (q : List ℕ) → Holds kb q → Reads 0 kb q
unfolding keyboard_driver_read
read-zero kb q h = (refl, h)

read-none :
    (size : ℕ) (kb : Keyboard) → kb.count ≡ 0 → keyboard_driver_read (suc size) kb ≡ ([], kb)
unfolding keyboard_driver_read
read-none size kb h = ground (arith, h)

read-some :
    (size : ℕ) (kb : Keyboard)
    → kb.count ≢ 0
    → keyboard_driver_read (suc size) kb ≡ (
      next_char kb ∷ (keyboard_driver_read size (advance kb)).0,
      (keyboard_driver_read size (advance kb)).1,
    )
unfolding keyboard_driver_read
read-some size kb h = ground (arith, h)

-- A read into a buffer of some size stores the oldest characters of the queue, as many as there are
-- and fit, in order, and leaves the others in the queue.
pub keyboard_driver_read_lem :
    (size : ℕ) (kb : Keyboard) (q : List ℕ) → Holds kb q → Reads size kb q
keyboard_driver_read_lem zero kb q h = read-zero kb q h
keyboard_driver_read_lem (suc size) kb [] h =
    subst (λ r. (r.0 ≡ []) × Holds r.1 []) (sym (read-none size kb h.counted)) (refl, h)
keyboard_driver_read_lem (suc size) kb (c ∷ q) h =
    let next = advance-Holds kb c q h in
    let ih = keyboard_driver_read_lem size (advance kb) q next.0 in
    subst (λ r. (r.0 ≡ c ∷ take size q) × Holds r.1 (drop size q))
      (sym (read-some size kb (omega (arith, h.counted)))) (ground (next.1, ih.0, arith), ih.1)

getchar-some :
    (bytes : List ℕ) (kb : Keyboard)
    → kb.count ≢ 0
    → keyboard_getchar bytes kb ≡ some (next_char kb, advance kb)
unfolding keyboard_getchar
getchar-some [] kb h = ground (arith, h)
getchar-some (b ∷ bytes) kb h = ground (arith, h)

getchar-none :
    (b : ℕ) (bytes : List ℕ) (kb : Keyboard)
    → kb.count ≡ 0
    → keyboard_getchar (b ∷ bytes) kb ≡ keyboard_getchar bytes (keyboard_callback b kb)
unfolding keyboard_getchar
getchar-none b bytes kb h = ground (arith, h)

-- `keyboard_getchar` returns the character.
abbrev pub Gets : List ℕ → Keyboard → ℕ → List ℕ → Type 0
Gets bytes kb c q = (kb' : Keyboard) × (keyboard_getchar bytes kb ≡ some (c, kb')) × Holds kb' q

-- If a character is waiting, `keyboard_getchar` returns the oldest at once, whatever comes, and the
-- others stay in the queue.
pub keyboard_getchar-Gets :
    (bytes : List ℕ) (kb : Keyboard) (c : ℕ) (q : List ℕ) → Holds kb (c ∷ q) → Gets bytes kb c q
keyboard_getchar-Gets bytes kb c q h =
    let next = advance-Holds kb c q h in
    (
      advance kb,
      getchar-some bytes kb (omega (arith, h.counted)) ∙ ap (λ n. some (n, advance kb)) next.1,
      next.0,
    )

-- None of the bytes brings a character.
abbrev pub Silent : List ℕ → Type 0
Silent [] = Unit
Silent (b ∷ bytes) = (press b [] ≡ []) × Silent bytes

-- On an empty ring `keyboard_getchar` waits through the bytes that bring no character, and returns
-- the character of the first that does, the ring being empty again.
pub keyboard_getchar-Waits :
    (silent : List ℕ) (b : ℕ) (more : List ℕ) (kb : Keyboard) (c : ℕ)
    → Holds kb []
    → Silent silent
    → press b [] ≡ c ∷ []
    → Gets (silent ++ (b ∷ more)) kb c []
keyboard_getchar-Waits [] b more kb c h s hb =
    let after = subst (Holds (keyboard_callback b kb)) hb (keyboard_callback-Holds b kb [] h) in
    let got = keyboard_getchar-Gets more (keyboard_callback b kb) c [] after in
    (got.0, getchar-none b more kb h.counted ∙ got.1, got.2)
keyboard_getchar-Waits (x ∷ silent) b more kb c h s hb =
    let after = subst (Holds (keyboard_callback x kb)) s.0 (keyboard_callback-Holds x kb [] h) in
    let got = keyboard_getchar-Waits silent b more (keyboard_callback x kb) c after s.1 hb in
    (got.0, getchar-none x (silent ++ (b ∷ more)) kb h.counted ∙ got.1, got.2)
