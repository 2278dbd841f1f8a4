-- ===== src/Fs/Path.antt =====
-- `vfs_resolve_path` of fs/vfs.c against the list of a path's components.
use nexus_kernel.Prelude.{
  ℕ, zero, suc, ◌+◌, ◌-◌, ◌<◌, ◌≤◌, ◌≡◌, refl, sym, ap, ◌∙◌, subst, Bool, true, false, ◌||◌, ◌==◌,
  leb, if◌then◌else◌, List, [], ◌∷◌, arith, length, Option, none, some, Bool-cases, Option-cases,
  inl, inr,
}
use nexus_kernel.Libc.Names.{Name, names_equal, names_equal_sound, is_empty}
use nexus_kernel.Fs.{null, Ramfs}
use nexus_kernel.Fs.Directory.{slash}
use nexus_kernel.Fs.Vfs.{
  path_max, Vfs, vfs_finddir, before_slash, behind_slash, resolve_from, skip_slash,
  vfs_resolve_path,
}

abbrev cons_first : ℕ → List Name → List Name
cons_first c [] = (c ∷ []) ∷ []
cons_first c (n ∷ ns) = (c ∷ n) ∷ ns

-- The parts between the slashes.
abbrev pub split : Name → List Name
split [] = [] ∷ []
split (c ∷ cs) = if c == slash then [] ∷ split cs else cons_first c (split cs)

abbrev without_empty : List Name → List Name
without_empty [] = []
without_empty ([] ∷ ns) = without_empty ns
without_empty ((c ∷ n) ∷ ns) = (c ∷ n) ∷ without_empty ns

-- The parts that are not empty.
abbrev pub components : Name → List Name
components path = without_empty (split path)

-- The node at the end of the names.
abbrev pub follow : (ℕ → Name → ℕ) → ℕ → List Name → ℕ
follow find current [] = current
follow find current (n ∷ ns) = follow find (find current n) ns

-- `find` gives what the searches of `vfs_finddir` return.
abbrev pub Searches : ℕ → Ramfs → (ℕ → Name → ℕ) → Type 0
Searches search fs find =
    (dir : ℕ) (name : Name) → vfs_finddir search fs dir name ≡ some (find dir name)

abbrev tails : Option Name → List Name
tails none = []
tails (some rest) = split rest

split-before : (token : Name) → split token ≡ before_slash token ∷ tails (behind_slash token)
split-before [] = refl
split-before (c ∷ cs) = elim (Bool-cases (c == slash)) [
  | inl h ↦ rw h refl
  | inr h ↦ rw h (ap (cons_first c) (split-before cs))
]

abbrev tail_size : Option Name → ℕ
tail_size none = 0
tail_size (some rest) = suc (length rest)

tail_size_le : (token : Name) → tail_size (behind_slash token) ≤ length token
tail_size_le [] = omega arith
tail_size_le (c ∷ cs) = elim (Bool-cases (c == slash)) [
  | inl h ↦ rw h (omega arith)
  | inr h ↦ rw h (omega (arith, tail_size_le cs))
]

-- The rest behind a slash is shorter.
behind_slash-shorter :
    (token rest : Name) → behind_slash token ≡ some rest → length rest < length token
behind_slash-shorter token rest h = omega (arith, tail_size_le token, ap tail_size h)

follow-null :
    (find : ℕ → Name → ℕ)
    → ((n : Name) → find null n ≡ null)
    → (ns : List Name) → follow find null ns ≡ null
follow-null find stays [] = refl
follow-null find stays (n ∷ ns) = ap (λ c. follow find c ns) (stays n) ∙ follow-null find stays ns

without_empty-cons :
    (n : Name) (ns : List Name)
    → without_empty (n ∷ ns) ≡ (if is_empty n then without_empty ns else n ∷ without_empty ns)
without_empty-cons [] ns = refl
without_empty-cons (c ∷ cs) ns = refl

module _ (search : ℕ) (fs : Ramfs) (find : ℕ → Name → ℕ) (finds : Searches search fs find) where
  find_null : (n : Name) → find null n ≡ null
  unfolding vfs_finddir
  find_null n = some-injective (finds null n)
    where
      some-injective : some null ≡ some (find null n) → find null n ≡ null
      some-injective e = ground (arith, e)

  -- One step of the loop.
  abbrev step : ℕ → Name → ℕ
  step current token =
      if is_empty (before_slash token) then current else find current (before_slash token)

  step-search :
      (current : ℕ) (token : Name)
      → (if is_empty (before_slash token)
          then some current
          else vfs_finddir search fs current (before_slash token))
        ≡ some (step current token)
  step-search current token = ground (arith, finds current (before_slash token))

  follow-step :
      (current : ℕ) (token : Name)
      → follow find current (components token)
        ≡ follow find (step current token) (without_empty (tails (behind_slash token)))
  follow-step current token =
      ap (λ ns. follow find current (without_empty ns)) (split-before token)
      ∙ ap (follow find current)
          (without_empty-cons (before_slash token) (tails (behind_slash token)))
      ∙ elim (Bool-cases (is_empty (before_slash token))) [ inl h ↦ rw h refl | inr h ↦ rw h refl ]

  resolve_from-stop :
      (fuel current : ℕ) (token : Name)
      → (is_empty token || current == null) ≡ true
      → resolve_from (suc fuel) search fs current token ≡ some current
  unfolding resolve_from
  resolve_from-stop fuel current token h = ground (arith, h)

  resolve_from-last :
      (fuel current : ℕ) (token : Name)
      → (is_empty token || current == null) ≡ false
      → behind_slash token ≡ none
      → resolve_from (suc fuel) search fs current token ≡ some (step current token)
  unfolding resolve_from
  resolve_from-last fuel current token h e = ground (arith, h, step-search current token, e)

  resolve_from-more :
      (fuel current : ℕ) (token rest : Name)
      → (is_empty token || current == null) ≡ false
      → behind_slash token ≡ some rest
      → resolve_from (suc fuel) search fs current token ≡ (
          if step current token == null
          then some null
          else resolve_from fuel search fs (step current token) rest)
  unfolding resolve_from
  resolve_from-more fuel current token rest h e = ground (arith, h, step-search current token, e)

  stopped :
      (current : ℕ) (token : Name)
      → (is_empty token || current == null) ≡ true
      → follow find current (components token) ≡ current
  stopped current [] h = refl
  stopped current (c ∷ cs) h =
      let e : current ≡ null = ground (arith, h) in
      subst (λ k. follow find k (components (c ∷ cs)) ≡ k) (sym e)
        (follow-null find find_null (components (c ∷ cs)))

  resolve_from-follow :
      (fuel current : ℕ) (token : Name)
      → length token < fuel
      → resolve_from fuel search fs current token ≡ some (follow find current (components token))
  resolve_from-follow zero current token h = elim h [ ]
  resolve_from-follow (suc fuel) current token h =
      elim (Bool-cases (is_empty token || current == null)) [
        | inl stop ↦
            resolve_from-stop fuel current token stop ∙ ap some (sym (stopped current token stop))
        | inr go ↦ elim (Option-cases (behind_slash token)) [
          | inl last ↦
              resolve_from-last fuel current token go last
              ∙ ap some (
                  sym (
                    follow-step current token
                    ∙ ap (λ t. follow find (step current token) (without_empty (tails t))) last))
          | inr more ↦
              let rest = more.0 in
              let ih =
                resolve_from-follow fuel (step current token) rest
                  (omega (arith, h, behind_slash-shorter token rest more.1)) in
              resolve_from-more fuel current token rest go more.1
              ∙ null_or_on (step current token) rest
                  (resolve_from fuel search fs (step current token) rest) ih
              ∙ ap some (
                  sym (
                    follow-step current token
                    ∙ ap (λ t. follow find (step current token) (without_empty (tails t))) more.1))
        ]
      ]
    where
      null_or_on :
          (k : ℕ) (rest : Name) (r : Option ℕ)
          → r ≡ some (follow find k (components rest))
          → (if k == null then some null else r) ≡ some (follow find k (components rest))
      null_or_on k rest r e = elim (Bool-cases (k == null)) [
        | inl h ↦ rw h (
            subst (λ q. some null ≡ some (follow find q (components rest))) (zero_of k h)
              (ap some (sym (follow-null find find_null (components rest)))))
        | inr h ↦ rw h e
      ]
        where
          zero_of : (k : ℕ) → (k == null) ≡ true → null ≡ k
          zero_of k h = ground arith

  components-skip : (path : Name) → components (skip_slash path) ≡ components path
  components-skip [] = refl
  components-skip (c ∷ cs) = elim (Bool-cases (c == slash)) [
    | inl h ↦ rw h refl
    | inr h ↦ rw h (rw h refl)
  ]

  skip_slash-le : (path : Name) → length (skip_slash path) ≤ length path
  skip_slash-le [] = omega arith
  skip_slash-le (c ∷ cs) = ground arith

  -- Let the searches from each node end, with `find` for their results, and let the path be shorter
  -- than 1023 bytes. Then `vfs_resolve_path` returns the node that the components of the path lead
  -- to from the root, the empty ones between slashes left out, or null if one of them is not found;
  -- and null if the path or the root is null.
  pub vfs_resolve_path_lem :
      (v : Vfs) (has_path : Bool) (path : Name)
      → length path < path_max - 1
      → vfs_resolve_path search fs v has_path path
        ≡ some (if has_path then follow find v.vfs_root (components path) else null)
  unfolding vfs_resolve_path
  vfs_resolve_path_lem v false path h = refl
  vfs_resolve_path_lem v true path h = elim (Bool-cases (v.vfs_root == null)) [
    | inl no_root ↦
        let e : v.vfs_root ≡ null = ground (arith, no_root) in
        rw no_root (
          subst (λ k. some null ≡ some (follow find k (components path))) (sym e)
            (ap some (sym (follow-null find find_null (components path)))))
    | inr root ↦ elim (Bool-cases (names_equal path (slash ∷ []))) [
      | inl top ↦
          let e = names_equal_sound path (slash ∷ []) top in
          rw root (
            rw top (
              subst (λ p. some v.vfs_root ≡ some (follow find v.vfs_root (components p))) (sym e)
                refl))
      | inr inner ↦
          let fits : leb (path_max - 1) (length path) ≡ false = ground (arith, h) in
          let found =
            resolve_from-follow (length path + 1) v.vfs_root (skip_slash path)
              (omega (arith, skip_slash-le path)) in
          rw root (
            rw inner (
              rw fits (found ∙ ap (λ ns. some (follow find v.vfs_root ns)) (components-skip path))))
    ]
  ]
