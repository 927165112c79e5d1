-- ===== src/Fs/Places.antt =====
-- The tree as a whole under fs_cd of src/fs.c, and fs_cd there and back.
use mathlib.Core.Bool.{false≢true}
use os_itsc.Base.{
  ℕ, ◌≡◌, refl, sym, ap, ◌∙◌, inl, inr, ◌≢◌, subst, not, ◌&&◌, Option-cases, Bool, true, false,
  Option, none, some, List, [], ◌∷◌, ℤ, pos, negsuc, minus_one, Bool-cases, arith,
}
use os_itsc.Allocator.{Allocator}
use os_itsc.Console.{text}
use os_itsc.Fs.{
  Info, Node, node, Nodes, nil, cons, Level, same_name, info_of, rejoin, Fs, say, is_file,
}
use os_itsc.Strings.{strcmp}
use os_itsc.Fs.Commands.{find_split, is_dir_named, go_up, go_down, fs_cd}
use os_itsc.Fs.Save.{root_from, root}

-- Where a child is found, and that the children are those before it, it, and those behind.
pub data Found (test : Info → Bool) (before ks : Nodes)
    : Option (Nodes × Node × Nodes) → Type 0 where
  found :
      {b : Nodes} {k : Node} {c : Nodes}
      → test (info_of k) ≡ true
      → rejoin b (cons k c) ≡ rejoin before ks
      → Found test before ks (some (b, k, c))
  missing : Found test before ks none

moved :
    {test : Info → Bool} {before ks : Nodes} {k : Node} {o : Option (Nodes × Node × Nodes)}
    → Found test (cons k before) ks o
    → Found test before (cons k ks) o
unfolding rejoin
moved (found t e) = found t e
moved missing = missing

pub find_split-Found :
    (test : Info → Bool) (before ks : Nodes) → Found test before ks (find_split test before ks)
unfolding find_split
find_split-Found test before nil = missing
find_split-Found test before (cons k ks) = elim (Bool-cases (test (info_of k))) [
  | inl yes_it ↦ rw yes_it (found yes_it refl)
  | inr not_it ↦ rw not_it (moved (find_split-Found test (cons k before) ks))
]

-- No child is a directory of that name.
abbrev pub no_directory : List ℕ → Nodes → Bool
no_directory name nil = true
no_directory name (cons k ks) = not (is_dir_named name (info_of k)) && no_directory name ks

find_split-none :
    (name : List ℕ) (before ks : Nodes)
    → find_split (is_dir_named name) before ks ≡ none
    → no_directory name ks ≡ true
unfolding find_split
find_split-none name before nil h = refl
find_split-none name before (cons k ks) h = elim (Bool-cases (is_dir_named name (info_of k))) [
  | inl here ↦ absurd (some_there (before, k, ks) (sym (found_here here) ∙ h))
  | inr not_it ↦ rw not_it (find_split-none name (cons k before) ks (sym (found_later not_it) ∙ h))
]
  where
    found_here :
        is_dir_named name (info_of k) ≡ true
        → find_split (is_dir_named name) before (cons k ks) ≡ some (before, k, ks)
    found_here e = rw (find_split, e) refl

    found_later :
        is_dir_named name (info_of k) ≡ false
        → find_split (is_dir_named name) before (cons k ks)
          ≡ find_split (is_dir_named name) (cons k before) ks
    found_later e = rw (find_split, e) refl

    some_there : (x : Nodes × Node × Nodes) → some x ≢ none
    some_there x e = false≢true (ap (λ o. elim o [ none ↦ true | some _ ↦ false ]) e)

module _ (A : Allocator) where
  root-go_up : (ls : List Level) (fs : Fs A) → fs.above ≡ ls → root A (go_up A ls fs) ≡ root A fs
  unfolding go_up root_from
  root-go_up [] fs e = refl
  root-go_up (l ∷ ls) fs e = rw e refl

  root-go_down :
      (b : Nodes) (k : Node) (c : Nodes) (fs : Fs A)
      → rejoin b (cons k c) ≡ fs.children
      → root A (go_down A b k c fs) ≡ root A fs
  unfolding root_from
  root-go_down b (node i ks) c fs e = ap (λ z. root_from fs.above (node fs.here z)) e

  cd-Found :
      (test : Info → Bool) (fs : Fs A) {o : Option (Nodes × Node × Nodes)}
      → Found test nil fs.children o
      → let t : ℤ × Fs A = elim o [
        | none ↦ (minus_one, say A (text "Director negasit.\n") fs)
        | some (before, k, behind) ↦ (pos 0, go_down A before k behind fs)
      ] in
        root A t.1 ≡ root A fs
  unfolding rejoin
  cd-Found test fs (found {b} {k} {c} t e) = root-go_down b k c fs e
  cd-Found test fs missing = refl

  -- Whatever the name, and whether it is found or not, `fs_cd` leaves the tree as it was.
  root-fs_cd : (name : List ℕ) (fs : Fs A) → root A (fs_cd A name fs).1 ≡ root A fs
  unfolding fs_cd
  root-fs_cd name fs = elim (Bool-cases (same_name name (text ".."))) [
    | inl up ↦ rw up (root-go_up fs.above fs refl)
    | inr down ↦
        rw down
          (cd-Found (is_dir_named name) fs (find_split-Found (is_dir_named name) nil fs.children))
  ]

  up_again :
      (b : Nodes) (k : Node) (c : Nodes) (fs : Fs A)
      → rejoin b (cons k c) ≡ fs.children
      → go_up A (go_down A b k c fs).above (go_down A b k c fs) ≡ fs
  unfolding go_up
  up_again b (node i ks) c fs e = ap (λ z. record fs { children = z }) e

  went_down :
      (test : Info → Bool) (fs : Fs A) {o : Option (Nodes × Node × Nodes)}
      → Found test nil fs.children o
      → let t : ℤ × Fs A = elim o [
        | none ↦ (minus_one, say A (text "Director negasit.\n") fs)
        | some (before, k, behind) ↦ (pos 0, go_down A before k behind fs)
      ] in
        t.0 ≡ pos 0 → (test t.1.here ≡ true) × (go_up A t.1.above t.1 ≡ fs)
  unfolding rejoin
  went_down test fs (found {b} {k = node i ks} {c} t e) r = (t, up_again b (node i ks) c fs e)
  went_down test fs missing r =
      absurd (false≢true (ap (λ (z : ℤ). elim z [ pos _ ↦ false | negsuc _ ↦ true ]) (sym r)))

  cd_up : (fs : Fs A) → fs_cd A (text "..") fs ≡ (pos 0, go_up A fs.above fs)
  unfolding fs_cd same_name strcmp
  cd_up fs = refl

  cd_other :
      (name : List ℕ) (fs : Fs A)
      → same_name name (text "..") ≡ false
      → fs_cd A name fs ≡ (elim (find_split (is_dir_named name) nil fs.children) [
        | none ↦ (minus_one, say A (text "Director negasit.\n") fs)
        | some (before, k, behind) ↦ (pos 0, go_down A before k behind fs)
      ])
  unfolding fs_cd
  cd_other name fs h = rw h refl

  -- What a `fs_cd` down comes to.
  pub data Entered (name : List ℕ) (fs : Fs A) : ℤ × Fs A → Type 0 where
    entered :
        {t : Fs A}
        → is_file t.here.kind ≡ false
        → same_name name t.here.name ≡ true
        → root A t ≡ root A fs
        → fs_cd A (text "..") t ≡ (pos 0, fs)
        → Entered name fs (pos 0, t)
    refused :
        {t : Fs A}
        → no_directory name fs.children ≡ true
        → root A t ≡ root A fs
        → Entered name fs (minus_one, t)

  dir_parts :
      (name : List ℕ) (i : Info)
      → is_dir_named name i ≡ true
      → (is_file i.kind ≡ false) × (same_name name i.name ≡ true)
  dir_parts name i h = (ground (arith, h), ground (arith, h))

  -- A `fs_cd` to another name than `..` gives 0 in a directory of that name, from where `fs_cd` to `..`
  -- leads back to the state before; or -1, where no child of the current directory is a directory of
  -- that name. The tree is the same in both cases.
  pub fs_cd-Entered :
      (name : List ℕ) (fs : Fs A)
      → same_name name (text "..") ≡ false
      → Entered name fs (fs_cd A name fs)
  unfolding fs_cd
  fs_cd-Entered name fs other =
      elim (Option-cases (find_split (is_dir_named name) nil fs.children)) [
        | inl nobody ↦
            rw (fs_cd, other, nobody) (refused (find_split-none name nil fs.children nobody) refl)
        | inr ((b, k, c), e) ↦
            let f =
              subst (Found (is_dir_named name) nil fs.children) e
                (find_split-Found (is_dir_named name) nil fs.children) in
            rw (fs_cd, other, e) (down b k c f)
      ]
    where
      down :
          (b : Nodes) (k : Node) (c : Nodes)
          → Found (is_dir_named name) nil fs.children (some (b, k, c))
          → Entered name fs (pos 0, go_down A b k c fs)
      down b (node i ks) c f =
          let w = went_down (is_dir_named name) fs f refl in
          let (dir, same) = dir_parts name i w.0 in
          entered dir same (cd-Found (is_dir_named name) fs f)
            (cd_up (go_down A b (node i ks) c fs) ∙ ap (λ z. (pos 0, z)) w.1)
