-- ===== src/Fs/Creation.antt =====
-- fs_create_file of src/fs.c, and what comes after it under the same name.
use os_itsc.Base.{
  ℕ, ◌-◌, ◌<◌, ◌≡◌, refl, sym, ap, subst, ◌∙◌, inl, inr, true, false, Option, none, some, List, ℤ,
  pos, minus_one, failed≢ok, length, take, take_all, ◌==◌, Bool-cases, Option-cases, arith,
}
use os_itsc.Allocator.{Allocator}
use os_itsc.Console.{text}
use os_itsc.Strings.Compare.{strcmp_same}
use os_itsc.Fs.{
  fs_file, max_name_len, node_size, Info, node, nil, same_name, blank_info, rejoin, Fs, say,
  create_node, add_child, add_new,
}
use os_itsc.Fs.Commands.{
  find_split, is_named, free_node_recursive, is_parent_of, fs_rm, fs_create_file,
}

short_name :
    (name : List ℕ)
    → length name < max_name_len
    → same_name name (take (max_name_len - 1) name) ≡ true
unfolding same_name
short_name name h = rw (take_all 31 name (omega arith), same_name, strcmp_same name) refl

module _ (A : Allocator) where
  -- The state with a new file of that name.
  abbrev with_file : List ℕ → Fs A → Fs A
  with_file name fs =
      let (p, h) = A.malloc node_size fs.heap in
      add_child A (blank_info p name fs_file) (record fs { heap = h })

  data Created (name : List ℕ) (fs : Fs A) : ℤ × Fs A → Type 0 where
    created : Created name fs (pos 0, with_file name fs)
    refused : {t : Fs A} → Created name fs (minus_one, t)

  no_node :
      (name : List ℕ) (h : A.State)
      → ((A.malloc node_size h).0 == 0) ≡ true
      → create_node A name fs_file h ≡ (none, (A.malloc node_size h).1)
  unfolding create_node
  no_node name h m = rw m refl

  new_node :
      (name : List ℕ) (h : A.State)
      → ((A.malloc node_size h).0 == 0) ≡ false
      → create_node A name fs_file h
        ≡ (some (blank_info (A.malloc node_size h).0 name fs_file), (A.malloc node_size h).1)
  unfolding create_node
  new_node name h m = rw m refl

  new_added :
      (name : List ℕ) (fs : Fs A)
      → ((A.malloc node_size fs.heap).0 == 0) ≡ false
      → add_new A name fs_file fs ≡ (pos 0, with_file name fs)
  unfolding add_new
  new_added name fs m =
      ap
        (λ (z : Option Info × A.State).
          let t : Fs A = record fs { heap = z.1 } in
          let out : ℤ × Fs A = elim z.0 [
            | none ↦ (minus_one, t)
            | some i ↦ (pos 0, add_child A i t)
          ] in
          out)
        (new_node name fs.heap m)

  fs_create_file-Created : (name : List ℕ) (fs : Fs A) → Created name fs (fs_create_file A name fs)
  unfolding fs_create_file add_new
  fs_create_file-Created name fs =
      elim (Option-cases (find_split (is_named name) nil fs.children)) [
        | inr (o, e) ↦ rw (fs_create_file, e) refused
        | inl e ↦ elim (Bool-cases ((A.malloc node_size fs.heap).0 == 0)) [
          | inl m ↦ rw (fs_create_file, e, add_new, no_node name fs.heap m) refused
          | inr m ↦ rw (fs_create_file, e, new_added name fs m) created
        ]
      ]

  Created-only :
      {name : List ℕ} {fs : Fs A} {o : ℤ × Fs A}
      → Created name fs o
      → o.0 ≡ pos 0
      → o ≡ (pos 0, with_file name fs)
  Created-only created e = refl
  Created-only refused e = absurd (failed≢ok e)

  found_first :
      (name : List ℕ) (fs : Fs A)
      → length name < max_name_len
      → find_split (is_named name) nil (with_file name fs).children
        ≡ some (nil, node (blank_info (A.malloc node_size fs.heap).0 name fs_file) nil, fs.children)
  unfolding find_split
  found_first name fs h = rw (short_name name h) refl

  again :
      (name : List ℕ) (fs : Fs A)
      → length name < max_name_len
      → fs_create_file A name (with_file name fs)
        ≡ (minus_one, say A (text "Fisierul sau directorul exista deja.\n") (with_file name fs))
  unfolding fs_create_file
  again name fs h = rw (fs_create_file, found_first name fs h) refl

  removed :
      (name : List ℕ) (fs : Fs A)
      → length name < max_name_len
      → same_name name (text "root") ≡ false
      → is_parent_of A (A.malloc node_size fs.heap).0 fs ≡ false
      → let (p, h) = A.malloc node_size fs.heap in
        fs_rm A name (with_file name fs)
        ≡ say A
            (text "Elementul a fost sters cu succes din memorie.\n")
            (record fs { heap = A.free p h })
  unfolding fs_rm rejoin free_node_recursive
  removed name fs h other low = rw (other, found_first name fs h, low) refl

  -- A second `fs_create_file` of a name of less than 32 bytes reports -1 and changes nothing but what
  -- is printed.
  fs_create_file_twice :
      (name : List ℕ) (fs : Fs A)
      → length name < max_name_len
      → (fs_create_file A name fs).0 ≡ pos 0
      → let t : Fs A = (fs_create_file A name fs).1 in
        fs_create_file A name t
        ≡ (minus_one, say A (text "Fisierul sau directorul exista deja.\n") t)
  fs_create_file_twice name fs h e =
      subst
        (λ (o : ℤ × Fs A).
          fs_create_file A name o.1
          ≡ (minus_one, say A (text "Fisierul sau directorul exista deja.\n") o.1))
        (sym (Created-only (fs_create_file-Created name fs) e)) (again name fs h)

  -- Deleting the file just made, of a name of less than 32 bytes that is not "root", at an address
  -- that no directory in use has: the tree is what it was, and the node goes back to the heap.
  pub fs_rm-fs_create_file :
      (name : List ℕ) (fs : Fs A)
      → length name < max_name_len
      → same_name name (text "root") ≡ false
      → is_parent_of A (A.malloc node_size fs.heap).0 fs ≡ false
      → (fs_create_file A name fs).0 ≡ pos 0
      → let (p, h) = A.malloc node_size fs.heap in
        fs_rm A name (fs_create_file A name fs).1
        ≡ say A
            (text "Elementul a fost sters cu succes din memorie.\n")
            (record fs { heap = A.free p h })
  fs_rm-fs_create_file name fs h other low e =
      ap (λ (o : ℤ × Fs A). fs_rm A name o.1) (Created-only (fs_create_file-Created name fs) e)
      ∙ removed name fs h other low
