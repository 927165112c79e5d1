-- ===== src/Fs/Commands.antt =====
-- The commands of src/fs.c that look through the children of the current directory.
use os_itsc.Base.{
  ℕ, Bool, true, false, ◌&&◌, ◌||◌, not, Option, none, some, List, [], ◌∷◌, ◌++◌, ℤ, pos, minus_one,
  ltb, ◌==◌, if◌then◌else◌,
}
use os_itsc.Allocator.{Allocator}
use os_itsc.Console.{text}
use os_itsc.Fs.{
  fs_file, is_file, Info, Node, node, Nodes, nil, cons, Level, same_name, info_of, rejoin,
  bytes_from, Fs, say, add_new,
}

-- The children split at the first one that a test accepts: those before it, the nearest first, the
-- child, and those behind.
unfoldable pub find_split : (Info → Bool) → Nodes → Nodes → Option (Nodes × Node × Nodes)
find_split test before nil = none
find_split test before (cons k ks) =
    let rest = find_split test (cons k before) ks in
    if test (info_of k) then some (before, k, ks) else rest

-- The tests of `fs_cd` and `fs_write_file`.
abbrev pub is_dir_named : List ℕ → Info → Bool
is_dir_named name i = not (is_file i.kind) && same_name name i.name

abbrev pub is_file_named : List ℕ → Info → Bool
is_file_named name i = is_file i.kind && same_name name i.name

abbrev pub is_named : List ℕ → Info → Bool
is_named name i = same_name name i.name

module _ (A : Allocator) where
  -- `if (current_dir->parent) current_dir = current_dir->parent;`
  unfoldable pub go_up : List Level → Fs A → Fs A
  unfolding rejoin
  go_up [] fs = fs
  go_up (l ∷ ls) fs = record fs {
    above = ls;
    here = l.info;
    children = rejoin l.before (cons (node fs.here fs.children) l.behind);
  }

  -- `current_dir = curr;`
  abbrev pub go_down : Nodes → Node → Nodes → Fs A → Fs A
  go_down before (node i ks) behind fs = record fs {
    above = record { info = fs.here; before = before; behind = behind } ∷ fs.above;
    here = i;
    children = ks;
  }

  unfoldable pub fs_cd : List ℕ → Fs A → ℤ × Fs A
  unfolding find_split same_name go_up
  fs_cd name fs =
      if same_name name (text "..")
      then (pos 0, go_up fs.above fs)
      else elim (find_split (is_dir_named name) nil fs.children) [
        | none ↦ (minus_one, say A (text "Director negasit.\n") fs)
        | some (before, k, behind) ↦ (pos 0, go_down before k behind fs)
      ]

  -- The loop of `fs_ls`.
  unfoldable pub list_children : Nodes → Fs A → Fs A
  list_children nil fs = fs
  list_children (cons k ks) fs =
      let shown = if is_file (info_of k).kind then text "[FILE] " else text "[DIR] " in
      list_children ks (say A (text "\n") (say A (info_of k).name (say A shown fs)))

  unfoldable pub fs_ls : Fs A → Fs A
  unfolding list_children
  fs_ls fs =
      list_children fs.children
        (say A (text "\n") (say A fs.here.name (say A (text "Locatie: ") fs)))

  -- `free_node_recursive`: the children, the contents, the node.
  unfoldable mutual
    pub free_node_recursive : Node → A.State → A.State
    free_node_recursive (node i ks) h =
        let freed = free_nodes ks h in
        let dropped = if i.data_ptr == 0 then freed else A.free i.data_ptr freed in
        A.free i.addr dropped

    pub free_nodes : Nodes → A.State → A.State
    free_nodes nil h = h
    free_nodes (cons k ks) h = free_nodes ks (free_node_recursive k h)

  -- `is_parent_of(target, current_dir)`: the address is that of the directory or of one above it.
  unfoldable pub is_above : ℕ → List Level → Bool
  is_above target [] = false
  is_above target (l ∷ ls) = l.info.addr == target || is_above target ls

  abbrev pub is_parent_of : ℕ → Fs A → Bool
  is_parent_of target fs = fs.here.addr == target || is_above target fs.above

  unfoldable pub fs_rm : List ℕ → Fs A → Fs A
  unfolding find_split same_name rejoin free_node_recursive is_above
  fs_rm name fs =
      if same_name name (text "root")
      then say A (text "Directorul root nu poate fi sters\n") fs
      else elim (find_split (is_named name) nil fs.children) [
        | none ↦ say A (text "Fisierul sau directorul nu a fost gasit\n") fs
        | some (before, k, behind) ↦
            if is_parent_of (info_of k).addr fs
            then say A (text "Eroare: Nu se poate sterge un director aflat in utilizare.\n") fs
            else say A (text "Elementul a fost sters cu succes din memorie.\n") (record fs {
              children = rejoin before behind;
              heap = free_node_recursive k fs.heap;
            })
      ]

  unfoldable pub fs_create_file : List ℕ → Fs A → ℤ × Fs A
  unfolding find_split same_name add_new
  fs_create_file name fs = elim (find_split (is_named name) nil fs.children) [
    | some _ ↦ (minus_one, say A (text "Fisierul sau directorul exista deja.\n") fs)
    | none ↦ add_new A name fs_file fs
  ]

  -- `fs_write_file` for the file that is found. `content` is `none` for NULL. The first result is
  -- what is returned, the second the file, the third whether `kmalloc` has failed.
  unfoldable pub write_info : Option (ℕ → ℕ) → ℕ → Info → A.State → ℤ × Info × A.State × Bool
  unfolding bytes_from
  write_info content size i h =
      let dropped =
        if i.data_ptr == 0 then i else record i { data_ptr = 0; size = 0; contents = [] } in
      let h1 = if i.data_ptr == 0 then h else A.free i.data_ptr h in
      let (p, h2) = A.malloc size h1 in
      let filled = λ (c : ℕ → ℕ). record dropped {
        data_ptr = p;
        size = size;
        contents = bytes_from size 0 c;
      } in
      elim content [
        | none ↦ (pos 0, dropped, h1, false)
        | some c ↦
            if size == 0
            then (pos 0, dropped, h1, false)
            else if p == 0
            then (minus_one, record dropped { data_ptr = 0 }, h2, true)
            else (pos 0, filled c, h2, false)
      ]

  -- The child with other fields.
  abbrev pub with_info : Info → Node → Node
  with_info i (node _ ks) = node i ks

  unfoldable pub fs_write_file : List ℕ → Option (ℕ → ℕ) → ℕ → Fs A → ℤ × Fs A
  unfolding find_split same_name rejoin write_info
  fs_write_file name content size fs =
      if ltb 512 size
      then (minus_one, say A (text "Eroare: Dimensiunea maxima este de 512 octeti.\n") fs)
      else elim (find_split (is_file_named name) nil fs.children) [
        | none ↦
            (minus_one, say A (text "Eroare: Fisierul nu a fost gasit in directorul curent.\n") fs)
        | some (before, k, behind) ↦
            let (r, i, h, failed) = write_info content size (info_of k) fs.heap in
            let t = record fs {
              children = rejoin before (cons (with_info i k) behind);
              heap = h;
            } in
            (
              r,
              if failed
                  then say A
                      (text "FS_DEBUG: EROARE! kmalloc a returnat NULL (lipsa memorie heap).\n") t
                  else t,
            )
      ]

  -- What `fs_cat` prints of the child that is found.
  unfoldable pub cat_info : Info → Fs A → Fs A
  cat_info i fs =
      if not (is_file i.kind)
      then say A (text "Eroare: Acesta este un director, nu un fisier.\n") fs
      else if i.size == 0 || i.data_ptr == 0
      then say A (text "(fisierul este gol)\n") fs
      else say A (text "\n") (record fs { serial = fs.serial ++ i.contents })

  unfoldable pub fs_cat : List ℕ → Fs A → Fs A
  unfolding find_split same_name cat_info
  fs_cat name fs = elim (find_split (is_named name) nil fs.children) [
    | none ↦ say A (text "Eroare: Fisierul nu a fost gasit.\n") fs
    | some (before, k, behind) ↦ cat_info (info_of k) fs
  ]
