-- ===== src/Fs/Trip.antt =====
-- What fs_save_to_disk and fs_init of src/fs.c keep of a tree.
pub mod Bytes
pub mod Rows
pub mod Kept
pub mod Fields
pub mod Entries
pub mod Loop
pub mod Links
pub mod Forests
pub mod Back
use os_itsc.Base.{
  ℕ, zero, suc, ◌+◌, ◌≤◌, ◌<◌, ◌≡◌, Bool, true, false, List, [], ◌∷◌, ◌++◌, length, ◌==◌,
}
use os_itsc.Allocator.{Allocator}
use os_itsc.Strings.Compare.{is_string}
use os_itsc.Disk.{sector_size}
use os_itsc.Fs.{
  max_name_len, EntryType, fs_file, fs_directory, is_file, Info, Node, node, Nodes, nil, cons,
}
use os_itsc.Fs.Table.{max_disk_nodes}

-- The nodes of a list of trees.
unfoldable pub count : Nodes → ℕ
count nil = 0
count (cons (node i inner) ks) = suc (count inner + count ks)

-- A node without the addresses of it and of its contents.
abbrev pub plain : Info → Info
plain i = record i { addr = 0; data_ptr = 0 }

unfoldable pub plain_all : Nodes → Nodes
plain_all nil = nil
plain_all (cons (node i inner) ks) = cons (node (plain i) (plain_all inner)) (plain_all ks)

-- The same trees without addresses, each list of children reversed and put on `onto`.
unfoldable pub mirror : Nodes → Nodes → Nodes
mirror nil onto = onto
mirror (cons (node i inner) ks) onto = mirror ks (cons (node (plain i) (mirror inner nil)) onto)

-- What `create_node` and `fs_write_file` make: a name that fits, at most a sector of contents in a
-- file, and none in a directory.
unfoldable pub FitsKind : EntryType → Info → Type 0
FitsKind fs_file i =
    length i.contents ≡ i.size
    × i.size ≤ sector_size
    × ((i.size == 0) ≡ false → (i.data_ptr == 0) ≡ false)
FitsKind fs_directory i = i.contents ≡ [] × i.size ≡ 0

abbrev pub IsStorable : Info → Type 0
IsStorable i = is_string i.name ≡ true × length i.name < max_name_len × FitsKind i.kind i

unfoldable pub AllStorable : Nodes → Type 0
unfolding FitsKind
AllStorable nil = Unit
AllStorable (cons (node i inner) ks) = IsStorable i × AllStorable inner × AllStorable ks
