-- ===== src/Fs/Save.antt =====
-- fs_save_to_disk of src/fs.c.
use os_itsc.Base.{
  ℕ, ◌+◌, ◌-◌, ◌^◌, min, Bool, ◌&&◌, not, List, [], ◌∷◌, get_or, ltb, leb, ◌==◌, if◌then◌else◌,
  update, for_range,
}
use os_itsc.Allocator.{Allocator}
use os_itsc.Console.{text}
use os_itsc.Disk.{Sectors, Buffer, sector_size, ata_write_sector}
use os_itsc.Fs.{is_file, Info, Node, node, Nodes, nil, cons, Level, rejoin, Fs, say}
use os_itsc.Fs.Table.{
  Table, DiskEntry, max_disk_nodes, fs_start_sector, data_start_sector, kind_word, strcpy,
  table_bytes,
}

-- `*current_idx`, the table, and the disk.
pub record Saving : Type 0 where
  pub current_idx : ℕ
  pub table : Table
  pub disk : Sectors

-- The first 512 bytes of the contents, and zeros behind them.
abbrev pub sector_of : Info → Buffer
sector_of i k = if ltb k (min i.size sector_size) then get_or i.contents k 0 else 0

abbrev pub has_data : Info → Bool
has_data i = is_file i.kind && not (i.size == 0) && not (i.data_ptr == 0)

-- The entry of a node at `index`; `old` is what stood in the table.
abbrev pub entry_of : Info → ℕ → ℕ → DiskEntry → DiskEntry
entry_of i parent index old = record {
  name = strcpy old.name i.name;
  kind = kind_word i.kind;
  is_used = 1;
  parent_idx = parent;
  size = i.size;
  data_sector = if has_data i then data_start_sector + index else 0;
}

-- What `serialize_node` does for the node itself; the table has room.
unfoldable pub save_info : Info → ℕ → Saving → Saving
unfolding strcpy ata_write_sector
save_info i parent s =
    let index = s.current_idx in
    record {
      current_idx = index + 1;
      table = update s.table index (entry_of i parent index (s.table index));
      disk =
          if has_data i
          then ata_write_sector (data_start_sector + index) (sector_of i) s.disk
          else s.disk;
    }

-- `serialize_node` for a node that is there, and its loop over the children.
unfoldable mutual
  unfolding save_info

  pub serialize_node : Node → ℕ → Saving → Saving
  serialize_node (node i ks) parent s =
      let saved = serialize_children ks s.current_idx (save_info i parent s) in
      if leb max_disk_nodes s.current_idx then s else saved

  pub serialize_children : Nodes → ℕ → Saving → Saving
  serialize_children nil parent s = s
  serialize_children (cons k ks) parent s = serialize_children ks parent (serialize_node k parent s)

-- The root of the tree with the current directory in its place.
unfoldable pub root_from : List Level → Node → Node
unfolding rejoin
root_from [] k = k
root_from (l ∷ ls) k = root_from ls (node l.info (rejoin l.before (cons k l.behind)))

-- -1 as a word.
abbrev pub no_parent : ℕ
no_parent = 2 ^ 32 - 1

-- The loop that clears the table; `stale` is what stood on the stack.
unfoldable pub clear_table : Table → Table
clear_table stale =
    for_range max_disk_nodes 0
      (λ i t.
        update t i
          (record (t i) { is_used = 0; parent_idx = no_parent; size = 0; data_sector = 0 }))
      stale

unfoldable pub save_root : Table → Node → Sectors → Sectors
unfolding clear_table serialize_node table_bytes ata_write_sector
save_root stale k disk =
    let s =
      serialize_node k no_parent
        (record { current_idx = 0; table = clear_table stale; disk = disk }) in
    ata_write_sector fs_start_sector (table_bytes s.table) s.disk

module _ (A : Allocator) where
  abbrev pub root : Fs A → Node
  root fs = root_from fs.above (node fs.here fs.children)

  unfoldable pub fs_save_to_disk : Table → Fs A → Sectors → Fs A × Sectors
  unfolding root_from save_root
  fs_save_to_disk stale fs disk = (
    say A (text "Structura si datele au fost salvate pe disc.\n") fs,
    save_root stale (root fs) disk,
  )
