-- ===== src/Fs/Restore.antt =====
-- fs_init of src/fs.c.
use os_itsc.Base.{
  ℕ, zero, suc, ◌+◌, ◌-◌, Bool, true, false, ◌&&◌, not, Option, none, some, List, [], ◌∷◌, ◌++◌,
  ltb, ◌==◌, if◌then◌else◌, update,
}
use os_itsc.Allocator.{Allocator}
use os_itsc.Console.{text, uart_bytes}
use os_itsc.Disk.{Sectors, sector_size, ata_read_sector}
use os_itsc.Fs.{
  fs_directory, is_file, Info, node, Nodes, nil, cons, same_name, bytes_from, create_node, Fs,
}
use os_itsc.Fs.Table.{
  Table, DiskEntry, max_disk_nodes, fs_start_sector, kind_of, entry_at, table_bytes, string_at,
}

-- The table that `fs_init` reads: one sector over what stood on the stack.
unfoldable pub read_table : Table → Sectors → Table
unfolding ata_read_sector table_bytes entry_at
read_table stale disk = entry_at (ata_read_sector fs_start_sector (table_bytes stale) disk)

abbrev pub name_of : DiskEntry → List ℕ
name_of e = string_at 32 0 e.name

-- `table[0].is_used == 1 && m_strcmp(table[0].name, "root") == 0`
unfoldable pub is_saved : Table → Bool
unfolding string_at same_name
is_saved t = (t 0).is_used == 1 && same_name (name_of (t 0)) (text "root")

-- `nodes_map`, by index; `none` for NULL.
abbrev pub NodesMap : Type 0
NodesMap = ℕ → Option Info

abbrev pub is_there : Option Info → Bool
is_there none = false
is_there (some _) = true

-- The loop that links the nodes, from index `i` on: the children of each index, the first one first.
unfoldable pub link_from : ℕ → ℕ → Table → NodesMap → (ℕ → List ℕ) → ℕ → List ℕ
link_from zero i t m kids = kids
link_from (suc n) i t m kids =
    let p = (t i).parent_idx in
    let linked = update kids p (i ∷ kids p) in
    link_from n (i + 1) t m (
      if not ((t i).is_used == 0) && is_there (m i) && ltb p max_disk_nodes && is_there (m p)
      then linked
      else kids)

-- The tree that the links make below a list of nodes, to a depth.
unfoldable pub forest : ℕ → NodesMap → (ℕ → List ℕ) → List ℕ → Nodes
forest zero m kids is = nil
forest (suc n) m kids [] = nil
forest (suc n) m kids (i ∷ is) =
    let rest = forest (suc n) m kids is in
    elim (m i) [ none ↦ rest | some info ↦ cons (node info (forest n m kids (kids i))) rest ]

module _ (A : Allocator) where
  -- The node, the heap and the serial line after one entry.
  pub record Restoring : Type 0 where
    pub map : NodesMap
    pub heap : A.State
    pub serial : List ℕ

  -- The contents of a file: `none` for a size past the sector, where the buffer is read out of bounds.
  unfoldable pub restore_data :
      DiskEntry → Info → Sectors → A.State → Option (Info × A.State × Bool)
  unfolding ata_read_sector bytes_from
  restore_data e i disk h =
      let (p, h') = A.malloc e.size h in
      let sector = ata_read_sector e.data_sector (λ _. 0) disk in
      let full = record i { data_ptr = p; size = e.size; contents = bytes_from e.size 0 sector } in
      if p == 0
      then some (i, h', true)
      else if ltb sector_size e.size
      then none
      else some (full, h', false)

  -- The body of the loop over the table. A word for the kind that is neither that of a file nor that
  -- of a directory is followed no further, and gives `none`.
  unfoldable pub restore_entry : ℕ → DiskEntry → Sectors → Restoring → Option Restoring
  unfolding create_node string_at restore_data
  restore_entry index e disk r =
      let (made, h) = create_node A (name_of e) (kind_of e.kind) r.heap in
      elim made [
        | none ↦ some (if e.is_used == 0 then r else record r { heap = h })
        | some i ↦
            let kept = λ (info : Info) (h' : A.State). record r {
              map = update r.map index (some info);
              heap = h';
            } in
            if e.is_used == 0
            then some r
            else if ltb 1 e.kind
            then none
            else if is_file (kind_of e.kind) && not (e.size == 0)
            then (elim (restore_data e i disk h) [
              | none ↦ none
              | some (info, h', failed) ↦
                  let t = kept info h' in
                  some (
                    if failed
                    then record t {
                      serial =
                          t.serial
                          ++ uart_bytes
                              (text "FS Eroare: Memorie insuficienta la restaurare fisier.\n");
                    }
                    else t)
            ])
            else some (kept i h)
      ]

  -- The loop from index `i` on.
  unfoldable pub restore_from : ℕ → ℕ → Table → Sectors → Restoring → Option Restoring
  unfolding restore_entry
  restore_from zero i t disk r = some r
  restore_from (suc n) i t disk r = elim (restore_entry i (t i) disk r) [
    | none ↦ none
    | some next ↦ restore_from n (i + 1) t disk next
  ]

  -- What `fs_init` ends in: no root, since there is no memory for it, or a tree.
  pub data Start : Type 0 where
    no_root : A.State → Start
    ready : Fs A → Start

  abbrev pub started : Option Info → Nodes → A.State → List ℕ → Start
  started none ks h out = no_root h
  started (some i) ks h out =
      ready (record { above = []; here = i; children = ks; heap = h; serial = out })

  -- The links of the nodes that are restored; the table has 16 entries, so no path is longer.
  abbrev pub linked_children : Table → NodesMap → Nodes
  linked_children t m =
      let kids = link_from (max_disk_nodes - 1) 1 t m (λ _. []) in
      forest max_disk_nodes m kids (kids 0)

  unfoldable pub fs_init : Table → Sectors → A.State → List ℕ → Option Start
  unfolding read_table is_saved restore_from link_from forest create_node
  fs_init stale disk h out =
      let t = read_table stale disk in
      let said = out ++ uart_bytes (text "FS: Restaurare sistem de fisiere si date...\n") in
      let (made, h') = create_node A (text "root") fs_directory h in
      let fresh = started made nil h' (out ++ uart_bytes (text "Creare sistem nou...\n")) in
      if is_saved t
      then (elim (restore_from max_disk_nodes 0 t disk
          (record { map = λ _. none; heap = h; serial = said })) [
            | none ↦ none
            | some r ↦ some (started (r.map 0) (linked_children t r.map) r.heap r.serial)
          ])
      else some fresh
