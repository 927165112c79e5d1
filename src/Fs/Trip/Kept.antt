-- ===== src/Fs/Trip/Kept.antt =====
-- The table and the sectors that fs_init of src/fs.c finds after fs_save_to_disk.
use os_itsc.Base.{
  ℕ, zero, suc, ◌+◌, ◌≤◌, ◌<◌, ◌^◌, ◌≡◌, refl, sym, ap, ◌∙◌, subst, ◌⊎◌, update, true, false, List,
  [], ◌∷◌, length, ltb, ◌==◌, inl, inr, Bool-cases, arith, for_range,
}
use os_itsc.Disk.{Sectors, ata_write_sector}
use os_itsc.Fs.{max_name_len, EntryType, Info, node, Nodes, nil, cons, fs_file, fs_directory}
use os_itsc.Fs.Table.{
  Table, DiskEntry, kind_word, field, table_bytes, data_start_sector, max_disk_nodes,
}
use os_itsc.Fs.Save.{Saving, has_data, no_parent, clear_table, serialize_children}
use os_itsc.Fs.Restore.{read_table}
use os_itsc.Fs.Trip.{count, IsStorable, AllStorable, FitsKind}
use os_itsc.Fs.Trip.Bytes.{HasWords, Same, read_table-Same, read_table_unused}
use os_itsc.Fs.Trip.Rows.{
  Row, rows, save_rows, length-rows, serialize_children-rows, Holds, AllHold, save_rows-AllHold,
  table_behind, Each, Each-append,
}

-- Each round of the clearing loop leaves the entries before it and clears one.
cleared :
    (n from j : ℕ) (t : Table)
    → (t j).is_used ≡ 0 ⊎ from ≤ j
    → j < from + n
    → (for_range n from
        (λ i t.
          update t i
            (record (t i) { is_used = 0; parent_idx = no_parent; size = 0; data_sector = 0 }))
        t
        j).is_used
      ≡ 0
unfolding for_range
cleared zero from j t (inl h) l = h
cleared zero from j t (inr g) l = absurd (omega arith)
cleared (suc n) from j t h l =
    cleared n (from + 1) j
      (update t from
        (record (t from) { is_used = 0; parent_idx = no_parent; size = 0; data_sector = 0 }))
      (elim (Bool-cases (j == from)) [
        | inl here ↦ inl (rw here refl)
        | inr there ↦ elim h [ inl u ↦ inl (rw there u) | inr g ↦ inr (ground arith) ]
      ])
      (omega arith)

clear_table_unused :
    (stale : Table) (j : ℕ) → j < max_disk_nodes → (clear_table stale j).is_used ≡ 0
unfolding clear_table
clear_table_unused stale j l = cleared max_disk_nodes 0 j stale (inr (omega arith)) l

-- A row that an entry can hold.
abbrev pub Fits : Row → Type 0
Fits r = IsStorable r.info × r.parent < 2 ^ 32

pub rows-Fits :
    (ks : Nodes) (p a : ℕ)
    → AllStorable ks
    → p < 2 ^ 32
    → a + count ks ≤ 16
    → Each Fits (rows ks p a)
unfolding rows AllStorable Each count
rows-Fits nil p a h l m = tt
rows-Fits (cons (node i inner) ks) p a (h, below, behind) l m = (
  (h, l),
  Each-append Fits (rows inner a (a + 1)) (rows ks p (a + 1 + count inner))
      (rows-Fits inner a (a + 1) below (omega arith) (omega arith))
      (rows-Fits ks p (a + 1 + count inner) behind l (omega arith)),
)

small_kind : (k : EntryType) → kind_word k ≤ 1
small_kind fs_file = omega arith
small_kind fs_directory = omega arith

small_size : (k : EntryType) (i : Info) → FitsKind k i → i.size ≤ 512
unfolding FitsKind
small_size fs_file i (c, l, d) = l
small_size fs_directory i (c, z) = omega arith

-- All five words fit.
word_bounds :
    (e : DiskEntry) (f : ℕ)
    → e.kind < 2 ^ 32
    → e.is_used < 2 ^ 32
    → e.parent_idx < 2 ^ 32
    → e.size < 2 ^ 32
    → e.data_sector < 2 ^ 32
    → field f e < 2 ^ 32
word_bounds e f k u p z d = elim (Bool-cases (f == 0)) [
  | inl f0 ↦ rw f0 k
  | inr f0 ↦ elim (Bool-cases (f == 1)) [
    | inl f1 ↦ rw (f0, f1) u
    | inr f1 ↦ elim (Bool-cases (f == 2)) [
      | inl f2 ↦ rw (f0, f1, f2) p
      | inr f2 ↦ elim (Bool-cases (f == 3)) [
        | inl f3 ↦ rw (f0, f1, f2, f3) z
        | inr f3 ↦ rw (f0, f1, f2, f3) d
      ]
    ]
  ]
]

Holds-HasWords :
    (r : Row) (a : ℕ) (e : DiskEntry) (disk : Sectors)
    → Fits r
    → a < 16
    → Holds r a e disk
    → HasWords e
Holds-HasWords r a e disk (st, l) m h f =
    word_bounds e f (omega (arith, h.kinds, small_kind r.info.kind)) (omega (arith, h.uses))
      (omega (arith, h.parents)) (omega (arith, h.sizes, small_size r.info.kind r.info st.2))
      (elim (Bool-cases (has_data r.info)) [
        | inl d ↦ rw (h.sectors, d) (omega arith)
        | inr d ↦ rw (h.sectors, d) (omega arith)
      ])

Holds-Same :
    {r : Row} {a : ℕ} {e e' : DiskEntry} {disk disk' : Sectors}
    → length r.info.name < max_name_len
    → Same e e'
    → disk' (data_start_sector + a) ≡ disk (data_start_sector + a)
    → Holds r a e disk
    → Holds r a e' disk'
Holds-Same {r} {a} l s q h = record {
  named = λ k b. s.names k (omega arith) ∙ h.named k b;
  ended = s.names (length r.info.name) l ∙ h.ended;
  kinds = s.kinds ∙ h.kinds;
  uses = s.uses ∙ h.uses;
  parents = s.parents ∙ h.parents;
  sizes = s.sizes ∙ h.sizes;
  sectors = s.sectors ∙ h.sectors;
  filled = λ d k b. ap (λ f. f k) q ∙ h.filled d k b;
}

AllHold-Same :
    (rs : List Row) (a : ℕ) (t t' : Table) (disk disk' : Sectors)
    → Each Fits rs
    → a + length rs ≤ 9
    → ((j : ℕ) → j < 9 → HasWords (t j) → Same (t j) (t' j))
    → ((j : ℕ) → j < 16 → disk' (data_start_sector + j) ≡ disk (data_start_sector + j))
    → AllHold rs a t disk
    → AllHold rs a t' disk'
unfolding AllHold Each
AllHold-Same [] a t t' disk disk' f l s d h = tt
AllHold-Same (r ∷ rs) a t t' disk disk' (g, f) l s d (h, k) = (
  Holds-Same g.0.1 (s a (omega arith) (Holds-HasWords r a (t a) disk g (omega arith) h))
      (d a (omega arith)) h,
  AllHold-Same rs (a + 1) t t' disk disk' f (omega arith) s d k,
)

module _ (ks : Nodes) (stale stale' : Table) (disk : Sectors) (small : count ks ≤ 9)
    (storable : AllStorable ks) (unused : (j : ℕ) → 10 ≤ j → (stale' j).is_used ≡ 0) where
  abbrev saving : Saving
  saving = record { current_idx = 0; table = clear_table stale; disk = disk }

  abbrev saved : Saving
  saved = serialize_children ks no_parent saving

  abbrev pub after : Sectors
  after = ata_write_sector 100 (table_bytes saved.table) saved.disk

  abbrev pub as_rows : List Row
  as_rows = rows ks no_parent 0

  saved_lem : saved ≡ save_rows as_rows saving
  saved_lem = serialize_children-rows ks no_parent 0 saving refl (omega arith)

  few : length as_rows ≤ 9
  few = omega (arith, length-rows ks no_parent 0)

  table_there : (k : ℕ) → k < 512 → after 100 k ≡ table_bytes saved.table k
  unfolding ata_write_sector
  table_there k l = let inside : ltb k 512 ≡ true = ground arith in rw inside refl

  data_there : (j : ℕ) → j < 16 → after (data_start_sector + j) ≡ saved.disk (data_start_sector + j)
  unfolding ata_write_sector
  data_there j l = let other : ((101 + j) == 100) ≡ false = ground arith in rw other refl

  -- Every node is found in its entry and its sector.
  pub read_table-AllHold : AllHold as_rows 0 (read_table stale' after) after
  read_table-AllHold =
      AllHold-Same as_rows 0 saved.table (read_table stale' after) saved.disk after
        (rows-Fits ks no_parent 0 storable (omega arith) (omega arith)) (omega (arith, few))
        (λ j l w. read_table-Same saved.table stale' after table_there j l w) data_there
        (subst (λ (s : Saving). AllHold as_rows 0 s.table s.disk) (sym saved_lem)
          (save_rows-AllHold as_rows 0 saving refl (omega (arith, few))))

  -- The entries behind them are not in use.
  pub read_table_behind :
      (j : ℕ) → length as_rows ≤ j → j < 16 → (read_table stale' after j).is_used ≡ 0
  read_table_behind j l m =
      read_table_unused saved.table stale' after table_there j
        (ap (λ (s : Saving). (s.table j).is_used) saved_lem
          ∙ ap (λ (e : DiskEntry). e.is_used) (table_behind as_rows saving j (omega arith))
          ∙ clear_table_unused stale j m)
        (unused j)
