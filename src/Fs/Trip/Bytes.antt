-- ===== src/Fs/Trip/Bytes.antt =====
-- `disk_entry_t` of src/fs.c through its bytes.
use os_itsc.Base.{
  ℕ, ◌+◌, ◌-◌, ◌*◌, ◌/◌, ◌%◌, ◌^◌, ◌≤◌, ◌<◌, ◌≡◌, refl, ap, ◌∙◌, true, false, ltb, arith, inl, inr,
  Bool-cases,
}
use os_itsc.Disk.{Sectors, sector_size, ata_read_sector}
use os_itsc.Fs.{max_name_len}
use os_itsc.Fs.Table.{
  Table, DiskEntry, entry_size, word_byte, word_at, field, entry_byte, table_bytes, entry_at,
}
use os_itsc.Fs.Restore.{read_table}

byte_of :
    (t : Table) (i k o : ℕ)
    → o ≡ i * entry_size + k
    → k < entry_size
    → table_bytes t o ≡ entry_byte (t i) k
unfolding table_bytes
byte_of t i k o e l =
    let d : o / 52 ≡ i = omega arith in let m : o % 52 ≡ k = omega arith in rw (d, m) refl

word_of_bytes : (w : ℕ) → w < 2 ^ 32 → word_at (word_byte w) 0 ≡ w
word_of_bytes w l = omega arith

word_read :
    (b : ℕ → ℕ) (w o : ℕ)
    → ((k : ℕ) → k < 4 → b (o + k) ≡ word_byte w k)
    → w < 2 ^ 32
    → word_at b o ≡ w
word_read b w o h l =
    let first : b o ≡ word_byte w 0 = ap b same_place ∙ h 0 (omega arith) in
    rw (first, h 1 (omega arith), h 2 (omega arith), h 3 (omega arith)) (word_of_bytes w l)
  where
    same_place : o ≡ o + 0
    same_place = omega arith

field_bytes :
    (e : DiskEntry) (f k : ℕ) → k < 4 → entry_byte e (32 + 4 * f + k) ≡ word_byte (field f e) k
unfolding entry_byte
field_bytes e f k l =
    let behind : ltb (32 + 4 * f + k) 32 ≡ false = ground arith in
    let d : (32 + 4 * f + k - 32) / 4 ≡ f = omega arith in
    let m : (32 + 4 * f + k - 32) % 4 ≡ k = omega arith in rw (behind, d, m) refl

-- A field is read back from the bytes of its entry.
pub field_read :
    (b : ℕ → ℕ) (e : DiskEntry) (o f : ℕ)
    → ((k : ℕ) → k < 4 → b (o + (32 + 4 * f + k)) ≡ entry_byte e (32 + 4 * f + k))
    → field f e < 2 ^ 32
    → word_at b (o + (32 + 4 * f)) ≡ field f e
field_read b e o f h l =
    word_read b (field f e) (o + (32 + 4 * f)) (λ k s. ap b (shift k) ∙ h k s ∙ field_bytes e f k s)
      l
  where
    shift : (k : ℕ) → o + (32 + 4 * f) + k ≡ o + (32 + 4 * f + k)
    shift k = omega arith

-- The words of an entry fit.
abbrev pub HasWords : DiskEntry → Type 0
HasWords e = (f : ℕ) → field f e < 2 ^ 32

-- Two entries with the same fields.
pub record Same (e e' : DiskEntry) : Type 0 where
  pub names : (k : ℕ) → k < max_name_len → e'.name k ≡ e.name k
  pub kinds : e'.kind ≡ e.kind
  pub uses : e'.is_used ≡ e.is_used
  pub parents : e'.parent_idx ≡ e.parent_idx
  pub sizes : e'.size ≡ e.size
  pub sectors : e'.data_sector ≡ e.data_sector

name_bytes : (e : DiskEntry) (k : ℕ) → k < max_name_len → entry_byte e k ≡ e.name k
unfolding entry_byte
name_bytes e k l = let in_name : ltb k 32 ≡ true = ground arith in rw in_name refl

entry_read :
    (b : ℕ → ℕ) (e : DiskEntry) (i : ℕ)
    → ((k : ℕ) → k < entry_size → b (i * entry_size + k) ≡ entry_byte e k)
    → HasWords e
    → Same e (entry_at b i)
unfolding entry_at
entry_read b e i h w =
    let field_at : (f : ℕ) → f < 5 → word_at b (i * 52 + (32 + 4 * f)) ≡ field f e =
      λ f l. field_read b e (i * 52) f (λ k s. h (32 + 4 * f + k) (omega arith)) (w f) in
    record {
      names = λ k l. h k (omega arith) ∙ name_bytes e k l;
      kinds = field_at 0 (omega arith);
      uses = field_at 1 (omega arith);
      parents = field_at 2 (omega arith);
      sizes = field_at 3 (omega arith);
      sectors = field_at 4 (omega arith);
    }

-- The first nine entries are read back from the disk; of the others, that they are not in use.
module _ (t stale : Table) (disk : Sectors)
    (written : (k : ℕ) → k < sector_size → disk 100 k ≡ table_bytes t k) where
  on_disk :
      (i k : ℕ)
      → k < entry_size
      → i * entry_size + k < sector_size
      → ata_read_sector 100 (table_bytes stale) disk (i * entry_size + k) ≡ entry_byte (t i) k
  unfolding ata_read_sector
  on_disk i k l s =
      let in_sector : ltb (i * 52 + k) 512 ≡ true = ground arith in
      rw in_sector (written (i * 52 + k) s ∙ byte_of t i k (i * 52 + k) refl l)

  behind_disk :
      (i k : ℕ)
      → k < entry_size
      → sector_size ≤ i * entry_size + k
      → ata_read_sector 100 (table_bytes stale) disk (i * entry_size + k) ≡ entry_byte (stale i) k
  unfolding ata_read_sector
  behind_disk i k l s =
      let past : ltb (i * 52 + k) 512 ≡ false = ground arith in
      rw past (byte_of stale i k (i * 52 + k) refl l)

  pub read_table-Same : (i : ℕ) → i < 9 → HasWords (t i) → Same (t i) (read_table stale disk i)
  unfolding read_table
  read_table-Same i l w =
      entry_read (ata_read_sector 100 (table_bytes stale) disk) (t i) i
        (λ k s. on_disk i k s (omega arith)) w

  pub read_table_unused :
      (i : ℕ)
      → (t i).is_used ≡ 0
      → (10 ≤ i → (stale i).is_used ≡ 0)
      → (read_table stale disk i).is_used ≡ 0
  unfolding read_table entry_at
  read_table_unused i u v = elim (Bool-cases (ltb i 10)) [
    | inl ten ↦
        field_read (ata_read_sector 100 (table_bytes stale) disk) (t i) (i * 52) 1
          (λ k s. on_disk i (36 + k) (omega arith) (ground arith)) (omega arith)
        ∙ u
    | inr more ↦
        let none_there : (stale i).is_used ≡ 0 = v (ground arith) in
        field_read (ata_read_sector 100 (table_bytes stale) disk) (stale i) (i * 52) 1
          (λ k s. behind_disk i (36 + k) (omega arith) (ground arith)) (omega arith)
        ∙ none_there
  ]
