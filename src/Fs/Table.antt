-- ===== src/Fs/Table.antt =====
-- `disk_entry_t` of src/fs.c and its bytes.
use os_itsc.Base.{
  ℕ, zero, suc, ◌+◌, ◌-◌, ◌*◌, ◌/◌, ◌%◌, ◌^◌, List, [], ◌∷◌, length, get_or, ltb, ◌==◌,
  if◌then◌else◌,
}
use os_itsc.Fs.{EntryType, fs_file, fs_directory, max_name_len}

abbrev pub max_disk_nodes : ℕ
max_disk_nodes = 16

abbrev pub fs_start_sector : ℕ
fs_start_sector = 100

abbrev pub data_start_sector : ℕ
data_start_sector = 101

-- `disk_entry_t`. The name is its 32 bytes; the other fields are words, `parent_idx` that of an int.
pub record DiskEntry : Type 0 where
  pub name : ℕ → ℕ
  pub kind : ℕ
  pub is_used : ℕ
  pub parent_idx : ℕ
  pub size : ℕ
  pub data_sector : ℕ

abbrev pub Table : Type 0
Table = ℕ → DiskEntry

-- `sizeof(disk_entry_t)`
abbrev pub entry_size : ℕ
entry_size = 52

-- Byte `k` of a word, low byte first, and the word at a byte.
abbrev pub word_byte : ℕ → ℕ → ℕ
word_byte w k = w / 256 ^ k % 256

abbrev pub word_at : (ℕ → ℕ) → ℕ → ℕ
word_at b o = b o + b (o + 1) * 2 ^ 8 + b (o + 2) * 2 ^ 16 + b (o + 3) * 2 ^ 24

-- The word of a field by its place behind the name.
abbrev pub field : ℕ → DiskEntry → ℕ
field i e =
    if i == 0
    then e.kind
    else if i == 1
    then e.is_used
    else if i == 2
    then e.parent_idx
    else if i == 3
    then e.size
    else e.data_sector

unfoldable pub entry_byte : DiskEntry → ℕ → ℕ
entry_byte e k =
    if ltb k max_name_len
    then e.name k
    else word_byte (field ((k - max_name_len) / 4) e) ((k - max_name_len) % 4)

-- A table as the bytes of its memory, and back.
unfoldable pub table_bytes : Table → ℕ → ℕ
unfolding entry_byte
table_bytes t o = entry_byte (t (o / entry_size)) (o % entry_size)

unfoldable pub entry_at : (ℕ → ℕ) → ℕ → DiskEntry
entry_at b i =
    let o = i * entry_size in
    record {
      name = λ k. b (o + k);
      kind = word_at b (o + 32);
      is_used = word_at b (o + 36);
      parent_idx = word_at b (o + 40);
      size = word_at b (o + 44);
      data_sector = word_at b (o + 48);
    }

-- The string that begins at a byte: at most `n` bytes, up to the first that is 0.
unfoldable pub string_at : ℕ → ℕ → (ℕ → ℕ) → List ℕ
string_at zero k b = []
string_at (suc n) k b = let rest = string_at n (k + 1) b in if b k == 0 then [] else b k ∷ rest

-- `strcpy(dest, src)` for a string: its bytes and a NUL; what stands behind it stays.
unfoldable pub strcpy : (ℕ → ℕ) → List ℕ → ℕ → ℕ
strcpy dest src k =
    if ltb k (length src) then get_or src k 0 else if k == length src then 0 else dest k

abbrev pub kind_word : EntryType → ℕ
kind_word fs_file = 0
kind_word fs_directory = 1

abbrev pub kind_of : ℕ → EntryType
kind_of w = if w == 0 then fs_file else fs_directory
