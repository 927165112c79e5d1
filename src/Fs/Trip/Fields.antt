-- ===== src/Fs/Trip/Fields.antt =====
-- The name and the contents of a node of src/fs.c out of its entry and its sector.
use mathlib.Core.Bool.{false≢true}
use os_itsc.Base.{
  ℕ, zero, suc, ◌+◌, ◌≤◌, ◌<◌, ◌^◌, ◌%◌, ◌≡◌, refl, sym, ap, ap₂, ◌∙◌, ◌&&◌, not, true, false, List,
  [], ◌∷◌, length, get_or, ltb, ◌==◌, min, arith,
}
use os_itsc.Strings.Compare.{is_string}
use os_itsc.Disk.{Sectors, ata_read_sector}
use os_itsc.Fs.{EntryType, is_file, Info, fs_file, fs_directory, bytes_from}
use os_itsc.Fs.Table.{DiskEntry, kind_word, kind_of, string_at}
use os_itsc.Fs.Save.{has_data}
use os_itsc.Fs.Restore.{name_of}
use os_itsc.Fs.Trip.{plain, IsStorable, FitsKind}
use os_itsc.Fs.Trip.Rows.{Row, Holds}

at_zero : (k : ℕ) → k ≡ k + 0
at_zero k = omega arith

zero_at : (k : ℕ) → 0 + k ≡ k
zero_at k = omega arith

next_at : (k j : ℕ) → k + 1 + j ≡ k + suc j
next_at k j = omega arith

string_at_lem :
    (s : List ℕ) (n k : ℕ) (b : ℕ → ℕ)
    → is_string s ≡ true
    → length s < n
    → ((j : ℕ) → j < length s → b (k + j) ≡ get_or s j 0)
    → b (k + length s) ≡ 0
    → string_at n k b ≡ s
unfolding string_at
string_at_lem s zero k b z l h e = absurd (omega arith)
string_at_lem [] (suc n) k b z l h e = rw (ap b (at_zero k) ∙ e) refl
string_at_lem (c ∷ cs) (suc n) k b z l h e =
    let first : b k ≡ c = ap b (at_zero k) ∙ h 0 (omega arith) in
    let more : string_at n (k + 1) b ≡ cs =
      string_at_lem cs n (k + 1) b (ground arith) (omega arith)
        (λ j m. ap b (next_at k j) ∙ h (suc j) (omega arith)) (ap b (next_at k (length cs)) ∙ e) in
    let not_end : (c == 0) ≡ false = ground arith in rw (first, not_end, more) refl

bytes_from_lem :
    (xs : List ℕ) (i : ℕ) (f : ℕ → ℕ)
    → ((j : ℕ) → j < length xs → f (i + j) ≡ get_or xs j 0)
    → bytes_from (length xs) i f ≡ xs
unfolding bytes_from
bytes_from_lem [] i f h = refl
bytes_from_lem (x ∷ xs) i f h =
    ap₂ ◌∷◌ (ap f (at_zero i) ∙ h 0 (omega arith))
      (bytes_from_lem xs (i + 1) f (λ j m. ap f (next_at i j) ∙ h (suc j) (omega arith)))

pub plain_same :
    (x y : Info)
    → x.name ≡ y.name
    → x.kind ≡ y.kind
    → x.size ≡ y.size
    → x.contents ≡ y.contents
    → plain x ≡ plain y
plain_same x y n k s c = rw (n, k, s, c) refl

pub kind_again : (k : EntryType) → kind_of (kind_word k) ≡ k
kind_again fs_file = refl
kind_again fs_directory = refl

pub name_again :
    {r : Row} {a : ℕ} {e : DiskEntry} {disk : Sectors}
    → IsStorable r.info
    → Holds r a e disk
    → name_of e ≡ r.info.name
name_again {r} {a} {e} (z, l, f) h =
    string_at_lem r.info.name 32 0 e.name z l (λ j m. ap e.name (zero_at j) ∙ h.named j m)
      (ap e.name (zero_at (length r.info.name)) ∙ h.ended)

pub bare :
    (k : EntryType) (i : Info)
    → FitsKind k i
    → is_file k && not (i.size == 0) ≡ false
    → i.size ≡ 0 × i.contents ≡ []
unfolding FitsKind
bare fs_directory i (c, z) h = (z, c)
bare fs_file i (l, m, d) h =
    let z : i.size ≡ 0 = ground arith in (z, length_zero i.contents (l ∙ z))
  where
    length_zero : (xs : List ℕ) → length xs ≡ 0 → xs ≡ []
    length_zero [] e = refl
    length_zero (x ∷ xs) e = absurd (omega arith)

pub filled_file :
    (k : EntryType) (i : Info)
    → FitsKind k i
    → is_file k && not (i.size == 0) ≡ true
    → length i.contents ≡ i.size × i.size ≤ 512 × (i.data_ptr == 0) ≡ false
unfolding FitsKind
filled_file fs_directory i h e = absurd (false≢true e)
filled_file fs_file i (l, m, d) e = (l, m, d (ground arith))

sector_byte :
    (w : Row) (a : ℕ) (e : DiskEntry) (disk : Sectors) (k : ℕ)
    → w.info.size ≤ 512
    → has_data w.info ≡ true
    → a < 16
    → Holds w a e disk
    → k < w.info.size
    → ata_read_sector e.data_sector (λ _. 0) disk k ≡ get_or w.info.contents k 0
unfolding ata_read_sector
sector_byte w a e disk k z has m h b =
    let place : e.data_sector % 2 ^ 28 ≡ 101 + a = rw (h.sectors, has) (omega arith) in
    let inside : ltb k 512 ≡ true = ground arith in
    let in_file : ltb k (min w.info.size 512) ≡ true = ground arith in
    rw (inside, place) (h.filled has k (omega arith) ∙ rw in_file refl)

pub sector_contents :
    (w : Row) (a : ℕ) (e : DiskEntry) (disk : Sectors)
    → IsStorable w.info
    → a < 16
    → Holds w a e disk
    → is_file w.info.kind && not (w.info.size == 0) ≡ true
    → bytes_from e.size 0 (ata_read_sector e.data_sector (λ _. 0) disk) ≡ w.info.contents
sector_contents w a e disk st m h f =
    let (l, z, d) = filled_file w.info.kind w.info st.2 f in
    let has : has_data w.info ≡ true = ground arith in
    let buf = ata_read_sector e.data_sector (λ _. 0) disk in
    ap (λ n. bytes_from n 0 buf) (h.sizes ∙ sym l)
    ∙ bytes_from_lem w.info.contents 0 buf
        (λ j b. ap buf (zero_at j) ∙ sector_byte w a e disk j z has m h (omega arith))
