-- ===== src/Disk.antt =====
-- The disk as src/ata.c moves it: sectors of 512 bytes, one at a time. A buffer is a function of the
-- index of a byte; what stands behind the sector in it is left alone. The ports and the wait for the
-- drive are hardware.
use os_itsc.Base.{ℕ, ◌%◌, ◌^◌, ltb, if◌then◌else◌, update}

abbrev pub sector_size : ℕ
sector_size = 512

abbrev pub Buffer : Type 0
Buffer = ℕ → ℕ

abbrev pub Sectors : Type 0
Sectors = ℕ → Buffer

-- The drive takes 28 bits of the number of the sector.
abbrev pub lba_bits : ℕ → ℕ
lba_bits lba = lba % 2 ^ 28

unfoldable pub ata_read_sector : ℕ → Buffer → Sectors → Buffer
ata_read_sector lba buf disk = λ k. if ltb k sector_size then disk (lba_bits lba) k else buf k

unfoldable pub ata_write_sector : ℕ → Buffer → Sectors → Sectors
ata_write_sector lba buf disk =
    update disk (lba_bits lba) (λ k. if ltb k sector_size then buf k else disk (lba_bits lba) k)
