-- ===== src/Fs/Trip/Rows.antt =====
-- serialize_node of src/fs.c as one loop over the nodes in the order in which they get their entries.
use os_itsc.Base.{
  ℕ, ◌+◌, ◌≤◌, ◌<◌, ◌^◌, ◌%◌, ◌≡◌, refl, sym, ap, ◌∙◌, subst, true, false, List, [], ◌∷◌, ◌++◌,
  length, length-append, get_or, ltb, leb, ◌==◌, if◌then◌else◌, inl, inr, Bool-cases, eq_refl,
  arith,
}
use os_itsc.Disk.{Sectors, ata_write_sector}
use os_itsc.Fs.{Info, node, Nodes, nil, cons}
use os_itsc.Fs.Table.{Table, DiskEntry, strcpy, kind_word, data_start_sector}
use os_itsc.Fs.Save.{Saving, has_data, sector_of, save_info, serialize_node, serialize_children}
use os_itsc.Fs.Trip.{count}

-- A node and the index of its parent.
pub record Row : Type 0 where
  pub info : Info
  pub parent : ℕ

-- The nodes below the entry `p` from the entry `a` on.
unfoldable pub rows : Nodes → ℕ → ℕ → List Row
rows nil p a = []
rows (cons (node i inner) ks) p a =
    record { info = i; parent = p } ∷ rows inner a (a + 1) ++ rows ks p (a + 1 + count inner)

unfoldable pub save_rows : List Row → Saving → Saving
save_rows [] s = s
save_rows (r ∷ rs) s = save_rows rs (save_info r.info r.parent s)

save_rows-append :
    (xs ys : List Row) (s : Saving) → save_rows (xs ++ ys) s ≡ save_rows ys (save_rows xs s)
unfolding save_rows
save_rows-append [] ys s = refl
save_rows-append (x ∷ xs) ys s = save_rows-append xs ys (save_info x.info x.parent s)

pub length-rows : (ks : Nodes) (p a : ℕ) → length (rows ks p a) ≡ count ks
unfolding rows count
length-rows nil p a = refl
length-rows (cons (node i inner) ks) p a = omega (
  arith,
  length-append (rows inner a (a + 1)) (rows ks p (a + 1 + count inner)),
  length-rows inner a (a + 1),
  length-rows ks p (a + 1 + count inner),
)

current_after :
    (rs : List Row) (s : Saving) → (save_rows rs s).current_idx ≡ s.current_idx + length rs
unfolding save_rows save_info
current_after [] s = omega arith
current_after (r ∷ rs) s = omega (arith, current_after rs (save_info r.info r.parent s))

-- With room for all of them, the children get the entries in their order.
pub serialize_children-rows :
    (ks : Nodes) (p a : ℕ) (s : Saving)
    → s.current_idx ≡ a
    → a + count ks ≤ 16
    → serialize_children ks p s ≡ save_rows (rows ks p a) s
unfolding serialize_node serialize_children rows save_rows count
serialize_children-rows nil p a s e l = refl
serialize_children-rows (cons (node i inner) ks) p a s e l =
    let room : leb 16 s.current_idx ≡ false = ground arith in
    let s1 : Saving = save_info i p s in
    let below = rows inner a (a + 1) in
    let s2 : Saving = save_rows below s1 in
    let step : s1.current_idx ≡ a + 1 = ap (λ n. n + 1) e in
    let inside : serialize_children inner s.current_idx s1 ≡ s2 =
      ap (λ n. serialize_children inner n s1) e
      ∙ serialize_children-rows inner a (a + 1) s1 step (omega arith) in
    let next : s2.current_idx ≡ a + 1 + count inner =
      omega (arith, step, current_after below s1, length-rows inner a (a + 1)) in
    rw (room, inside)
      (serialize_children-rows ks p (a + 1 + count inner) s2 next (omega arith)
        ∙ sym (save_rows-append below (rows ks p (a + 1 + count inner)) s1))

-- What the entry `e` at an index and the disk keep of a row.
pub record Holds (r : Row) (a : ℕ) (e : DiskEntry) (disk : Sectors) : Type 0 where
  pub named : (k : ℕ) → k < length r.info.name → e.name k ≡ get_or r.info.name k 0
  pub ended : e.name (length r.info.name) ≡ 0
  pub kinds : e.kind ≡ kind_word r.info.kind
  pub uses : e.is_used ≡ 1
  pub parents : e.parent_idx ≡ r.parent
  pub sizes : e.size ≡ r.info.size
  pub sectors : e.data_sector ≡ (if has_data r.info then data_start_sector + a else 0)
  pub filled :
      has_data r.info ≡ true
      → (k : ℕ) → k < 512
      → disk (data_start_sector + a) k ≡ sector_of r.info k

unfoldable pub AllHold : List Row → ℕ → Table → Sectors → Type 0
AllHold [] a t disk = Unit
AllHold (r ∷ rs) a t disk = Holds r a (t a) disk × AllHold rs (a + 1) t disk

-- A row changes neither the entries nor the sectors before it.
table_before :
    (i : Info) (p j : ℕ) (s : Saving) → j < s.current_idx → (save_info i p s).table j ≡ s.table j
unfolding save_info
table_before i p j s l = let other : (j == s.current_idx) ≡ false = ground arith in rw other refl

disk_before :
    (i : Info) (p n : ℕ) (s : Saving)
    → s.current_idx ≤ 16
    → n < data_start_sector + s.current_idx
    → (save_info i p s).disk n ≡ s.disk n
unfolding save_info ata_write_sector
disk_before i p n s l b =
    let other : (n == (101 + s.current_idx) % 2 ^ 28) ≡ false = ground arith in
    elim (Bool-cases (has_data i)) [ inl d ↦ rw (d, other) refl | inr d ↦ rw d refl ]

-- Nor do those that follow.
before_current :
    (rs : List Row) (s : Saving)
    → s.current_idx + length rs ≤ 16
    → ((j : ℕ) → j < s.current_idx → (save_rows rs s).table j ≡ s.table j)
      × ((n : ℕ) → n < data_start_sector + s.current_idx → (save_rows rs s).disk n ≡ s.disk n)
unfolding save_rows save_info
before_current [] s l = (λ j b. refl, λ n b. refl)
before_current (r ∷ rs) s l =
    let (tables, disks) = before_current rs (save_info r.info r.parent s) (omega arith) in
    (
      λ j b. tables j (omega arith) ∙ table_before r.info r.parent j s b,
      λ n b. disks n (omega arith) ∙ disk_before r.info r.parent n s (omega arith) b,
    )

entry-Holds :
    (r : Row) (s : Saving)
    → s.current_idx ≤ 15
    → Holds r s.current_idx
        ((save_info r.info r.parent s).table s.current_idx)
        (save_info r.info r.parent s).disk
unfolding save_info ata_write_sector strcpy
entry-Holds r s l =
    let a = s.current_idx in
    let place : (a == a) ≡ true = eq_refl a in
    let sector : ((101 + a) == (101 + a) % 2 ^ 28) ≡ true = ground arith in
    let n = length r.info.name in
    let behind : ltb n n ≡ false = ground arith in
    let at_end : (n == n) ≡ true = eq_refl n in
    record {
      named = λ k b. let inside : ltb k n ≡ true = ground arith in rw (place, inside) refl;
      ended = rw (place, behind, at_end) refl;
      kinds = rw place refl;
      uses = rw place refl;
      parents = rw place refl;
      sizes = rw place refl;
      sectors = rw place refl;
      filled = λ d k b. let inside : ltb k 512 ≡ true = ground arith in rw (d, sector, inside) refl;
    }

Holds-congruent :
    {r : Row} {a : ℕ} {e e' : DiskEntry} {disk disk' : Sectors}
    → e' ≡ e
    → disk' (data_start_sector + a) ≡ disk (data_start_sector + a)
    → Holds r a e disk
    → Holds r a e' disk'
Holds-congruent {r} {a} p q h = record {
  named = λ k b. ap (λ (x : DiskEntry). x.name k) p ∙ h.named k b;
  ended = ap (λ (x : DiskEntry). x.name (length r.info.name)) p ∙ h.ended;
  kinds = ap (λ (x : DiskEntry). x.kind) p ∙ h.kinds;
  uses = ap (λ (x : DiskEntry). x.is_used) p ∙ h.uses;
  parents = ap (λ (x : DiskEntry). x.parent_idx) p ∙ h.parents;
  sizes = ap (λ (x : DiskEntry). x.size) p ∙ h.sizes;
  sectors = ap (λ (x : DiskEntry). x.data_sector) p ∙ h.sectors;
  filled = λ d k b. ap (λ f. f k) q ∙ h.filled d k b;
}

-- The loop leaves every row in its entry and its sector.
pub save_rows-AllHold :
    (rs : List Row) (a : ℕ) (s : Saving)
    → s.current_idx ≡ a
    → a + length rs ≤ 16
    → AllHold rs a (save_rows rs s).table (save_rows rs s).disk
unfolding save_rows AllHold save_info
save_rows-AllHold [] a s e l = tt
save_rows-AllHold (r ∷ rs) a s e l =
    let s1 : Saving = save_info r.info r.parent s in
    let (tables, disks) = before_current rs s1 (omega arith) in
    (
      subst (λ n. Holds r n ((save_rows rs s1).table n) (save_rows rs s1).disk) e
          (Holds-congruent (tables s.current_idx (omega arith))
            (disks (101 + s.current_idx) (omega arith)) (entry-Holds r s (omega arith))),
      save_rows-AllHold rs (a + 1) s1 (omega arith) (omega arith),
    )

pub table_behind :
    (rs : List Row) (s : Saving) (j : ℕ)
    → s.current_idx + length rs ≤ j
    → (save_rows rs s).table j ≡ s.table j
unfolding save_rows save_info
table_behind [] s j l = refl
table_behind (r ∷ rs) s j l =
    let other : (j == s.current_idx) ≡ false = ground arith in
    table_behind rs (save_info r.info r.parent s) j (omega arith) ∙ rw other refl

unfoldable pub Each : (Row → Type 0) → List Row → Type 0
Each P [] = Unit
Each P (r ∷ rs) = P r × Each P rs

pub Each-append : (P : Row → Type 0) (xs ys : List Row) → Each P xs → Each P ys → Each P (xs ++ ys)
unfolding Each
Each-append P [] ys p q = q
Each-append P (x ∷ xs) ys (h, p) q = (h, Each-append P xs ys p q)
