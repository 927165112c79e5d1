-- ===== src/Fs/Trip/Entries.antt =====
-- The loop of fs_init of src/fs.c over the entries of a table.
use mathlib.Core.Bool.{false≢true}
use os_itsc.Base.{
  ℕ, suc, ◌<◌, ◌≡◌, refl, sym, ap, ap₂, subst, ◌∙◌, ◌&&◌, not, true, false, List, [], length, take,
  take_all, ltb, ◌==◌, inl, inr, Bool-cases, arith, Option, some, update,
}
use os_itsc.Allocator.{Allocator, HasRoom}
use os_itsc.Disk.{Sectors}
use os_itsc.Fs.{
  max_name_len, EntryType, fs_file, fs_directory, is_file, Info, create_node, blank_info,
}
use os_itsc.Fs.Table.{DiskEntry, kind_word, kind_of}
use os_itsc.Fs.Restore.{name_of, Restoring, restore_data, restore_entry}
use os_itsc.Fs.Trip.{plain, IsStorable}
use os_itsc.Fs.Trip.Rows.{Row, Holds}
use os_itsc.Fs.Trip.Fields.{plain_same, kind_again, name_again, bare, filled_file, sector_contents}

module _ (A : Allocator) (Room : ℕ → A.State → Type 0) (more : HasRoom A Room) where
  -- What the body of the loop makes of the node that an entry holds, with room for `j` requests left.
  pub data EntryRestored (i : Info) (a j : ℕ) (r : Restoring A)
      : Option (Restoring A) → Type 0 where
    entry_restored :
        (x : Info) {h : A.State}
        → plain x ≡ plain i
        → Room j h
        → EntryRestored i a j r (some (record r { map = update r.map a (some x); heap = h }))

  blank_restored :
      {i : Info} {a j : ℕ} {r : Restoring A} {h : A.State} (p : ℕ) (name : List ℕ)
      (kind : EntryType)
      → name ≡ i.name
      → length i.name < max_name_len
      → kind ≡ i.kind
      → i.size ≡ 0
      → i.contents ≡ []
      → Room j h
      → EntryRestored i a j r
          (some (record r { map = update r.map a (some (blank_info p name kind)); heap = h }))
  blank_restored {i} p name kind n l k s c left =
      entry_restored (blank_info p name kind)
        (plain_same (blank_info p name kind) i (ap (take 31) n ∙ take_all 31 i.name (omega arith)) k
          (sym s) (sym c))
        left

  restore_data-contents :
      (w : Row) (a : ℕ) (e : DiskEntry) (disk : Sectors) (made : Info) (h : A.State)
      → IsStorable w.info
      → a < 16
      → Holds w a e disk
      → is_file w.info.kind && not (w.info.size == 0) ≡ true
      → ((A.malloc e.size h).0 == 0) ≡ false
      → restore_data A e made disk h
        ≡ some (
          record made {
            data_ptr = (A.malloc e.size h).0;
            size = e.size;
            contents = w.info.contents;
          },
          (A.malloc e.size h).1,
          false,
        )
  unfolding restore_data
  restore_data-contents w a e disk made h st m holds f got =
      let (l, z, d) = filled_file w.info.kind w.info st.2 f in
      let fits : ltb 512 e.size ≡ false = ground (arith, holds.sizes) in
      rw (got, fits, sector_contents w a e disk st m holds f) refl

  some_size : (k : EntryType) (n : ℕ) → is_file k && not (n == 0) ≡ true → 0 < n
  some_size fs_file n h = ground (arith, h)
  some_size fs_directory n h = absurd (false≢true h)

  known_kind : (k : EntryType) (n : ℕ) → n ≡ kind_word k → ltb 1 n ≡ false
  known_kind fs_file n e = ground (arith, e)
  known_kind fs_directory n e = ground (arith, e)

  pub restore_entry-EntryRestored :
      (w : Row) (a j : ℕ) (e : DiskEntry) (disk : Sectors) (r : Restoring A)
      → IsStorable w.info
      → a < 16
      → Holds w a e disk
      → Room (suc (suc j)) r.heap
      → EntryRestored w.info a j r (restore_entry A a e disk r)
  unfolding restore_entry create_node
  restore_entry-EntryRestored w a j e disk r st m h room =
      let (got, left) = more.gives (suc j) 56 r.heap (omega arith) (omega arith) room in
      let name : name_of e ≡ w.info.name = name_again st h in
      let kind : kind_of e.kind ≡ w.info.kind = ap kind_of h.kinds ∙ kind_again w.info.kind in
      let used : (e.is_used == 0) ≡ false = ground (arith, h.uses) in
      let known : ltb 1 e.kind ≡ false = known_kind w.info.kind e.kind h.kinds in
      let p = (A.malloc 56 r.heap).0 in
      let h' = (create_node A (name_of e) (kind_of e.kind) r.heap).1 in
      let at : h' ≡ (A.malloc 56 r.heap).1 = rw (create_node, got) refl in
      let one_left = subst (Room (suc j)) (sym at) left in
      let blank : Info = blank_info p (name_of e) (kind_of e.kind) in
      let full_info : Info = record blank {
        data_ptr = (A.malloc e.size h').0;
        size = e.size;
        contents = w.info.contents;
      } in
      let same : is_file (kind_of e.kind) && not (e.size == 0)
          ≡ is_file w.info.kind && not (w.info.size == 0) =
        ap₂ (λ k n. is_file k && not (n == 0)) kind h.sizes in
      elim (Bool-cases (is_file (kind_of e.kind) && not (e.size == 0))) [
        | inr plain_node ↦
            let (z, c) = bare w.info.kind w.info st.2 (sym same ∙ plain_node) in
            rw (restore_entry, got, used, known, plain_node)
              (blank_restored p (name_of e) (kind_of e.kind) name st.1 kind z c
                (more.fewer j h' one_left))
        | inl full ↦
            let f = sym same ∙ full in
            let (l, z, d) = filled_file w.info.kind w.info st.2 f in
            let (filled, rest) =
              more.gives j e.size h' (omega (arith, h.sizes, some_size w.info.kind w.info.size f))
                (omega (arith, h.sizes, z)) one_left in
            rw
              (
                restore_entry,
                got,
                used,
                known,
                full,
                restore_data-contents w a e disk blank h' st m h f filled,
              )
              (entry_restored full_info
                (plain_same full_info w.info
                  (ap (take 31) name ∙ take_all 31 w.info.name (omega (arith, st.1))) kind h.sizes
                  refl)
                rest)
      ]
