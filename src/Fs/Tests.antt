-- ===== src/Fs/Tests.antt =====
-- The file system at concrete states.
use mathlib.Core.Bool.{false≢true}
use os_itsc.Base.{
  ℕ, ◌+◌, ◌≤◌, ◌<◌, ◌≡◌, refl, sym, false, false, some, [], ◌∷◌, ◌++◌, pos, length, arith,
}
use os_itsc.Allocator.{Allocator}
use os_itsc.Console.{text}
use os_itsc.Strings.{strcmp}
use os_itsc.Fs.{
  fs_file, fs_directory, node, nil, cons, same_name, blank_info, bytes_from, Fs, say, max_name_len,
  node_size, add_new, create_node, info_of, rejoin,
}
use os_itsc.Fs.Commands.{
  find_split, write_info, fs_cd, fs_write_file, fs_cat, fs_create_file, fs_rm, is_parent_of,
  is_above,
}
use os_itsc.Fs.Table.{Table}
use os_itsc.Fs.Save.{root_from, root, fs_save_to_disk}
use os_itsc.Fs.Restore.{ready, fs_init}
use os_itsc.Fs.Trip.{count, plain_all, mirror, FitsKind, AllStorable}
use os_itsc.Fs.Trip.Back.{fs_init-fs_save_to_disk}
use os_itsc.Heap.{Heap}
use os_itsc.Shell.Run.{kernel_heap}
use os_itsc.Shell.Room.{HeapRoom, heap_room, kernel_heap-HasRoom}
use os_itsc.Fs.Places.{Entered, fs_cd-Entered}
use os_itsc.Fs.Creation.{fs_rm-fs_create_file}
use os_itsc.Fs.Contents.{fs_cat-fs_write_file}

-- An allocator that never runs out and takes nothing back.
abbrev counter : Allocator
counter = record { State = ℕ; malloc = λ n h. (h + 4, h + n + 4); free = λ p h. h }

-- The root with a directory and a file in it.
abbrev small_fs : Fs counter
small_fs = record {
  above = [];
  here = blank_info 4 (text "root") fs_directory;
  children =
      cons (node (blank_info 60 (text "docs") fs_directory) nil)
        (cons (node (blank_info 116 (text "notes") fs_file) nil) nil);
  heap = 172;
  serial = [];
}

other_name : same_name (text "docs") (text "..") ≡ false
unfolding same_name strcmp
other_name = refl

fs_cd-Entered_example :
    Entered counter (text "docs") small_fs (fs_cd counter (text "docs") small_fs)
fs_cd-Entered_example = fs_cd-Entered counter (text "docs") small_fs other_name

written : (fs_write_file counter (text "notes") (some (λ i. i + 65)) 3 small_fs).0 ≡ pos 0
unfolding fs_write_file find_split same_name strcmp write_info
written = refl

fs_cat-fs_write_file_example :
    (fs_cat counter
      (text "notes")
      (fs_write_file counter (text "notes") (some (λ i. i + 65)) 3 small_fs).1).serial
    ≡ [] ++ bytes_from 3 0 (λ i. i + 65) ++ 13 ∷ 10 ∷ []
unfolding find_split same_name strcmp
fs_cat-fs_write_file_example =
    fs_cat-fs_write_file (text "notes") counter (λ i. i + 65) 3 small_fs refl refl (omega arith)
      written

abbrev with_new : Fs counter
with_new = (fs_create_file counter (text "todo") small_fs).1

made : (fs_create_file counter (text "todo") small_fs).0 ≡ pos 0
unfolding fs_create_file find_split same_name strcmp add_new create_node
made = refl

short : length (text "todo") < max_name_len
short = omega arith

not_root : same_name (text "todo") (text "root") ≡ false
unfolding same_name strcmp
not_root = refl

new_address : is_parent_of counter (counter.malloc node_size small_fs.heap).0 small_fs ≡ false
unfolding is_above
new_address = refl

fs_rm-fs_create_file_example :
    fs_rm counter (text "todo") with_new
    ≡ say counter
        (text "Elementul a fost sters cu succes din memorie.\n")
        (record small_fs { heap = 232 })
fs_rm-fs_create_file_example =
    fs_rm-fs_create_file counter (text "todo") small_fs short not_root new_address made

-- The heap that `kernel_main` sets up, of 100 KB from 2 MB on, with 4 KB given out.
abbrev booted : Heap
booted = record {
  heap_start = 0x20_0000;
  heap_end = 0x21_9000;
  heap_bump = 0x20_1000;
  free_list = 0;
  alloc_count = 8;
  mem = λ _. record { size = 0; next = 0; free = false };
}

-- A tree with a file that has contents, below the current directory's parent.
abbrev filled_fs : Fs kernel_heap
filled_fs = record {
  above =
      record {
        info = blank_info 4 (text "root") fs_directory;
        before = cons (node (blank_info 116 (text "notes") fs_file) nil) nil;
        behind = nil;
      }
      ∷ [];
  here = blank_info 60 (text "docs") fs_directory;
  children =
      cons
        (node
          (record (blank_info 172 (text "todo") fs_file) {
            data_ptr = 232;
            size = 2;
            contents = 72 ∷ 105 ∷ [];
          })
          nil)
        nil;
  heap = some booted;
  serial = [];
}

abbrev unused_entries : Table
unused_entries i = record {
  name = λ _. 0;
  kind = 0;
  is_used = 0;
  parent_idx = 0;
  size = 0;
  data_sector = 0;
}

filled_storable : AllStorable (cons (root kernel_heap filled_fs) nil)
unfolding AllStorable FitsKind root_from rejoin
filled_storable = (
  (refl, omega arith, (refl, refl)),
  (
    (refl, omega arith, (refl, omega arith, λ e. absurd (false≢true (sym e)))),
    tt,
    (
      (refl, omega arith, (refl, refl)),
      ((refl, omega arith, (refl, omega arith, λ _. refl)), tt, tt),
      tt,
    ),
  ),
  tt,
)

filled_small : count (cons (root kernel_heap filled_fs) nil) ≤ 9
unfolding count root_from rejoin
filled_small = omega arith

filled_root : (info_of (root kernel_heap filled_fs)).name ≡ text "root"
unfolding root_from rejoin
filled_root = refl

fs_init-fs_save_to_disk_example :
    (back : Fs kernel_heap) × (fs_init kernel_heap unused_entries
        (fs_save_to_disk kernel_heap unused_entries filled_fs (λ _ _. 0)).1
        (some booted)
        []
      ≡ some (ready back))
    × plain_all (cons (root kernel_heap back) nil)
      ≡ mirror (cons (root kernel_heap filled_fs) nil) nil
fs_init-fs_save_to_disk_example =
    fs_init-fs_save_to_disk kernel_heap HeapRoom kernel_heap-HasRoom filled_fs unused_entries
      unused_entries (λ _ _. 0) (some booted) [] filled_root filled_storable filled_small
      (λ j l. refl) (heap_room refl (omega arith) (omega arith))
