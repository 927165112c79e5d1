-- ===== src/Fs.antt =====
-- src/fs.c: the tree of files and directories, and its commands. A list of children is in the order of
-- the `next` pointers. `current_dir` is the place in the tree that has `above` it the nodes that the
-- `parent` pointers lead to, the nearest one first, each with its other children.
pub mod Commands
pub mod Table
pub mod Save
pub mod Restore
pub mod Places
pub mod Contents
pub mod Creation
pub mod Trip
pub mod Tests
use os_itsc.Base.{
  ℕ, zero, suc, ◌+◌, ◌-◌, ◌<◌, Bool, true, false, ◌&&◌, ◌||◌, not, Option, none, some, List, [],
  ◌∷◌, ◌++◌, ℤ, pos, negsuc, minus_one, length, take, ltb, ◌==◌, if◌then◌else◌,
}
use os_itsc.Allocator.{Allocator}
use os_itsc.Console.{text, uart_bytes}
use os_itsc.Strings.{strcmp}

abbrev pub max_name_len : ℕ
max_name_len = 32

-- `sizeof(fs_node_t)` for the 32-bit target.
abbrev pub node_size : ℕ
node_size = 56

-- `entry_type_t`
pub data EntryType : Type 0 where
  fs_file fs_directory : EntryType

abbrev pub is_file : EntryType → Bool
is_file fs_file = true
is_file fs_directory = false

-- The fields of `fs_node_t` that are not links. `addr` is the address of the node, `data` that of
-- its contents, and `contents` the bytes there.
pub record Info : Type 0 where
  pub addr : ℕ
  pub name : List ℕ
  pub kind : EntryType
  pub data_ptr : ℕ
  pub size : ℕ
  pub contents : List ℕ

mutual
  pub data Node : Type 0 where
    node : Info → Nodes → Node

  pub data Nodes : Type 0 where
    nil : Nodes
    cons : Node → Nodes → Nodes

-- A directory above the current one: the children before the one that leads down, the nearest
-- first, and those behind it.
pub record Level : Type 0 where
  pub info : Info
  pub before : Nodes
  pub behind : Nodes

-- `m_strcmp(a, b) == 0`
unfoldable pub same_name : List ℕ → List ℕ → Bool
same_name a b = elim (strcmp a b) [ pos n ↦ n == 0 | negsuc _ ↦ false ]

-- A node that `create_node` fills.
abbrev pub blank_info : ℕ → List ℕ → EntryType → Info
blank_info p name kind = record {
  addr = p;
  name = take (max_name_len - 1) name;
  kind = kind;
  data_ptr = 0;
  size = 0;
  contents = [];
}

abbrev pub info_of : Node → Info
info_of (node i ks) = i

-- The children in front of which stand others, the nearest first.
unfoldable pub rejoin : Nodes → Nodes → Nodes
rejoin nil ks = ks
rejoin (cons k ls) ks = rejoin ls (cons k ks)

-- The bytes from index `i` on.
unfoldable pub bytes_from : ℕ → ℕ → (ℕ → ℕ) → List ℕ
bytes_from zero i f = []
bytes_from (suc n) i f = f i ∷ bytes_from n (i + 1) f

module _ (A : Allocator) where
  -- The state of the file system, of the heap, and the bytes sent to the serial line.
  pub record Fs : Type 0 where
    pub above : List Level
    pub here : Info
    pub children : Nodes
    pub heap : A.State
    pub serial : List ℕ

  abbrev pub say : List ℕ → Fs → Fs
  say s fs = record fs { serial = fs.serial ++ uart_bytes s }

  -- `create_node`: NULL if there is no memory.
  unfoldable pub create_node : List ℕ → EntryType → A.State → Option Info × A.State
  create_node name kind h =
      let (p, h') = A.malloc node_size h in
      if p == 0 then (none, h') else (some (blank_info p name kind), h')

  -- A new child stands first.
  abbrev pub add_child : Info → Fs → Fs
  add_child i fs = record fs { children = cons (node i nil) fs.children }

  -- `fs_mkdir`, and `fs_create_file` past its search.
  unfoldable pub add_new : List ℕ → EntryType → Fs → ℤ × Fs
  unfolding create_node
  add_new name kind fs =
      let (made, h) = create_node name kind fs.heap in
      let t = record fs { heap = h } in
      elim made [ none ↦ (minus_one, t) | some i ↦ (pos 0, add_child i t) ]

  unfoldable pub fs_mkdir : List ℕ → Fs → ℤ × Fs
  unfolding add_new
  fs_mkdir name fs = add_new name fs_directory fs
