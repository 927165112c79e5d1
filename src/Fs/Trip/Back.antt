-- ===== src/Fs/Trip/Back.antt =====
-- fs_init after fs_save_to_disk of src/fs.c.
use os_itsc.Base.{
  ℕ, zero, suc, ◌∷◌, ◌-◌, ◌+◌, ◌≤◌, ◌<◌, ◌≡◌, refl, sym, ap, ap₂, ◌∙◌, subst, true, List, [], ◌++◌,
  append-nil, length, ltb, ◌==◌, Option, some, none, arith,
}
use os_itsc.Allocator.{Allocator, HasRoom}
use os_itsc.Console.{text}
use os_itsc.Strings.{strcmp}
use os_itsc.Disk.{Sectors}
use os_itsc.Fs.{Info, Node, node, Nodes, nil, cons, info_of, same_name, Fs}
use os_itsc.Fs.Table.{Table}
use os_itsc.Fs.Save.{no_parent, root_from, root, save_root, serialize_children, fs_save_to_disk}
use os_itsc.Fs.Restore.{
  NodesMap, is_there, read_table, is_saved, Restoring, linked_children, started, link_from, forest,
  Start, ready, fs_init,
}
use os_itsc.Fs.Trip.{count, plain_all, mirror, AllStorable}
use os_itsc.Fs.Trip.Rows.{Row, rows, length-rows, AllHold, Each, Each-append}
use os_itsc.Fs.Trip.Kept.{Fits, rows-Fits, after, read_table-AllHold, read_table_behind}
use os_itsc.Fs.Trip.Fields.{name_again}
use os_itsc.Fs.Trip.Loop.{twice, Seen-some, AllSeen, Looped, looped, restore_from-Looped}
use os_itsc.Fs.Trip.Links.{
  is_there-Seen, HasParent, link_rows, link_from-link_rows, Links, link_rows-Links,
}
use os_itsc.Fs.Trip.Forests.{AllSeen-append, forest-mirror, forest_none}

-- The parents of the nodes below a node that is there are there.
rows-HasParent :
    (ks : Nodes) (p a : ℕ) (m : NodesMap)
    → p < 16
    → a + count ks ≤ 16
    → is_there (m p) ≡ true
    → AllSeen (rows ks p a) a m
    → Each (HasParent m) (rows ks p a)
unfolding rows count AllSeen Each
rows-HasParent nil p a m l b h s = tt
rows-HasParent (cons (node i inner) ks) p a m l b h (here, more) =
    let c = a + 1 + count inner in
    let low : ltb p 16 ≡ true = ground arith in
    let (s1, s2) =
      AllSeen-append (rows inner a (a + 1)) (rows ks p c) (a + 1) c m
        (omega (arith, length-rows inner a (a + 1))) more in
    (
      (low, h),
      Each-append (HasParent m) (rows inner a (a + 1)) (rows ks p c)
          (rows-HasParent inner a (a + 1) m (omega arith) (omega arith) (is_there-Seen here) s1)
          (rows-HasParent ks p c m l (omega arith) h s2),
    )

-- The tree that the links make below the root.
linked_children-mirror :
    (A : Allocator) (inner : Nodes) (t : Table) (disk : Sectors) (m : NodesMap)
    → count inner ≤ 8
    → is_there (m 0) ≡ true
    → AllHold (rows inner 0 1) 1 t disk
    → AllSeen (rows inner 0 1) 1 m
    → ((j : ℕ) → 1 + count inner ≤ j → j < 16 → (t j).is_used ≡ 0)
    → plain_all (linked_children A t m) ≡ mirror inner nil
linked_children-mirror A inner t disk m l h held s u =
    let rs = rows inner 0 1 in
    let n = length-rows inner 0 1 in
    let kids = link_rows rs 1 (λ _. []) in
    let same : link_from 15 1 t m (λ _. []) ≡ kids =
      link_from-link_rows rs 15 1 t disk m (λ _. []) (omega (arith, n)) held s
        (rows-HasParent inner 0 1 m (omega arith) (omega arith) h s)
        (λ j b c. u j (omega (arith, n)) (omega arith)) in
    let x : Links inner 0 1 (λ _. []) kids =
      link_rows-Links inner 0 1 (λ _. []) (omega arith) (λ j b c. refl) in
    ap (λ k. plain_all (forest 16 m k (k 0))) same
    ∙ ap (λ is. plain_all (forest 16 m kids is)) x.at_parent
    ∙ forest-mirror inner 16 0 1 m kids [] (omega arith) s x.inside
    ∙ ap (mirror inner) (forest_none 16 m kids)

-- The result of `fs_init` for trees that are there again.
data IsBack (A : Allocator) (k : Node) : Option (Start A) → Type 0 where
  is_back :
      (fs : Fs A)
      → plain_all (cons (root A fs) nil) ≡ mirror (cons k nil) nil
      → IsBack A k (some (ready fs))

module _ (A : Allocator) (Room : ℕ → A.State → Type 0) (more : HasRoom A Room) where
  -- Room for more requests is room for fewer.
  room_for :
      {h : A.State} (rs : List Row) (n : ℕ)
      → length rs + length rs ≤ n
      → Room n h
      → Room (twice rs) h
  room_for {h} rs n l room = drop (n - twice rs) (twice rs) n (total rs n l) room
    where
      drop : (d m n : ℕ) → m + d ≡ n → Room n h → Room m h
      drop zero m n e r = subst (λ i. Room i h) (sym (omega (arith, e))) r
      drop (suc d) m n e r = more.fewer m h (drop d (suc m) n (omega (arith, e)) r)

      doubled : (rs : List Row) → twice rs ≡ length rs + length rs
      doubled [] = refl
      doubled (r ∷ rs) = let e = doubled rs in omega (arith, e)

      total : (rs : List Row) (n : ℕ) → length rs + length rs ≤ n → twice rs + (n - twice rs) ≡ n
      total rs n l = let e = doubled rs in omega (arith, e, l)

  built-IsBack :
      (i : Info) (inner : Nodes) (t : Table) (disk : Sectors) {o : Option (Restoring A)}
      → count inner ≤ 8
      → AllHold (rows (cons (node i inner) nil) no_parent 0) 0 t disk
      → ((j : ℕ)
          → length (rows (cons (node i inner) nil) no_parent 0) ≤ j
          → j < 16
          → (t j).is_used ≡ 0)
      → Looped A Room more (rows (cons (node i inner) nil) no_parent 0) 0 (λ _. none) o
      → IsBack A (node i inner) (elim o [
        | none ↦ none
        | some r ↦ some (started A (r.map 0) (linked_children A t r.map) r.heap r.serial)
      ])
  unfolding AllHold AllSeen rows mirror plain_all root_from count
  built-IsBack i inner t disk l held u (looped {r} (s, ss) _) =
      let e : rows inner 0 1 ++ [] ≡ rows inner 0 1 = append-nil (rows inner 0 1) in
      let (x, there, same) = Seen-some s in
      let tree : plain_all (linked_children A t r.map) ≡ mirror inner nil =
        linked_children-mirror A inner t disk r.map l (is_there-Seen s)
          (subst (λ rs. AllHold rs 1 t disk) e held.1) (subst (λ rs. AllSeen rs 1 r.map) e ss)
          (λ j b c. u j (omega (arith, length-rows (cons (node i inner) nil) no_parent 0)) c) in
      let back : Fs A = record {
        above = [];
        here = x;
        children = linked_children A t r.map;
        heap = r.heap;
        serial = r.serial;
      } in
      rw there (is_back back (ap₂ (λ p ks. cons (node p ks) nil) same tree))

  module _ (i : Info) (inner : Nodes) (stale stale' : Table) (disk : Sectors)
      (named : i.name ≡ text "root") (small : count inner ≤ 8)
      (storable : AllStorable (cons (node i inner) nil))
      (unused : (j : ℕ) → 10 ≤ j → (stale' j).is_used ≡ 0) where
    abbrev forest_of : Nodes
    forest_of = cons (node i inner) nil

    few : count forest_of ≤ 9
    unfolding count
    few = omega arith

    saved_disk :
        save_root stale (node i inner) disk ≡ after forest_of stale stale' disk few storable unused
    unfolding save_root serialize_children
    saved_disk = refl

    abbrev d : Sectors
    d = save_root stale (node i inner) disk

    held_there : AllHold (rows forest_of no_parent 0) 0 (read_table stale' d) d
    held_there =
        subst (λ d. AllHold (rows forest_of no_parent 0) 0 (read_table stale' d) d) (sym saved_disk)
          (read_table-AllHold forest_of stale stale' disk few storable unused)

    unused_there :
        (j : ℕ)
        → length (rows forest_of no_parent 0) ≤ j
        → j < 16
        → (read_table stale' d j).is_used ≡ 0
    unused_there j l m =
        ap (λ d. (read_table stale' d j).is_used) saved_disk
        ∙ read_table_behind forest_of stale stale' disk few storable unused j l m

    is_saved_there : is_saved (read_table stale' d) ≡ true
    unfolding is_saved same_name AllStorable AllHold rows strcmp
    is_saved_there =
        let used : ((read_table stale' d 0).is_used == 1) ≡ true =
          ground (arith, held_there.0.uses) in
        rw (used, name_again storable.0 held_there.0, named) refl

    restored-IsBack :
        (h : A.State) (out : List ℕ)
        → Room 18 h
        → IsBack A (node i inner) (fs_init A stale' d h out)
    unfolding fs_init
    restored-IsBack h out room =
        let f : Each Fits (rows forest_of no_parent 0) =
          rows-Fits forest_of no_parent 0 storable (omega arith) (omega (arith, few)) in
        rw (fs_init, is_saved_there)
          (built-IsBack i inner (read_table stale' d) d small held_there unused_there (
            restore_from-Looped A Room more (rows forest_of no_parent 0) 16 0 (read_table stale' d)
              d _ f (omega (arith, few, length-rows forest_of no_parent 0)) (omega arith) held_there
              (λ j p q. unused_there j (omega arith) (omega arith))
              (room_for (rows forest_of no_parent 0) 18
                (omega (arith, few, length-rows forest_of no_parent 0)) room)))

  -- What `fs_init` makes of a tree is there, and the same.
  IsBack-root :
      {k : Node} {o : Option (Start A)}
      → IsBack A k o
      → (back : Fs A) × (o ≡ some (ready back))
        × plain_all (cons (root A back) nil) ≡ mirror (cons k nil) nil
  IsBack-root (is_back fs e) = (fs, refl, e)

  saved_root-IsBack :
      (k : Node) (stale stale' : Table) (disk : Sectors) (h : A.State) (out : List ℕ)
      → (info_of k).name ≡ text "root"
      → AllStorable (cons k nil)
      → count (cons k nil) ≤ 9
      → ((j : ℕ) → 10 ≤ j → (stale' j).is_used ≡ 0)
      → Room 18 h
      → IsBack A k (fs_init A stale' (save_root stale k disk) h out)
  unfolding count
  saved_root-IsBack (node i inner) stale stale' disk h out named storable small unused room =
      restored-IsBack i inner stale stale' disk named (omega arith) storable unused h out room

  -- For a tree of at most nine nodes whose root has the name "root", each node with a name of at most
  -- 31 bytes, a file with at most 512 bytes of contents at an address that is not 0 if there are any,
  -- and a directory with none: after `fs_save_to_disk`, `fs_init` on the same disk, in a state of
  -- the allocator that grants 18 requests of 1 to 512 bytes, and with no entry in use in what stood where the table does not reach, gives a tree with the
  -- same names, kinds, sizes, contents and places, except that each list of children is reversed.
  -- Addresses are not compared.
  pub fs_init-fs_save_to_disk :
      (fs : Fs A) (stale stale' : Table) (disk : Sectors) (h : A.State) (out : List ℕ)
      → (info_of (root A fs)).name ≡ text "root"
      → AllStorable (cons (root A fs) nil)
      → count (cons (root A fs) nil) ≤ 9
      → ((j : ℕ) → 10 ≤ j → (stale' j).is_used ≡ 0)
      → Room 18 h
      → (back : Fs A) × (fs_init A stale' (fs_save_to_disk A stale fs disk).1 h out
          ≡ some (ready back))
        × plain_all (cons (root A back) nil) ≡ mirror (cons (root A fs) nil) nil
  unfolding fs_save_to_disk
  fs_init-fs_save_to_disk fs stale stale' disk h out named storable small unused room =
      IsBack-root
        (saved_root-IsBack (root A fs) stale stale' disk h out named storable small unused room)
