-- ===== src/Fs/Contents.antt =====
-- fs_cat after fs_write_file of src/fs.c.
use os_itsc.Base.{
  ℕ, ◌<◌, ◌≡◌, refl, ap, subst, ◌∙◌, inl, inr, Bool, true, false, not, ◌&&◌, Option, none, some,
  List, [], ◌∷◌, ◌++◌, ℤ, pos, minus_one, failed≢ok, ltb, ◌==◌, Bool-cases, arith,
}
use os_itsc.Allocator.{Allocator}
use os_itsc.Console.{uart_bytes}
use os_itsc.Fs.{Info, Node, node, Nodes, nil, cons, info_of, is_file, rejoin, bytes_from, Fs}
use os_itsc.Fs.Commands.{
  find_split, is_named, is_file_named, write_info, fs_write_file, cat_info, fs_cat,
}

abbrev fails : (Info → Bool) → Nodes → Bool
fails test nil = true
fails test (cons k ks) = not (test (info_of k)) && fails test ks

pass :
    (test : Info → Bool) (x : Node) (b ks : Nodes)
    → test (info_of x) ≡ false
    → find_split test b (cons x ks) ≡ find_split test (cons x b) ks
unfolding find_split
pass test x b ks h = rw h refl

-- Children that fail the test are passed over.
find_behind :
    (test : Info → Bool) (b ks : Nodes)
    → fails test b ≡ true
    → find_split test nil (rejoin b ks) ≡ find_split test b ks
unfolding rejoin find_split
find_behind test nil ks h = refl
find_behind test (cons x b) ks h =
    find_behind test b (cons x ks) (ground arith) ∙ pass test x b ks (ground arith)

find_again :
    (test : Info → Bool) (b : Nodes) (k : Node) (c : Nodes)
    → fails test b ≡ true
    → test (info_of k) ≡ true
    → find_split test nil (rejoin b (cons k c)) ≡ some (b, k, c)
unfolding find_split
find_again test b k c h t = find_behind test b (cons k c) h ∙ rw t refl

module _ (name : List ℕ) where
  -- The first child with the name; if that is a file, it is the first file with the name.
  data First (before ks : Nodes) : Option (Nodes × Node × Nodes) → Type 0 where
    first :
        {b : Nodes} {k : Node} {c : Nodes}
        → fails (is_named name) b ≡ true
        → is_named name (info_of k) ≡ true
        → (is_file (info_of k).kind ≡ true
            → find_split (is_file_named name) before ks ≡ some (b, k, c))
        → First before ks (some (b, k, c))
    nobody : First before ks none

  skipped :
      {before ks : Nodes} {x : Node} {o : Option (Nodes × Node × Nodes)}
      → is_named name (info_of x) ≡ false
      → First (cons x before) ks o
      → First before (cons x ks) o
  skipped {before} {ks} {x} h (first f t g) =
      first f t (λ e. pass (is_file_named name) x before ks (ground arith) ∙ g e)
  skipped h nobody = nobody

  find_split-First :
      (before ks : Nodes)
      → fails (is_named name) before ≡ true
      → First before ks (find_split (is_named name) before ks)
  unfolding find_split
  find_split-First before nil h = nobody
  find_split-First before (cons x ks) h = elim (Bool-cases (is_named name (info_of x))) [
    | inl yes_it ↦ rw yes_it (first h yes_it (λ e. rw (e, yes_it) refl))
    | inr not_it ↦ rw not_it (skipped not_it (find_split-First (cons x before) ks (ground arith)))
  ]

  First-parts :
      {before ks b c : Nodes} {k : Node}
      → First before ks (some (b, k, c))
      → fails (is_named name) b ≡ true
        × is_named name (info_of k) ≡ true
        × (is_file (info_of k).kind ≡ true
            → find_split (is_file_named name) before ks ≡ some (b, k, c))
  First-parts (first f t g) = (f, t, g)

  module _ (A : Allocator) where
    -- A file of at least one byte, from a buffer, when memory is given.
    cat_filled :
        (c : ℕ → ℕ) (size p : ℕ) (i : Info) (fs : Fs A)
        → is_file i.kind ≡ true
        → 0 < size
        → (p == 0) ≡ false
        → (cat_info A
            (record i { data_ptr = p; size = size; contents = bytes_from size 0 c })
            fs).serial
          ≡ fs.serial ++ bytes_from size 0 c ++ 13 ∷ 10 ∷ []
    unfolding cat_info uart_bytes
    cat_filled c size p i fs f z n =
        let sz : (size == 0) ≡ false = ground arith in rw (f, sz, n) refl

    data Written (c : ℕ → ℕ) (size : ℕ) (i : Info) : ℤ × Info × A.State × Bool → Type 0 where
      written :
          {p : ℕ} {h : A.State}
          → (p == 0) ≡ false
          → Written c size i (
            pos 0,
            record i { data_ptr = p; size = size; contents = bytes_from size 0 c },
            h,
            false,
          )
      refused : {j : Info} {h : A.State} → Written c size i (minus_one, j, h, true)

    write_info-Written :
        (c : ℕ → ℕ) (size : ℕ) (i : Info) (h : A.State)
        → 0 < size
        → Written c size i (write_info A (some c) size i h)
    unfolding write_info
    write_info-Written c size i h z =
        let sz : (size == 0) ≡ false = ground arith in
        elim (Bool-cases (i.data_ptr == 0)) [
          | inl e ↦ elim (Bool-cases ((A.malloc size h).0 == 0)) [
            | inl m ↦ rw (sz, e, m) refused
            | inr m ↦ rw (sz, e, m) (written m)
          ]
          | inr e ↦ elim (Bool-cases ((A.malloc size (A.free i.data_ptr h)).0 == 0)) [
            | inl m ↦ rw (sz, e, m) refused
            | inr m ↦ rw (sz, e, m) (written m)
          ]
        ]

    cat_again :
        (fs : Fs A) (b c : Nodes) (i : Info) (ks : Nodes) (h : A.State)
        → fails (is_named name) b ≡ true
        → is_named name i ≡ true
        → fs_cat A name (record fs { children = rejoin b (cons (node i ks) c); heap = h })
          ≡ cat_info A i (record fs { children = rejoin b (cons (node i ks) c); heap = h })
    unfolding fs_cat
    cat_again fs b c i ks h f t = rw (fs_cat, find_again (is_named name) b (node i ks) c f t) refl

    -- What a write leaves in place of the file that is found, and what is printed of it.
    cat_written :
        (c : ℕ → ℕ) (size : ℕ) (i : Info) (fs : Fs A) (b ks behind : Nodes)
        → is_file i.kind ≡ true
        → 0 < size
        → fails (is_named name) b ≡ true
        → is_named name i ≡ true
        → {out : ℤ × Info × A.State × Bool} → Written c size i out
        → out.0 ≡ pos 0
        → out.3 ≡ false
          × (fs_cat A name (record fs {
            children = rejoin b (cons (node out.1 ks) behind);
            heap = out.2;
          })).serial
            ≡ fs.serial ++ bytes_from size 0 c ++ 13 ∷ 10 ∷ []
    cat_written c size i fs b ks behind f z fb t (written {p} {h} m) e =
        let j : Info = record i { data_ptr = p; size = size; contents = bytes_from size 0 c } in
        let there : Fs A = record fs { children = rejoin b (cons (node j ks) behind); heap = h } in
        (
          refl,
          ap (λ (g : Fs A). g.serial) (cat_again fs b behind j ks h fb t)
              ∙ cat_filled c size p i there f z m,
        )
    cat_written c size i fs b ks behind f z fb t refused e = absurd (failed≢ok e)

    -- After a write that succeeds, of at least one byte, to the first child of that name, a file,
    -- `fs_cat` sends exactly the bytes written and a line end.
    pub fs_cat-fs_write_file :
        (c : ℕ → ℕ) (size : ℕ) (fs : Fs A) {b ks behind : Nodes} {i : Info}
        → find_split (is_named name) nil fs.children ≡ some (b, node i ks, behind)
        → is_file i.kind ≡ true
        → 0 < size
        → (fs_write_file A name (some c) size fs).0 ≡ pos 0
        → (fs_cat A name (fs_write_file A name (some c) size fs).1).serial
          ≡ fs.serial ++ bytes_from size 0 c ++ 13 ∷ 10 ∷ []
    unfolding fs_write_file
    fs_cat-fs_write_file c size fs {b} {ks} {behind} {i} e f z = elim (Bool-cases (ltb 512 size)) [
      | inl big ↦ rw big (λ w. absurd (failed≢ok w))
      | inr small ↦
          let (fb, t, same) =
            First-parts (subst (First nil fs.children) e (find_split-First nil fs.children refl)) in
          rw (small, same f)
            (λ w.
              let (ok, r) =
                cat_written c size i fs b ks behind f z fb t (write_info-Written c size i fs.heap z)
                  w in
              rw ok r)
    ]
