-- ===== src/Fs/Trip/Links.antt =====
-- The loop of fs_init of src/fs.c that links the nodes, and the tree that the links make.
use os_itsc.Base.{
  ℕ, zero, suc, ◌+◌, ◌≤◌, ◌<◌, ◌≡◌, refl, sym, ap, ◌∙◌, subst, true, false, List, [], ◌∷◌, ◌++◌,
  ◌⊎◌, length, ltb, ◌==◌, inl, inr, Bool-cases, eq_refl, arith, Option, update,
}
use os_itsc.Disk.{Sectors}
use os_itsc.Fs.{Info, node, Nodes, nil, cons}
use os_itsc.Fs.Table.{Table}
use os_itsc.Fs.Restore.{NodesMap, is_there, link_from}
use os_itsc.Fs.Trip.{count}
use os_itsc.Fs.Trip.Rows.{Row, rows, length-rows, AllHold, Each}
use os_itsc.Fs.Trip.Loop.{Seen, seen, AllSeen}

-- The children of each index after the rows from the index `a` on.
unfoldable pub link_rows : List Row → ℕ → (ℕ → List ℕ) → ℕ → List ℕ
link_rows [] a kids = kids
link_rows (r ∷ rs) a kids = link_rows rs (a + 1) (update kids r.parent (a ∷ kids r.parent))

link_rows-append :
    (xs ys : List Row) (a b : ℕ) (kids : ℕ → List ℕ)
    → a + length xs ≡ b
    → link_rows (xs ++ ys) a kids ≡ link_rows ys b (link_rows xs a kids)
unfolding link_rows
link_rows-append [] ys a b kids e =
    let same : a ≡ b = omega arith in ap (λ n. link_rows ys n kids) same
link_rows-append (x ∷ xs) ys a b kids e =
    link_rows-append xs ys (a + 1) b (update kids x.parent (a ∷ kids x.parent)) (omega arith)

pub is_there-Seen : {i : Info} {o : Option Info} → Seen i o → is_there o ≡ true
is_there-Seen (seen e) = refl

-- Both the node and its parent are there.
abbrev pub HasParent : NodesMap → Row → Type 0
HasParent m r = ltb r.parent 16 ≡ true × is_there (m r.parent) ≡ true

-- The loop over rows, and entries behind them that are not in use.
pub link_from-link_rows :
    (rs : List Row) (n a : ℕ) (t : Table) (disk : Sectors) (m : NodesMap) (kids : ℕ → List ℕ)
    → length rs ≤ n
    → AllHold rs a t disk
    → AllSeen rs a m
    → Each (HasParent m) rs
    → ((j : ℕ) → a + length rs ≤ j → j < a + n → (t j).is_used ≡ 0)
    → link_from n a t m kids ≡ link_rows rs a kids
unfolding link_from link_rows Each AllHold AllSeen
link_from-link_rows [] zero a t disk m kids l h s p u = refl
link_from-link_rows [] (suc n) a t disk m kids l h s p u =
    let free : (t a).is_used ≡ 0 = u a (omega arith) (omega arith) in
    rw (link_from, free)
      (link_from-link_rows [] n (a + 1) t disk m kids (omega arith) tt tt tt
        (λ j b c. u j (omega arith) (omega arith)))
link_from-link_rows (r ∷ rs) zero a t disk m kids l h s p u = absurd (omega arith)
link_from-link_rows (r ∷ rs) (suc n) a t disk m kids l (h, hs) (s, ss) ((p, q), ps) u =
    let used : ((t a).is_used == 0) ≡ false = ground (arith, h.uses) in
    rw (link_from, used, is_there-Seen s, h.parents, p, q)
      (link_from-link_rows rs n (a + 1) t disk m (update kids r.parent (a ∷ kids r.parent))
        (omega arith) hs ss ps (λ j b c. u j (omega arith) (omega arith)))

-- The indices of a list of trees from the index `a` on, the last one first, put on `acc`.
unfoldable pub indices : Nodes → ℕ → List ℕ → List ℕ
indices nil a acc = acc
indices (cons (node i inner) ks) a acc = indices ks (a + 1 + count inner) (a ∷ acc)

-- The links of every node in the trees lead to its children.
unfoldable pub IsLinked : Nodes → ℕ → (ℕ → List ℕ) → Type 0
unfolding indices count
IsLinked nil a kids = Unit
IsLinked (cons (node i inner) ks) a kids =
    kids a ≡ indices inner (a + 1) []
    × IsLinked inner (a + 1) kids
    × IsLinked ks (a + 1 + count inner) kids

IsLinked-congruent :
    (ks : Nodes) (a : ℕ) (kids kids' : ℕ → List ℕ)
    → ((j : ℕ) → a ≤ j → j < a + count ks → kids' j ≡ kids j)
    → IsLinked ks a kids
    → IsLinked ks a kids'
unfolding IsLinked count
IsLinked-congruent nil a kids kids' e h = tt
IsLinked-congruent (cons (node i inner) ks) a kids kids' e (h, below, behind) = (
  e a (omega arith) (omega arith) ∙ h,
  IsLinked-congruent inner (a + 1) kids kids' (λ j b c. e j (omega arith) (omega arith)) below,
  IsLinked-congruent ks (a + 1 + count inner) kids kids' (λ j b c. e j (omega arith) (omega arith))
      behind,
)

-- What the rows of a list of trees below the index `p` do to the links.
pub record Links (ks : Nodes) (p a : ℕ) (kids kids' : ℕ → List ℕ) : Type 0 where
  pub at_parent : kids' p ≡ indices ks a (kids p)
  pub elsewhere : (j : ℕ) → (j == p) ≡ false → j < a ⊎ a + count ks ≤ j → kids' j ≡ kids j
  pub inside : IsLinked ks a kids'

first_link :
    (a p j : ℕ) (kids : ℕ → List ℕ) → (j == p) ≡ false → update kids p (a ∷ kids p) j ≡ kids j
first_link a p j kids n = rw n refl

-- A tree and the trees behind it.
both_Links :
    {i : Info} {inner ks : Nodes} {p a : ℕ} {kids kids1 kids2 : ℕ → List ℕ}
    → p < a
    → ((j : ℕ) → a ≤ j → j < a + count (cons (node i inner) ks) → kids j ≡ [])
    → Links inner a (a + 1) (update kids p (a ∷ kids p)) kids1
    → Links ks p (a + 1 + count inner) kids1 kids2
    → Links (cons (node i inner) ks) p a kids kids2
unfolding count indices IsLinked
both_Links {i} {inner} {ks} {p} {a} {kids} {kids1} {kids2} l e x y =
    let apart : (p == a) ≡ false = ground arith in
    let apart' : (a == p) ≡ false = ground arith in
    let same : (p == p) ≡ true = eq_refl p in
    let put : kids1 p ≡ a ∷ kids p = x.elsewhere p apart (inl (omega arith)) ∙ rw same refl in
    let none_yet : kids a ≡ [] = e a (omega arith) (omega arith) in
    record {
      at_parent = y.at_parent ∙ ap (indices ks (a + 1 + count inner)) put;
      elsewhere = λ j n o. elim (Bool-cases (j == a)) [
        | inl at_a ↦ absurd (ground arith)
        | inr off_a ↦
            y.elsewhere j n (ground arith)
            ∙ x.elsewhere j off_a (ground arith)
            ∙ first_link a p j kids n
      ];
      inside = (
        y.elsewhere a apart' (inl (omega arith))
            ∙ x.at_parent
            ∙ ap (indices inner (a + 1)) (first_link a p a kids apart' ∙ none_yet),
        IsLinked-congruent inner (a + 1) kids1 kids2
            (λ j b c. y.elsewhere j (ground arith) (inl (omega arith))) x.inside,
        y.inside,
      );
    }

pub link_rows-Links :
    (ks : Nodes) (p a : ℕ) (kids : ℕ → List ℕ)
    → p < a
    → ((j : ℕ) → a ≤ j → j < a + count ks → kids j ≡ [])
    → Links ks p a kids (link_rows (rows ks p a) a kids)
unfolding link_rows rows count indices IsLinked
link_rows-Links nil p a kids l e = record {
  at_parent = refl;
  elsewhere = λ j n o. refl;
  inside = tt;
}
link_rows-Links (cons (node i inner) ks) p a kids l e =
    let b = a + 1 + count inner in
    let kids0 = update kids p (a ∷ kids p) in
    let kids1 = link_rows (rows inner a (a + 1)) (a + 1) kids0 in
    let x : Links inner a (a + 1) kids0 kids1 =
      link_rows-Links inner a (a + 1) kids0 (omega arith)
        (λ j m n. first_link a p j kids (ground arith) ∙ e j (omega arith) (omega arith)) in
    let y : Links ks p b kids1 (link_rows (rows ks p b) b kids1) =
      link_rows-Links ks p b kids1 (omega arith) (λ j m n.
        x.elsewhere j (ground arith) (inr (omega arith))
        ∙ first_link a p j kids (ground arith)
        ∙ e j (omega arith) (omega arith)) in
    subst (Links (cons (node i inner) ks) p a kids)
      (sym (
        link_rows-append (rows inner a (a + 1)) (rows ks p b) (a + 1) b kids0
          (omega (arith, length-rows inner a (a + 1)))))
      (both_Links l e x y)
