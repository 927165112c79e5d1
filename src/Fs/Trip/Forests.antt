-- ===== src/Fs/Trip/Forests.antt =====
-- The tree that the links of fs_init in src/fs.c make.
use os_itsc.Base.{
  ℕ, zero, suc, ◌+◌, ◌<◌, ◌≡◌, refl, ap, ◌∙◌, subst, List, [], ◌∷◌, ◌++◌, length, arith,
}
use os_itsc.Fs.{Info, node, Nodes, nil, cons}
use os_itsc.Fs.Restore.{NodesMap, forest}
use os_itsc.Fs.Trip.{plain, plain_all, mirror, count}
use os_itsc.Fs.Trip.Rows.{Row, rows, length-rows}
use os_itsc.Fs.Trip.Loop.{Seen, Seen-some, AllSeen}
use os_itsc.Fs.Trip.Links.{indices, IsLinked}

pub AllSeen-append :
    (xs ys : List Row) (a b : ℕ) (m : NodesMap)
    → a + length xs ≡ b
    → AllSeen (xs ++ ys) a m
    → AllSeen xs a m × AllSeen ys b m
unfolding AllSeen
AllSeen-append [] ys a b m e s =
    let same : a ≡ b = omega arith in (tt, subst (λ n. AllSeen ys n m) same s)
AllSeen-append (x ∷ xs) ys a b m e (h, s) =
    let (p, q) = AllSeen-append xs ys (a + 1) b m (omega arith) s in ((h, p), q)

-- A list of indices whose first one has a node.
forest_first :
    (n : ℕ) (m : NodesMap) (kids : ℕ → List ℕ) (i : Info) (a : ℕ) (acc : List ℕ) (below : Nodes)
    → Seen i (m a)
    → plain_all (forest n m kids (kids a)) ≡ below
    → plain_all (forest (suc n) m kids (a ∷ acc))
      ≡ cons (node (plain i) below) (plain_all (forest (suc n) m kids acc))
unfolding forest plain_all
forest_first n m kids i a acc below s e =
    let (x, there, same) = Seen-some s in rw (forest, there, same, e) refl

pub forest_none : (n : ℕ) (m : NodesMap) (kids : ℕ → List ℕ) → plain_all (forest n m kids []) ≡ nil
unfolding forest plain_all
forest_none zero m kids = refl
forest_none (suc n) m kids = refl

pub forest-mirror :
    (ks : Nodes) (n p a : ℕ) (m : NodesMap) (kids : ℕ → List ℕ) (acc : List ℕ)
    → count ks < n
    → AllSeen (rows ks p a) a m
    → IsLinked ks a kids
    → plain_all (forest n m kids (indices ks a acc)) ≡ mirror ks (plain_all (forest n m kids acc))
unfolding rows count AllSeen IsLinked indices mirror
forest-mirror ks zero p a m kids acc l s h = absurd (omega arith)
forest-mirror nil (suc n) p a m kids acc l s h = refl
forest-mirror (cons (node i inner) ks) (suc n) p a m kids acc l (s, more) (h, below, behind) =
    let b = a + 1 + count inner in
    let (s1, s2) =
      AllSeen-append (rows inner a (a + 1)) (rows ks p b) (a + 1) b m
        (omega (arith, length-rows inner a (a + 1))) more in
    let ih = forest-mirror inner n a (a + 1) m kids [] (omega arith) s1 below in
    let inside : plain_all (forest n m kids (kids a)) ≡ mirror inner nil =
      ap (λ is. plain_all (forest n m kids is)) h ∙ ih ∙ ap (mirror inner) (forest_none n m kids) in
    forest-mirror ks (suc n) p b m kids (a ∷ acc) (omega arith) s2 behind
    ∙ ap (mirror ks) (forest_first n m kids i a acc (mirror inner nil) s inside)
