-- ===== src/Fs/Trip/Loop.antt =====
-- The loop of fs_init of src/fs.c over the whole table.
use os_itsc.Base.{
  ℕ, zero, suc, ◌+◌, ◌≤◌, ◌<◌, ◌≡◌, refl, sym, ◌∙◌, subst, true, false, List, [], ◌∷◌, length, ◌==◌,
  eq_refl, arith, Bool-cases, inl, inr, Option, some, none, update,
}
use os_itsc.Allocator.{Allocator, HasRoom}
use os_itsc.Disk.{Sectors}
use os_itsc.Fs.{Info, create_node}
use os_itsc.Fs.Table.{Table}
use os_itsc.Fs.Restore.{NodesMap, Restoring, restore_entry, restore_from}
use os_itsc.Fs.Trip.{plain}
use os_itsc.Fs.Trip.Rows.{Row, AllHold, Each}
use os_itsc.Fs.Trip.Kept.{Fits}
use os_itsc.Fs.Trip.Entries.{EntryRestored, entry_restored, restore_entry-EntryRestored}

-- A node that is there in place of another.
pub data Seen (i : Info) : Option Info → Type 0 where
  seen : {x : Info} → plain x ≡ plain i → Seen i (some x)

pub Seen-some :
    {i : Info} {o : Option Info} → Seen i o → (x : Info) × (o ≡ some x) × plain x ≡ plain i
Seen-some (seen {x} e) = (x, refl, e)

unfoldable pub AllSeen : List Row → ℕ → NodesMap → Type 0
AllSeen [] a m = Unit
AllSeen (r ∷ rs) a m = Seen r.info (m a) × AllSeen rs (a + 1) m

-- The requests for as many rows: a node and its contents.
abbrev pub twice : List Row → ℕ
twice [] = 0
twice (r ∷ rs) = suc (suc (twice rs))

module _ (A : Allocator) (Room : ℕ → A.State → Type 0) (more : HasRoom A Room) where
  -- The loop over rows that entries hold; every other entry is as it was.
  pub data Looped (rs : List Row) (a : ℕ) (m : NodesMap) : Option (Restoring A) → Type 0 where
    looped :
        {r : Restoring A}
        → AllSeen rs a r.map
        → ((j : ℕ) → j < a → r.map j ≡ m j)
        → Looped rs a m (some r)

  one_more :
      {w : Row} {rs : List Row} {a : ℕ} {m : NodesMap} {o : Option (Restoring A)} (x : Info)
      → plain x ≡ plain w.info
      → Looped rs (a + 1) (update m a (some x)) o
      → Looped (w ∷ rs) a m o
  unfolding AllSeen
  one_more {w} {rs} {a} {m} x e (looped {r} s b) =
      let place : (a == a) ≡ true = eq_refl a in
      let here : r.map a ≡ some x = b a (omega arith) ∙ rw place refl in
      looped (subst (Seen w.info) (sym here) (seen e), s)
        (λ j l. let other : (j == a) ≡ false = ground arith in b j (omega arith) ∙ rw other refl)

  next_entry :
      {w : Row} {rs : List Row} {a : ℕ} {r : Restoring A} {o : Option (Restoring A)} (n j : ℕ)
      (t : Table) (disk : Sectors)
      → ((r' : Restoring A)
          → Room j r'.heap
          → Looped rs (a + 1) r'.map (restore_from A n (a + 1) t disk r'))
      → EntryRestored A Room more w.info a j r o
      → Looped
          (w ∷ rs)
          a
          r.map
          (elim o [ none ↦ none | some next ↦ restore_from A n (a + 1) t disk next ])
  next_entry {w} {rs} {a} {r} n j t disk rest (entry_restored x {h} e left) =
      one_more x e (rest (record r { map = update r.map a (some x); heap = h }) left)

  -- Entries that are not in use change nothing.
  restore_from_unused :
      (n a : ℕ) (t : Table) (disk : Sectors) (r : Restoring A)
      → ((j : ℕ) → a ≤ j → j < a + n → (t j).is_used ≡ 0)
      → restore_from A n a t disk r ≡ some r
  unfolding restore_from restore_entry create_node
  restore_from_unused zero a t disk r u = refl
  restore_from_unused (suc n) a t disk r u =
      let free : (t a).is_used ≡ 0 = u a (omega arith) (omega arith) in
      let rest =
        restore_from_unused n (a + 1) t disk r (λ j p q. u j (omega arith) (omega arith)) in
      elim (Bool-cases ((A.malloc 56 r.heap).0 == 0)) [
        | inl out ↦ rw (restore_from, restore_entry, out, free) rest
        | inr got ↦ rw (restore_from, restore_entry, got, free) rest
      ]

  pub restore_from-Looped :
      (rs : List Row) (n a : ℕ) (t : Table) (disk : Sectors) (r : Restoring A)
      → Each Fits rs
      → length rs ≤ n
      → a + n ≤ 16
      → AllHold rs a t disk
      → ((j : ℕ) → a + length rs ≤ j → j < a + n → (t j).is_used ≡ 0)
      → Room (twice rs) r.heap
      → Looped rs a r.map (restore_from A n a t disk r)
  unfolding restore_from Each AllHold AllSeen
  restore_from-Looped [] n a t disk r f l m h u room =
      subst (Looped [] a r.map)
        (sym (restore_from_unused n a t disk r (λ j p q. u j (omega arith) q)))
        (looped tt (λ j b. refl))
  restore_from-Looped (w ∷ rs) zero a t disk r f l m h u room = absurd (omega arith)
  restore_from-Looped (w ∷ rs) (suc n) a t disk r (g, f) l m (h, k) u room =
      next_entry n (twice rs) t disk
        (λ r' left.
          restore_from-Looped rs n (a + 1) t disk r' f (omega arith) (omega arith) k
            (λ j p q. u j (omega arith) (omega arith)) left)
        (restore_entry-EntryRestored A Room more w a (twice rs) (t a) disk r g.0 (omega arith) h
          room)
