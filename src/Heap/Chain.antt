-- ===== src/Heap/Chain.antt =====
-- The free list of src/heap.c as a chain of headers, and the walks along it.
use os_itsc.Base.{
  ℕ, zero, suc, ◌+◌, ◌-◌, ◌^◌, ◌≤◌, ◌<◌, ◌≡◌, refl, sym, inl, inr, true, false, ◌||◌, Option, some,
  leb, ◌==◌, update, Bool-cases, eq_refl, arith,
}
use os_itsc.Heap.{null, header_size, Header, Heap, find_from, before_from}

-- Where a block ends.
abbrev pub end_of : ℕ → Header → ℕ
end_of p h = p + header_size + h.size

-- The bytes from `p` to `q` are none of those from `x` to `y`.
abbrev pub Off : ℕ → ℕ → ℕ → ℕ → Type 0
Off x y p q = (leb q x || leb y p) ≡ true

-- From `cur` on, each header stands behind the end of the block before it, from `lo` on, its block
-- ends at `hi` at most, and no byte of it is one of those from `x` to `y`.
pub data Chain (m : ℕ → Header) (hi x y : ℕ) : ℕ → ℕ → Type 0 where
  over : {lo : ℕ} → Chain m hi x y lo 0
  link :
      {lo cur : ℕ}
      → 0 < cur
      → lo ≤ cur
      → end_of cur (m cur) ≤ hi
      → Off x y cur (end_of cur (m cur))
      → Chain m hi x y (end_of cur (m cur)) (m cur).next
      → Chain m hi x y lo cur

-- The list from the static variables: its blocks are apart, and end below what
-- was never given out, in the lower half of the address space.
pub record IsHeap (s : Heap) : Type 0 where
  pub real : 0 < s.heap_start
  pub room : s.heap_bump ≤ s.heap_end
  pub addressed : s.heap_end ≤ 2 ^ 31
  pub chain : Chain s.mem s.heap_bump 0 0 s.heap_start s.free_list

pub lower :
    {m : ℕ → Header} {hi x y lo lo' cur : ℕ}
    → lo' ≤ lo
    → Chain m hi x y lo cur
    → Chain m hi x y lo' cur
lower le over = over
lower le (link p l h n rest) = link p (omega arith) h n rest

pub widen :
    {m : ℕ → Header} {hi hi' x y lo cur : ℕ}
    → hi ≤ hi'
    → Chain m hi x y lo cur
    → Chain m hi' x y lo cur
widen le over = over
widen le (link p l h n rest) = link p l (omega arith) n (widen le rest)

pub ends_by : (x y p q : ℕ) → q ≤ x → Off x y p q
ends_by x y p q h = ground arith

pub starts_from : (x y p q : ℕ) → y ≤ p → Off x y p q
starts_from x y p q h = ground arith

-- A chain that begins behind some bytes does not meet them.
pub behind :
    {m : ℕ → Header} {hi x y x' y' lo cur : ℕ}
    → y' ≤ lo
    → Chain m hi x y lo cur
    → Chain m hi x' y' lo cur
behind le over = over
behind {x' = x'} {y'} le (link p l h n rest) =
    link p l h (starts_from x' y' _ _ (omega arith)) (behind (omega arith) rest)

pub forget : {m : ℕ → Header} {hi x y lo cur : ℕ} → Chain m hi x y lo cur → Chain m hi 0 0 lo cur
forget over = over
forget {m} (link {cur = cur} p l h n rest) =
    link p l h (starts_from 0 0 cur (end_of cur (m cur)) (omega arith)) (forget rest)

-- A link whose header is known.
pub link_at :
    {m : ℕ → Header} {hi x y lo cur : ℕ} (g : Header)
    → m cur ≡ g
    → 0 < cur
    → lo ≤ cur
    → end_of cur g ≤ hi
    → Off x y cur (end_of cur g)
    → Chain m hi x y (end_of cur g) g.next
    → Chain m hi x y lo cur
link_at g e p l h n rest = link p l (rw e h) (rw e n) (rw e rest)

pub kept_at : (m : ℕ → Header) (p c : ℕ) (v : Header) → (c == p) ≡ false → update m p v c ≡ m c
kept_at m p c v e = rw e refl

pub new_at : (m : ℕ → Header) (p : ℕ) (v : Header) → update m p v p ≡ v
new_at m p v = rw (eq_refl p) refl

pub not_at : (x y p c q : ℕ) → x ≤ p → p < y → c < q → Off x y c q → (c == p) ≡ false
not_at x y p c q a b l o = ground arith

-- A header written where the chain does not stand.
pub apart :
    {m : ℕ → Header} {hi x y lo cur : ℕ} (p : ℕ) (v : Header)
    → x ≤ p
    → p < y
    → Chain m hi x y lo cur
    → Chain (update m p v) hi x y lo cur
apart p v a b over = over
apart {m} {hi} {x} {y} p v a b (link {lo} {cur} z l h n rest) =
    link_at (m cur) (kept_at m p cur v (not_at x y p cur (end_of cur (m cur)) a b (omega arith) n))
      z l h n (apart p v a b rest)

-- A header written below the chain, or above it.
pub below :
    {m : ℕ → Header} {hi x y lo cur : ℕ} (p : ℕ) (v : Header)
    → p < lo
    → Chain m hi x y lo cur
    → Chain (update m p v) hi x y lo cur
below p v lt over = over
below {m} p v lt (link {lo} {cur} z l h n rest) =
    let off : (cur == p) ≡ false = ground arith in
    link_at (m cur) (kept_at m p cur v off) z l h n (below p v (omega arith) rest)

pub above :
    {m : ℕ → Header} {hi x y lo cur : ℕ} (p : ℕ) (v : Header)
    → hi ≤ p
    → Chain m hi x y lo cur
    → Chain (update m p v) hi x y lo cur
above p v le over = over
above {m} p v le (link {lo} {cur} z l h n rest) =
    let off : (cur == p) ≡ false = ground arith in
    link_at (m cur) (kept_at m p cur v off) z l h n (above p v le rest)

-- The walk from a header, with the one before it, to another pair of them.
pub data Walk (m : ℕ → Header) (prev cur : ℕ) : ℕ → ℕ → Type 0 where
  stop : Walk m prev cur prev cur
  step : {p c : ℕ} → (c == 0) ≡ false → Walk m prev cur c (m c).next → Walk m prev cur p c

-- The outcome of a search: no header fits, or one where the walk ends, whose block is large enough.
pub data Search (asize : ℕ) (m : ℕ → Header) (p c : ℕ) : Option (ℕ × ℕ) → Type 0 where
  no_fit : Search asize m p c (some (null, null))
  fits :
      {prev cur : ℕ}
      → 0 < cur
      → asize ≤ (m cur).size
      → Walk m prev cur p c
      → Search asize m p c (some (prev, cur))

farther :
    {asize : ℕ} {m : ℕ → Header} {p c : ℕ} {o : Option (ℕ × ℕ)}
    → (c == 0) ≡ false
    → Search asize m c (m c).next o
    → Search asize m p c o
farther n no_fit = no_fit
farther n (fits a z w) = fits a z (step n w)

pub find_from-Search :
    {m : ℕ → Header} {hi x y : ℕ} (fuel asize p c : ℕ) {lo : ℕ}
    → Chain m hi x y lo c
    → hi - lo < fuel
    → Search asize m p c (find_from fuel asize m p c)
unfolding find_from
find_from-Search zero asize p c v f = absurd (omega arith)
find_from-Search (suc fuel) asize p c over f = no_fit
find_from-Search {m} (suc fuel) asize p c (link a l h n rest) f =
    let nz : (c == 0) ≡ false = ground arith in
    elim (Bool-cases (leb asize (m c).size)) [
      | inl ok ↦ rw (nz, ok) (fits a (enough asize (m c).size ok) stop)
      | inr small ↦
          rw (nz, small) (farther nz (find_from-Search fuel asize c (m c).next rest (omega arith)))
    ]
  where
    enough : (a b : ℕ) → leb a b ≡ true → a ≤ b
    enough a b h = ground arith

pub avoids :
    {m : ℕ → Header} {hi x y lo c : ℕ} → 0 < x → x < y → Chain m hi x y lo c → (c == x) ≡ false
avoids z b over = ground arith
avoids {m} {hi} {x} {y} {lo} {c} z b (link a l h n rest) =
    not_at x y x c (end_of c (m c)) (omega arith) b (omega arith) n

-- No header of a chain that avoids `x` has it as the next one.
pub before_from_ends :
    {m : ℕ → Header} {hi x y : ℕ} (fuel c : ℕ) {lo : ℕ}
    → 0 < x
    → x < y
    → Chain m hi x y lo c
    → hi - lo < fuel
    → before_from fuel x m c ≡ some 0
unfolding before_from
before_from_ends zero c z b v f = absurd (omega arith)
before_from_ends (suc fuel) c z b over f = refl
before_from_ends {m} {hi} {x} (suc fuel) c z b (link a l h n rest) f =
    let nz : (c == 0) ≡ false = ground arith in
    rw (nz, avoids z b rest) (before_from_ends fuel (m c).next z b rest (omega arith))

-- The header that a walk ends at stands behind those that it passes.
pub ahead :
    {m : ℕ → Header} {hi x y prev cur p c lo : ℕ}
    → Walk m prev cur p c
    → Chain m hi x y lo c
    → p < lo
    → 0 < cur
    → (p ≤ prev) × (prev < cur) × (lo ≤ cur)
ahead stop over lt z = absurd (omega arith)
ahead stop (link a l h n rest) lt z = (omega arith, omega arith, omega arith)
ahead (step nz w) over lt z = absurd (ground arith)
ahead (step nz w) (link a l h n rest) lt z =
    let (le, far, beyond) = ahead w rest (omega arith) z in (omega arith, omega arith, omega arith)

-- The end of the block at the end of a walk.
pub reached_end :
    {m : ℕ → Header} {hi x y prev cur p c lo : ℕ}
    → Walk m prev cur p c
    → Chain m hi x y lo c
    → 0 < cur
    → end_of cur (m cur) ≤ hi
reached_end stop over z = absurd (omega arith)
reached_end stop (link a l h n rest) z = h
reached_end (step nz w) over z = absurd (ground arith)
reached_end (step nz w) (link a l h n rest) z = reached_end w rest z

other : (a b : ℕ) → a < b → (a == b) ≡ false
other a b lt = ground arith

-- Taking out a header that is not the first one.
pub skip :
    {m : ℕ → Header} {hi prev cur c d lo : ℕ}
    → Walk m prev cur c d
    → d ≡ (m c).next
    → Chain m hi 0 0 (end_of c (m c)) d
    → 0 < c
    → lo ≤ c
    → end_of c (m c) ≤ hi
    → 0 < cur
    → Chain
        (update m prev (record (m prev) { next = (m cur).next }))
        hi
        cur
        (end_of cur (m cur))
        lo
        c
skip stop e over z l h y = absurd (omega arith)
skip {m} {hi} {prev} {cur} stop e (link a l' h' n rest) z l h y =
    link_at (record (m prev) { next = (m cur).next }) (new_at m prev _) z l h
      (ends_by cur (end_of cur (m cur)) _ _ l')
      (lower (omega arith) (behind (omega arith) (below prev _ (omega arith) rest)))
skip (step nz w) e over z l h y = absurd (ground arith)
skip {m} {hi} {prev} {cur} {c} (step nz w) e (link a l' h' n rest) z l h y =
    let (le, far, beyond) = ahead w rest (omega arith) y in
    link_at (m c) (kept_at m prev c _ (other c prev (omega arith))) z l h
      (ends_by cur (end_of cur (m cur)) _ _ (omega arith)) (rw (sym e) (skip w refl rest a l' h' y))
