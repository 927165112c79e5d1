-- ===== src/Heap/Insert.antt =====
-- Where insert_and_coalesce of src/heap.c puts a header into a chain, and its merges.
use os_itsc.Base.{
  ℕ, zero, suc, ◌+◌, ◌-◌, ◌%◌, ◌≤◌, ◌<◌, ◌≡◌, ◌⊎◌, refl, sym, ap, ◌∙◌, subst, inl, inr, false, not,
  ◌&&◌, Option, some, ltb, ltb→lt, ◌==◌, update, Bool-cases, eq_refl, arith,
}
use os_itsc.Heap.{
  word, null, header_size, Header, add32, header_to_payload, set_size, place_from, merge_next,
  merge_prev,
}
use os_itsc.Heap.Chain.{
  end_of, Off, not_at, starts_from, link_at, kept_at, new_at, Chain, over, link, below, forget,
  Walk, stop, step,
}

-- Where the search for the place of `b` ends: behind the headers below it.
pub data Place (m : ℕ → Header) (b p c : ℕ) : Option (ℕ × ℕ) → Type 0 where
  place :
      {prev cur : ℕ}
      → Walk m prev cur p c
      → prev < b
      → (cur ≡ 0) ⊎ (b < cur)
      → Place m b p c (some (prev, cur))

further :
    {m : ℕ → Header} {b p c : ℕ} {o : Option (ℕ × ℕ)}
    → (c == 0) ≡ false
    → Place m b c (m c).next o
    → Place m b p c o
further n (place w l r) = place (step n w) l r

pub place_from-Place :
    {m : ℕ → Header} {hi y : ℕ} (fuel b p c : ℕ) {lo : ℕ}
    → b < y
    → Chain m hi b y lo c
    → p < b
    → hi - lo < fuel
    → Place m b p c (place_from fuel b m p c)
unfolding place_from
place_from-Place zero b p c lt v l f = absurd (omega arith)
place_from-Place (suc fuel) b p c lt over l f = place stop l (inl refl)
place_from-Place {m} {hi} {y = e} (suc fuel) b p c lt (link a lc h n rest) l f =
    let nz : (c == 0) ≡ false = ground arith in
    let other : (c == b) ≡ false =
      not_at b e b c (end_of c (m c)) (omega arith) lt (omega arith) n in
    elim (Bool-cases (ltb c b)) [
      | inl low ↦
          rw (nz, low)
            (further nz
              (place_from-Place fuel b c (m c).next lt rest (ltb→lt c b low) (omega arith)))
      | inr high ↦ rw (nz, high) (place stop l (inr (ground arith)))
    ]

-- The header that a walk ends behind is none of those before it.
pub no_later :
    {m : ℕ → Header} {hi x y prev cur p c lo : ℕ}
    → Walk m prev cur p c
    → Chain m hi x y lo c
    → p < lo
    → p ≤ prev
no_later stop v lt = omega arith
no_later (step nz w) over lt = absurd (ground arith)
no_later (step nz w) (link a l h n rest) lt = let le = no_later w rest (omega arith) in omega arith

-- A block of a list without the bytes of `b` ends before them or begins behind them.
pub ends_before : (b e c q : ℕ) → b < e → c < b → c < q → Off b e c q → q ≤ b
ends_before b e c q l lt h o = ground arith

begins_behind : (b e c q : ℕ) → b < c → c < q → Off b e c q → e ≤ c
begins_behind b e c q lt h o = ground arith

pub raise :
    {m : ℕ → Header} {hi b e lo cur : ℕ}
    → (cur ≡ 0) ⊎ (b < cur)
    → Chain m hi b e lo cur
    → Chain m hi b e e cur
raise r over = over
raise (inl e) (link a l h n rest) = absurd (omega arith)
raise {m} {hi} {b} {e} (inr lt) (link {cur = cur} a l h n rest) =
    link a (begins_behind b e cur (end_of cur (m cur)) lt (omega arith) n) h n rest

-- The header at `b` between the two of its place.
pub put_between :
    {m : ℕ → Header} {hi b prev cur c d lo : ℕ} (v w : Header)
    → Walk m prev cur c d
    → d ≡ (m c).next
    → w.size ≡ (m prev).size
    → Chain m hi b (end_of b v) (end_of c (m c)) d
    → 0 < c
    → lo ≤ c
    → end_of c (m c) ≤ hi
    → Off b (end_of b v) c (end_of c (m c))
    → prev < b
    → end_of b v ≤ hi
    → (cur ≡ 0) ⊎ (b < cur)
    → Chain (update (update m b (record v { next = cur })) prev (record w { next = b })) hi 0 0 lo c
put_between {m} {hi} {b} {prev} {cur} {c} v w stop e sw rest z l h o lt lh r =
    let off : (b == prev) ≡ false = ground arith in
    let here = ends_before b (end_of b v) c (end_of c (m c)) (omega arith) lt (omega arith) o in
    link_at (record w { next = b }) (new_at (update m b (record v { next = cur })) prev _) z l
      (omega (arith, sw)) (starts_from 0 0 c _ (omega arith))
      (link_at (record v { next = cur })
        (kept_at (update m b (record v { next = cur })) prev b _ off ∙ new_at m b _) (omega arith)
        (omega (arith, sw, here)) lh (starts_from 0 0 b _ (omega arith))
        (forget (below prev _ (omega arith) (below b _ (omega arith) (raise r rest)))))
put_between v w (step nz k) e sw over z l h o lt lh r = absurd (ground arith)
put_between {m} {hi} {b} {prev} {cur} {c} v w (step nz k) e sw (link a l' h' n rest) z l h o lt lh
      r =
    let le = no_later k rest (omega arith) in
    let off : (c == prev) ≡ false = ground arith in
    let off' : (c == b) ≡ false = ground arith in
    link_at (m c)
      (kept_at (update m b (record v { next = cur })) prev c _ off
        ∙ kept_at m b c (record v { next = cur }) off')
      z l h (starts_from 0 0 c _ (omega arith))
      (rw (sym e) (put_between v w k refl sw rest a l' h' n lt lh r))

-- The size and the end of two blocks that become one.
together :
    (b size n size' hi : ℕ)
    → hi < word
    → n + header_size + size' ≤ hi
    → b + header_size + size ≤ hi
    → add32 (header_to_payload b) size ≡ n
    → (b + header_size + (size + header_size + size') % word ≡ n + header_size + size')
unfolding header_to_payload
together b size n size' hi w h l e =
    let flat : b + header_size + size ≡ n = omega (arith, e) in omega (arith, flat)

next_out :
    {m : ℕ → Header} {hi lo b d : ℕ} (x y : Header)
    → d ≡ (m b).next
    → hi < word
    → 0 < b
    → lo ≤ b
    → end_of b (m b) ≤ hi
    → 0 < d
    → y.next ≡ (m d).next
    → y.size ≡ ((m b).size + header_size + (m d).size) % word
    → add32 (header_to_payload b) (m b).size ≡ d
    → Chain m hi 0 0 (end_of b (m b)) d
    → Chain (update (update m b x) b y) hi 0 0 lo b
next_out x y ed w z l h dz e sz t over = absurd (omega arith)
next_out {m} {hi} {lo} {b} {d} x y ed w z l h dz e sz t (link a l' h' n rest) =
    let same : end_of b y ≡ end_of d (m d) =
      ap (λ q. b + header_size + q) sz ∙ together b (m b).size d (m d).size hi w h' h t in
    link_at y (new_at (update m b x) b y) z l (omega (arith, same))
      (starts_from 0 0 b _ (omega arith))
      (subst (λ q. Chain (update (update m b x) b y) hi 0 0 (end_of b y) q) (sym e)
        (subst (λ p. Chain (update (update m b x) b y) hi 0 0 p (m d).next) (sym same)
          (below b y (omega arith) (below b x (omega arith) rest))))

-- Two headers written at one place, the second of which takes in the block behind it.
left_out :
    {m : ℕ → Header} {hi lo c : ℕ} (b : ℕ) (x y : Header)
    → hi < word
    → y.next ≡ (m (m b).next).next
    → y.size ≡ ((m b).size + header_size + (m (m b).next).size) % word
    → add32 (header_to_payload b) (m b).size ≡ (m b).next
    → 0 < (m b).next
    → Chain m hi 0 0 lo c
    → Chain (update (update m b x) b y) hi 0 0 lo c
left_out b x y w e sz t z over = over
left_out {m} {hi} {lo} b x y w e sz t z (link {cur = c} a l h n rest) = elim (Bool-cases (c == b)) [
  | inl here ↦
      let at : b ≡ c = ground arith in
      subst (λ q. Chain (update (update m b x) b y) hi 0 0 lo q) at
        (next_out x y refl w (omega (arith, at)) (omega (arith, at))
          (subst (λ q. end_of q (m q) ≤ hi) (sym at) h) z e sz t
          (subst (λ q. Chain m hi 0 0 (end_of q (m q)) (m q).next) (sym at) rest))
  | inr off ↦
      link_at (m c) (kept_at (update m b x) b c y off ∙ kept_at m b c x off) a l h n
        (left_out b x y w e sz t z rest)
]

size_of : (b n : ℕ) (m : ℕ → Header) → (set_size b n m b).size ≡ n
size_of b n m = rw (eq_refl b) refl

pub merge_next-Chain :
    {m : ℕ → Header} {hi lo c : ℕ} (b : ℕ)
    → hi < word
    → Chain m hi 0 0 lo c
    → Chain (merge_next b m) hi 0 0 lo c
unfolding merge_next
merge_next-Chain {m} b w v =
    elim (Bool-cases
      (not ((m b).next == null) && (add32 (header_to_payload b) (m b).size == (m b).next))) [
        | inl yes_it ↦
            let t : add32 (header_to_payload b) (m b).size ≡ (m b).next = ground arith in
            let sum = ((m b).size + header_size + (m (m b).next).size) % word in
            rw yes_it (
              left_out b (record (m b) { size = sum })
                (record (set_size b sum m b) { next = (m (m b).next).next }) w refl
                (size_of b sum m) t (ground arith) v)
        | inr not_it ↦ rw not_it v
      ]

pub merge_next-next :
    (b prev : ℕ) (m : ℕ → Header) → (prev == b) ≡ false → (merge_next b m prev).next ≡ (m prev).next
unfolding merge_next
merge_next-next b prev m e = ground arith

pub merge_prev-Chain :
    {m : ℕ → Header} {hi lo c : ℕ} (prev b : ℕ)
    → hi < word
    → ((prev == 0) ≡ false → (m prev).next ≡ b)
    → 0 < b
    → Chain m hi 0 0 lo c
    → Chain (merge_prev prev b m) hi 0 0 lo c
unfolding merge_prev
merge_prev-Chain {m} prev b w e z v =
    elim (Bool-cases (not (prev == null) && (add32 (header_to_payload prev) (m prev).size == b))) [
      | inl yes_it ↦
          let e' = e (ground arith) in
          let t : add32 (header_to_payload prev) (m prev).size ≡ b = ground arith in
          let sum = ((m prev).size + header_size + (m b).size) % word in
          rw yes_it (
            left_out prev (record (m prev) { size = sum })
              (record (set_size prev sum m prev) { next = (m b).next }) w
              (ap (λ q. (m q).next) (sym e'))
              (size_of prev sum m
                ∙ ap (λ q. ((m prev).size + header_size + (m q).size) % word) (sym e'))
              (t ∙ sym e') (omega (arith, e')) v)
      | inr not_it ↦ rw not_it v
    ]
