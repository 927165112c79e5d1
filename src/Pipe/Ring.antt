-- ===== src/Pipe/Ring.antt =====
-- The two copy loops of pipe.c against the queue of bytes that a pipe holds.
use os_itsc.Base.{
  ℕ, zero, suc, ◌+◌, ◌-◌, ◌%◌, ◌≤◌, ◌<◌, min, ◌≡◌, refl, ap, ap₂, ◌∙◌, sym, List, [], ◌∷◌, ◌++◌,
  append-nil, append_assoc, arith, length, take, drop, update, ltb, Bool-cases, inl, inr, ltb→lt,
  ltb→ge,
}
use os_itsc.Pipe.{Pipe, pipe_buf_size, write_from, read_from}

-- The positions lie in the buffer, and the write position is `count` bytes past the read position.
pub record IsRing (p : Pipe) : Type 0 where
  pub read_in : p.read_pos < pipe_buf_size
  pub fits : p.count ≤ pipe_buf_size
  pub joined : p.write_pos ≡ (p.read_pos + p.count) % pipe_buf_size

-- The `n` bytes from the `k`th behind `start` on, going round at the end of the buffer.
abbrev pub window : (ℕ → ℕ) → ℕ → ℕ → ℕ → List ℕ
window b start k zero = []
window b start k (suc n) = b ((start + k) % pipe_buf_size) ∷ window b start (k + 1) n

-- The bytes in the pipe, oldest first.
abbrev pub contents : Pipe → List ℕ
contents p = window p.buffer p.read_pos 0 p.count

length-window : (b : ℕ → ℕ) (start k n : ℕ) → length (window b start k n) ≡ n
length-window b start k zero = refl
length-window b start k (suc n) = ap suc (length-window b start (k + 1) n)

pub length-contents : (p : Pipe) → length (contents p) ≡ p.count
length-contents p = length-window p.buffer p.read_pos 0 p.count

-- A write just behind a window that is shorter than the buffer extends it.
window-update :
    (b : ℕ → ℕ) (start k n i c : ℕ)
    → k + n < pipe_buf_size
    → i ≡ (start + (k + n)) % pipe_buf_size
    → window (update b i c) start k (suc n) ≡ window b start k n ++ c ∷ []
window-update b start k zero i c h e = ground arith
window-update b start k (suc n) i c h e =
    ap₂ ◌∷◌ (ground arith) (window-update b start (k + 1) n i c (omega arith) (omega arith))

-- Moving the start on by one is counting one more.
window_shift :
    (b : ℕ → ℕ) (start k n : ℕ)
    → window b ((start + 1) % pipe_buf_size) k n ≡ window b start (k + 1) n
window_shift b start k zero = refl
window_shift b start k (suc n) = ap₂ ◌∷◌ (ap b (omega arith)) (window_shift b start (k + 1) n)

window_head :
    (b : ℕ → ℕ) (start n : ℕ)
    → start < pipe_buf_size
    → 0 < n
    → window b start 0 n ≡ b start ∷ window b ((start + 1) % pipe_buf_size) 0 (n - 1)
window_head b start zero h q = absurd (omega arith)
window_head b start (suc n) h q =
    ap₂ ◌∷◌ (ap b (omega arith)) (sym (window_shift b start 0 n) ∙ ap (window b _ 0) (omega arith))

-- What the write loop has done when it stops, begun at `p` with `written` bytes gone before.
pub record Wrote (p : Pipe) (bytes : List ℕ) (written : ℕ) (out : ℕ × Pipe) : Type 0 where
  pub ring : IsRing out.1
  pub number : out.0 ≡ written + min (length bytes) (pipe_buf_size - p.count)
  pub held : contents out.1 ≡ contents p ++ take (pipe_buf_size - p.count) bytes
  pub read_flag : out.1.read_open ≡ p.read_open
  pub write_flag : out.1.write_open ≡ p.write_open

take-cons_pos : (n c : ℕ) (cs : List ℕ) → 0 < n → take n (c ∷ cs) ≡ c ∷ take (n - 1) cs
take-cons_pos zero c cs h = absurd (omega arith)
take-cons_pos (suc n) c cs h = ap (λ k. c ∷ take k cs) (omega arith)

take-nil : (n : ℕ) → take {A = ℕ} n [] ≡ []
take-nil zero = refl
take-nil (suc n) = refl

take_none : {n : ℕ} (cs : List ℕ) → n ≡ 0 → take n cs ≡ []
take_none cs e = ap (λ k. take k cs) e

-- One round of the write loop.
abbrev put : Pipe → ℕ → Pipe
put p c = record p {
  buffer = update p.buffer p.write_pos c;
  write_pos = (p.write_pos + 1) % pipe_buf_size;
  count = p.count + 1;
}

put-IsRing : {p : Pipe} (c : ℕ) → IsRing p → p.count < pipe_buf_size → IsRing (put p c)
put-IsRing c r h = omega arith

contents-put :
    {p : Pipe} (c : ℕ)
    → IsRing p
    → p.count < pipe_buf_size
    → contents (put p c) ≡ contents p ++ c ∷ []
contents-put {p} c r h =
    ap (window (update p.buffer p.write_pos c) p.read_pos 0) {y = suc p.count} (omega arith)
    ∙ window-update p.buffer p.read_pos 0 p.count p.write_pos c (omega arith) (omega arith)

pub write_from-Wrote :
    (bytes : List ℕ) (written : ℕ) {p : Pipe}
    → IsRing p
    → Wrote p bytes written (write_from bytes written p)
unfolding write_from
write_from-Wrote [] written {p} r = record {
  ring = r;
  number = omega arith;
  held =
      sym
        (ap (λ t. contents p ++ t) (take-nil (pipe_buf_size - p.count)) ∙ append-nil (contents p));
  read_flag = refl;
  write_flag = refl;
}
write_from-Wrote (c ∷ cs) written {p} r = elim (Bool-cases (ltb p.count pipe_buf_size)) [
  | inl room ↦
      let lt = ltb→lt _ _ room in
      let next = write_from-Wrote cs (written + 1) (put-IsRing c r lt) in
      rw room (record {
        ring = next.ring;
        number = omega (arith, next.number);
        held =
            next.held
            ∙ ap₂ ◌++◌ (contents-put c r lt)
                (ap (λ k. take k cs) {y = pipe_buf_size - p.count - 1} (omega arith))
            ∙ append_assoc (contents p) (c ∷ []) _
            ∙ ap (λ t. contents p ++ t)
                (sym (take-cons_pos (pipe_buf_size - p.count) c cs (omega arith)));
        read_flag = next.read_flag;
        write_flag = next.write_flag;
      })
  | inr full ↦ rw full (record {
    ring = r;
    number = omega (arith, ltb→ge _ _ full);
    held = sym (
        ap (λ t. contents p ++ t) (take_none (c ∷ cs) (omega (arith, ltb→ge _ _ full)))
        ∙ append-nil (contents p));
    read_flag = refl;
    write_flag = refl;
  })
]

-- What the read loop has done when it stops.
pub record Took (p : Pipe) (len : ℕ) (out : List ℕ × Pipe) : Type 0 where
  pub ring : IsRing out.1
  pub bytes : out.0 ≡ take len (contents p)
  pub held : contents out.1 ≡ drop len (contents p)
  pub read_flag : out.1.read_open ≡ p.read_open
  pub write_flag : out.1.write_open ≡ p.write_open

-- One round of the read loop.
abbrev get : Pipe → Pipe
get p = record p { read_pos = (p.read_pos + 1) % pipe_buf_size; count = p.count - 1 }

get-IsRing : {p : Pipe} → IsRing p → 0 < p.count → IsRing (get p)
get-IsRing r h = omega arith

contents-get :
    {p : Pipe} → IsRing p → 0 < p.count → contents p ≡ p.buffer p.read_pos ∷ contents (get p)
contents-get {p} r h = window_head p.buffer p.read_pos p.count r.read_in h

contents_empty : (p : Pipe) → p.count ≡ 0 → contents p ≡ []
contents_empty p e = ap (window p.buffer p.read_pos 0) e

pub read_from-Took : (len : ℕ) {p : Pipe} → IsRing p → Took p len (read_from len p)
unfolding read_from
read_from-Took zero {p} r = record {
  ring = r;
  bytes = refl;
  held = refl;
  read_flag = refl;
  write_flag = refl;
}
read_from-Took (suc k) {p} r = elim (Bool-cases (ltb 0 p.count)) [
  | inl some_left ↦
      let lt = ltb→lt _ _ some_left in
      let next = read_from-Took k (get-IsRing r lt) in
      rw some_left (record {
        ring = next.ring;
        bytes = rw (contents-get r lt) (ap (λ t. p.buffer p.read_pos ∷ t) next.bytes);
        held = rw (contents-get r lt) next.held;
        read_flag = next.read_flag;
        write_flag = next.write_flag;
      })
  | inr dry ↦
      let none_left : contents p ≡ [] = contents_empty p (omega (arith, ltb→ge _ _ dry)) in
      rw dry (record {
        ring = r;
        bytes = rw none_left;
        held = rw none_left;
        read_flag = refl;
        write_flag = refl;
      })
]
