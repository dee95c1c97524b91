-- ===== src/Ipc/Pipes/Buffer.antt =====
-- The buffer of a pipe as a queue of bytes.
use mathlib.Core.List.{append-nil, append_assoc}
use zurich_os.Base.{
  ℕ, zero, suc, ◌+◌, ◌-◌, ◌%◌, ◌<◌, ◌≤◌, min, ◌≡◌, refl, ap, ap₂, sym, ◌∙◌, List, [], ◌∷◌, ◌++◌,
  ltb, if_cases, ltb→lt, get_or, set, length, length-set, length-replicate, take, drop, arith,
}
use zurich_os.Base.Ring.{window, window-write, window-mod}
use zurich_os.Ipc.Pipes.{Pipe, pipe_buf_size, zero_pipe}
use zurich_os.Ipc.Pipes.Calls.{advance, drain, put, fill}

pub record IsOk (p : Pipe) : Type 0 where
  pub size : length p.buffer ≡ pipe_buf_size
  pub read_in : p.read_pos < pipe_buf_size
  pub fits : p.count ≤ pipe_buf_size
  pub write_at : p.write_pos ≡ (p.read_pos + p.count) % pipe_buf_size

-- The bytes in the pipe, oldest first.
abbrev pub contents : Pipe → List ℕ
contents p = window pipe_buf_size 0 p.buffer p.read_pos p.count

pub zero_pipe-IsOk : IsOk zero_pipe
unfolding zero_pipe
zero_pipe-IsOk = record {
  size = length-replicate {A = ℕ} pipe_buf_size 0;
  read_in = omega arith;
  fits = omega arith;
  write_at = omega arith;
}

put-IsOk : (p : Pipe) (b : ℕ) → IsOk p → p.count < pipe_buf_size → IsOk (put p b)
put-IsOk p b k room = record {
  size = length-set p.buffer p.write_pos b ∙ k.size;
  read_in = k.read_in;
  fits = omega arith;
  write_at = omega (arith, k.write_at);
}

contents-put :
    (p : Pipe) (b : ℕ)
    → IsOk p
    → p.count < pipe_buf_size
    → contents (put p b) ≡ contents p ++ b ∷ []
contents-put p b k room =
    let e : p.count + 1 ≡ suc p.count = omega arith in
    ap (window pipe_buf_size 0 (set p.buffer p.write_pos b) p.read_pos) e
    ∙ ap (λ w. window pipe_buf_size 0 (set p.buffer w b) p.read_pos (suc p.count)) k.write_at
    ∙ window-write pipe_buf_size 0 p.buffer p.read_pos (omega (arith, k.size)) p.count b room

advance-IsOk : (p : Pipe) → IsOk p → 0 < p.count → IsOk (advance p)
advance-IsOk p k some_there = record {
  size = k.size;
  read_in = omega arith;
  fits = omega arith;
  write_at = omega (arith, k.write_at);
}

contents-advance :
    (p : Pipe)
    → IsOk p
    → 0 < p.count
    → contents p ≡ get_or p.buffer p.read_pos 0 ∷ contents (advance p)
contents-advance p k some_there =
    let e : p.count ≡ suc (p.count - 1) = omega arith in
    let here : p.read_pos % pipe_buf_size ≡ p.read_pos = omega arith in
    ap (window pipe_buf_size 0 p.buffer p.read_pos) e
    ∙ ap₂ ◌∷◌ (ap (λ i. get_or p.buffer i 0) here)
        (sym (window-mod pipe_buf_size 0 p.buffer (p.read_pos + 1) (p.count - 1)))

-- What stays of a pipe while bytes pass through it.
abbrev pub Ends : Pipe → Pipe → Type 0
Ends p q = (q.readers ≡ p.readers) × (q.writers ≡ p.writers) × (q.in_use ≡ p.in_use)

take-nil : (n : ℕ) → take {A = ℕ} n [] ≡ []
take-nil zero = refl
take-nil (suc n) = refl

-- What the loop of `pipe_write` makes of a pipe and the bytes it is given: it takes as many as fit.
pub record Filled (p : Pipe) (bs : List ℕ) (r : ℕ × Pipe) : Type 0 where
  pub ok : IsOk r.1
  pub number : r.0 ≡ min (length bs) (pipe_buf_size - p.count)
  pub bytes : contents r.1 ≡ contents p ++ take (pipe_buf_size - p.count) bs
  pub ends : Ends p r.1

fill_more :
    (p : Pipe) (b : ℕ) (bs : List ℕ) (r : ℕ × Pipe)
    → IsOk p
    → p.count < pipe_buf_size
    → Filled (put p b) bs r
    → Filled p (b ∷ bs) (r.0 + 1, r.1)
fill_more p b bs r k room f =
    let left : pipe_buf_size - p.count ≡ suc (pipe_buf_size - (p.count + 1)) = omega arith in
    record {
      ok = f.ok;
      number = omega (arith, f.number);
      bytes =
          f.bytes
          ∙ ap (λ l. l ++ take (pipe_buf_size - (p.count + 1)) bs) (contents-put p b k room)
          ∙ append_assoc (contents p) (b ∷ []) (take (pipe_buf_size - (p.count + 1)) bs)
          ∙ ap (λ n. contents p ++ take n (b ∷ bs)) (sym left);
      ends = f.ends;
    }

fill_stops :
    (p : Pipe) (bs : List ℕ)
    → IsOk p
    → take (pipe_buf_size - p.count) bs ≡ []
    → min (length bs) (pipe_buf_size - p.count) ≡ 0
    → Filled p bs (0, p)
fill_stops p bs k none_fit zero_fit = record {
  ok = k;
  number = sym zero_fit;
  bytes = sym (ap (λ l. contents p ++ l) none_fit ∙ append-nil (contents p));
  ends = (refl, refl, refl);
}

-- On a sound pipe, the loop of `pipe_write` writes as many of the bytes as there is room for: exactly that
-- prefix is appended to the contents in order, its length is the number returned, the pipe stays sound,
-- and its ends are as before.
pub fill-Filled : (p : Pipe) (bs : List ℕ) → IsOk p → Filled p bs (fill p bs)
unfolding fill
fill-Filled p [] k = fill_stops p [] k (take-nil (pipe_buf_size - p.count)) (omega arith)
fill-Filled p (b ∷ bs) k =
    if_cases (Filled p (b ∷ bs)) (ltb p.count pipe_buf_size)
      (λ room.
        let lt : p.count < pipe_buf_size = ltb→lt p.count pipe_buf_size room in
        fill_more p b bs (fill (put p b) bs) k lt (fill-Filled (put p b) bs (put-IsOk p b k lt)))
      (λ full.
        let zero_left : pipe_buf_size - p.count ≡ 0 = ground (arith, k.fits) in
        fill_stops p (b ∷ bs) k (ap (λ n. take n (b ∷ bs)) zero_left) (omega arith))

-- What the loop of `pipe_read` makes of a pipe and the number of bytes wanted.
pub record Drained (p : Pipe) (n : ℕ) (r : List ℕ × Pipe) : Type 0 where
  pub ok : IsOk r.1
  pub bytes : r.0 ≡ take n (contents p)
  pub left : contents r.1 ≡ drop n (contents p)
  pub ends : Ends p r.1

drain_more :
    (p : Pipe) (n : ℕ) (r : List ℕ × Pipe)
    → IsOk p
    → 0 < p.count
    → Drained (advance p) n r
    → Drained p (suc n) (get_or p.buffer p.read_pos 0 ∷ r.0, r.1)
drain_more p n r k some_there f =
    let first = contents-advance p k some_there in
    record {
      ok = f.ok;
      bytes = ap (λ l. get_or p.buffer p.read_pos 0 ∷ l) f.bytes ∙ ap (take (suc n)) (sym first);
      left = f.left ∙ ap (drop (suc n)) (sym first);
      ends = f.ends;
    }

drain_empty : (p : Pipe) (n : ℕ) → IsOk p → p.count ≡ 0 → Drained p (suc n) ([], p)
drain_empty p n k none_there =
    let nothing : contents p ≡ [] = ap (window pipe_buf_size 0 p.buffer p.read_pos) none_there in
    record {
      ok = k;
      bytes = ap (take (suc n)) (sym nothing);
      left = nothing ∙ ap (drop (suc n)) (sym nothing);
      ends = (refl, refl, refl);
    }

-- On a sound pipe, the loop of `pipe_read` gives the first `n` bytes of the contents, or all where there are
-- fewer, in the order they were written; exactly those leave the pipe, which stays sound, and its ends are
-- as before.
pub drain-Drained : (p : Pipe) (n : ℕ) → IsOk p → Drained p n (drain p n)
unfolding drain
drain-Drained p zero k = record { ok = k; bytes = refl; left = refl; ends = (refl, refl, refl) }
drain-Drained p (suc n) k =
    if_cases (Drained p (suc n)) (ltb 0 p.count)
      (λ some_there.
        let lt : 0 < p.count = ltb→lt 0 p.count some_there in
        drain_more p n (drain (advance p) n) k lt
          (drain-Drained (advance p) n (advance-IsOk p k lt)))
      (λ empty. drain_empty p n k (ground arith))
