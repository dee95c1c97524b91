-- ===== src/Fs/Ramfs/Write.antt =====
-- kernel/fs/ramfs.c: a write stores its buffer and nothing else, and a read gives it back.
use zurich_os.Base.{
  ℕ, ◌+◌, ◌-◌, ◌^◌, ◌≤◌, ◌<◌, ◌≡◌, ◌≢◌, ◌⊎◌, inl, inr, refl, sym, ap, ap₂, ◌∙◌, Bool, false, ◌&&◌,
  Option, none, some, List, [], ◌∷◌, length, get_or, ltb, leb, if◌then◌else◌, if_true, if_false,
  if_cases, Bool-cases, ℤ, pos, neg, arith,
}
use zurich_os.Memory.Frames.{u32}
use zurich_os.Fs.Ramfs.{
  Node, Read, ramfs_max_file_size, is_directory, slice, put_bytes, slice_of, bytes_to_read,
  ramfs_read, grow_file, written, store_bytes, ramfs_write,
}
use zurich_os.Fs.Ramfs.Contents.{
  length-put_bytes, get_or-put_bytes_out, get_or-put_bytes_in, slice-eq, length_of, byte_at, IsFile,
  Grown,
}
use zurich_os.Fs.Ramfs.Grow.{grow_file-Grown}

-- The byte at `k` of a file after `buffer` has been written at `offset`.
abbrev pub byte_after : Node → ℕ → List ℕ → ℕ → ℕ
byte_after n offset buffer k =
    if leb offset k && ltb k (offset + length buffer)
    then get_or buffer (k - offset) 0
    else byte_at n.bytes k

-- What a write of the buffer leaves: the file with those bytes, and no other changed, or, where it
-- was refused, as it was.
pub data WriteOutcome (n : Node) (offset : ℕ) (buffer : List ℕ) (r : ℤ × Node) : Type 0 where
  stored :
      r.0 ≡ pos (length buffer)
      → IsFile r.1
      → r.1.size ≡ (if ltb n.size (offset + length buffer) then offset + length buffer else n.size)
      → ((k : ℕ) → byte_at r.1.bytes k ≡ byte_after n offset buffer k)
      → WriteOutcome n offset buffer r
  refused : r.0 ≡ neg 1 → r.1 ≡ n → WriteOutcome n offset buffer r

-- Where a byte of the file comes from.
byte-written :
    (n : Node) (bytes : Option (List ℕ)) (offset : ℕ) (buffer : List ℕ) (k : ℕ)
    → offset + length buffer ≤ length_of bytes
    → byte_at bytes k ≡ byte_at n.bytes k
    → byte_at (written bytes offset buffer) k ≡ byte_after n offset buffer k
byte-written n none offset buffer k room same =
    same ∙ sym (if_false (leb offset k && ltb k (offset + length buffer)) _ _ (ground arith))
byte-written n (some xs) offset buffer k room same =
    elim (Bool-cases (leb offset k && ltb k (offset + length buffer))) [
      | inl inside ↦
          let low : offset ≤ k = ground arith in
          let high : k < offset + length buffer = ground arith in
          ap (λ j. get_or (put_bytes xs offset buffer) j 0) (omega arith)
          ∙ get_or-put_bytes_in xs offset buffer (k - offset) room (omega arith)
          ∙ sym (
              if_true (leb offset k && ltb k (offset + length buffer)) _ (byte_at n.bytes k) inside)
      | inr outside ↦
          get_or-put_bytes_out xs offset buffer k (apart outside)
          ∙ same
          ∙ sym (
              if_false (leb offset k && ltb k (offset + length buffer))
                (get_or buffer (k - offset) 0) _ outside)
    ]
  where
    apart :
        (leb offset k && ltb k (offset + length buffer)) ≡ false
        → (k < offset) ⊎ (offset + length buffer ≤ k)
    apart off = elim (Bool-cases (ltb k offset)) [
      | inl low ↦ inl (ground arith)
      | inr not_low ↦ inr (ground arith)
    ]

length-written :
    (bytes : Option (List ℕ)) (offset : ℕ) (buffer : List ℕ)
    → length_of (written bytes offset buffer) ≡ length_of bytes
length-written none offset buffer = refl
length-written (some xs) offset buffer = length-put_bytes xs offset buffer

behind_end :
    (n : Node) (offset : ℕ) (buffer : List ℕ) (k : ℕ)
    → IsFile n
    → (if ltb n.size (offset + length buffer) then offset + length buffer else n.size) ≤ k
    → byte_after n offset buffer k ≡ 0
behind_end n offset buffer k f le =
    let total : offset + length buffer ≤ k = ground arith in
    let size : n.size ≤ k = ground arith in
    if_false (leb offset k && ltb k (offset + length buffer)) _ (byte_at n.bytes k) (ground arith)
    ∙ f.zeros k size

store_bytes-Stored :
    (now offset : ℕ) (buffer : List ℕ) (n : Node) (o : Option Node)
    → IsFile n
    → offset + length buffer < 2 ^ 32
    → ((g : Node) → o ≡ some g → Grown (offset + length buffer) n g)
    → WriteOutcome n offset buffer (store_bytes now offset buffer n o)
unfolding store_bytes
store_bytes-Stored now offset buffer n none f small grown = refused refl refl
store_bytes-Stored now offset buffer n (some g) f small grown =
    let w = grown g refl in
    let end : u32 (offset + length buffer) ≡ offset + length buffer = omega arith in
    let same = λ (k : ℕ).
      byte-written n g.bytes offset buffer k (omega (arith, w.room, w.array)) (w.same k) in
    let total = offset + length buffer in
    let size : (if ltb g.size (u32 total) then u32 total else g.size)
        ≡ (if ltb n.size total then total else n.size) =
      ap₂ (λ a b. if ltb a b then b else a) w.same_size end in
    stored refl
      (record {
        plain = w.same_kind ∙ f.plain;
        array = length-written g.bytes offset buffer ∙ w.array;
        within = rw size (
            if_cases (λ x. x ≤ g.capacity) (ltb n.size total) (λ _. w.room)
              (λ _. omega (arith, f.within, w.larger)));
        bound = w.bound;
        zeros = λ k le. same k ∙ behind_end n offset buffer k f (rw (← size) le);
      })
      size same

-- A write to a sound file, of bytes that end below 2 ^ 32, stores exactly them, with zeros between the
-- old end of the file and the first of them, and leaves a sound file; or it is refused and changes
-- nothing. Sound is a file whose array has its capacity and holds zeros behind the file's end.
pub ramfs_write-Outcome :
    (room : Bool) (now offset : ℕ) (buffer : List ℕ) (n : Node)
    → IsFile n
    → offset + length buffer < 2 ^ 32
    → WriteOutcome n offset buffer (ramfs_write room now offset buffer n)
unfolding ramfs_write
ramfs_write-Outcome room now offset buffer n f small =
    let end : u32 (offset + length buffer) ≡ offset + length buffer = omega arith in
    if_cases (WriteOutcome n offset buffer) (is_directory n) (λ _. refused refl refl)
      (λ _.
        if_cases (WriteOutcome n offset buffer)
          (ltb ramfs_max_file_size (u32 (offset + length buffer))) (λ _. refused refl refl)
          (λ ok.
            store_bytes-Stored now offset buffer n (grow_file room (u32 (offset + length buffer)) n)
              f small
              (λ g e.
                grow_file-Grown room (offset + length buffer) n g f (ground arith)
                  (ap (λ x. grow_file room x n) (sym end) ∙ e))))

no_bytes : (buffer : List ℕ) → length buffer ≡ 0 → buffer ≡ []
no_bytes [] e = refl
no_bytes (b ∷ bs) e = absurd (omega arith)

copied-eq :
    (bytes : Option (List ℕ)) (offset : ℕ) (buffer : List ℕ)
    → 0 < length_of bytes
    → ((k : ℕ) → k < length buffer → byte_at bytes (offset + k) ≡ get_or buffer k 0)
    → slice_of bytes offset (length buffer) ≡ buffer
copied-eq none offset buffer some_room e = absurd (omega arith)
copied-eq (some xs) offset buffer some_room e = slice-eq xs offset buffer e

pos-ne-neg : (a : ℕ) → pos a ≢ neg 1
pos-ne-neg a e = cc

module _ (n : Node) (offset : ℕ) (buffer : List ℕ) (small : offset + length buffer < 2 ^ 32) where
  read_back :
      (now : ℕ) (m : Node)
      → IsFile m
      → m.size ≡ (if ltb n.size (offset + length buffer) then offset + length buffer else n.size)
      → ((k : ℕ) → byte_at m.bytes k ≡ byte_after n offset buffer k)
      → let r = ramfs_read now offset (length buffer) m in
        (r.count ≡ pos (length buffer)) × (r.copied ≡ buffer)
  unfolding ramfs_read slice
  read_back now m f size same =
      let reach : offset + length buffer ≤ m.size = ground arith in
      let to_read : bytes_to_read m offset (length buffer) ≡ length buffer =
        if_false (ltb m.size (u32 (offset + length buffer))) (m.size - offset) (length buffer)
          (ground arith) in
      rw f.plain (
        if_cases (λ (r : Read). (r.count ≡ pos (length buffer)) × (r.copied ≡ buffer))
          (leb m.size offset)
          (λ past.
            let none_read : length buffer ≡ 0 = ground arith in
            (ap pos (sym none_read), sym (no_bytes buffer none_read)))
          (λ before. (
            ap pos to_read,
            ap (slice_of m.bytes offset) to_read
                ∙ copied-eq m.bytes offset buffer
                    (let room = f.array in let within = f.within in ground arith)
                    (λ k lt.
                      same (offset + k)
                      ∙ if_true
                          (leb offset (offset + k) && ltb (offset + k) (offset + length buffer)) _ _
                          (ground arith)
                      ∙ ap (λ j. get_or buffer j 0) (omega arith)),
          )))

  -- Where a write to a sound file, of bytes that end below 2 ^ 32, returns the length of its buffer, a
  -- read of as many bytes at the same offset copies just that buffer and returns its length.
  pub ramfs_read-ramfs_write :
      (room : Bool) (now later : ℕ)
      → IsFile n
      → (ramfs_write room now offset buffer n).0 ≡ pos (length buffer)
      → let r = ramfs_read later offset (length buffer) (ramfs_write room now offset buffer n).1 in
        (r.count ≡ pos (length buffer)) × (r.copied ≡ buffer)
  ramfs_read-ramfs_write room now later f done =
      elim (ramfs_write-Outcome room now offset buffer n f small) [
        | stored e g size same ↦
            read_back later (ramfs_write room now offset buffer n).1 g size same
        | refused e same ↦ absurd (pos-ne-neg (length buffer) (sym done ∙ e))
      ]
