-- ===== src/Ipc/Pipes/Create.antt =====
-- `pipe_create`: which descriptors and which pipe it takes, and what the two ends are then.
use zurich_os.Base.{
  ℕ, ◌-◌, ◌<◌, ◌≡◌, ◌≢◌, refl, ap, ◌∙◌, true, false, if_true, get_or, length, length-set, lt→ltb,
  ltb, get_or-set_self, get_or-set_ne, Option, none, some, arith, pos, neg, index?, find_index?,
  Found, find_index?-Found, find_index?-none, find_index?-set_eq,
}
use zurich_os.Process.{
  FdEntry, Process, no_fd, no_process, proc_at, lives_as, process_current, max_fds,
}
use zurich_os.Ipc.Pipes.{
  Pipe, Ipc, Made, zero_pipe, pipe_free, pipe_at, fd_at, with_fd, with_pipe, open_fd, open_end,
  pick_fds, connect, make, failed, pipe_create, max_pipes,
}
use zurich_os.Ipc.Pipes.Buffer.{IsOk, zero_pipe-IsOk}
use zurich_os.Ipc.Pipes.Transfer.{Opens}
use zurich_os.Ipc.Pipes.Pick.{Lowest, two, fewer, first}

-- What a new pipe is: a free entry of the table, now empty with one reader and one writer, whose two ends
-- are the two lowest free descriptors from 3 on, the reading one first.
pub record Fresh (s : Ipc) (i id r w : ℕ) (m : Made) : Type 0 where
  pub was_free : (pipe_at s id).in_use ≡ false
  pub first_free : (j : ℕ) → j < id → (pipe_at s j).in_use ≡ true
  pub lowest : Lowest (proc_at s.kernel.table i).fd_table 3 max_fds (some r, some w)
  pub result : m.result ≡ pos 0
  pub pipefd : m.pipefd ≡ some (r, w)
  pub ok : IsOk (pipe_at m.state id)
  pub empty : (pipe_at m.state id).count ≡ 0
  pub one_reader : (pipe_at m.state id).readers ≡ 1
  pub one_writer : (pipe_at m.state id).writers ≡ 1
  pub reads : Opens m.state (pos r) 0 id
  pub writes : Opens m.state (pos w) 1 id

-- The pipe that `pipe_create` sets up.
abbrev new_pipe : ℕ → ℕ → Pipe
new_pipe r w = record zero_pipe {
  in_use = true;
  readers = 1;
  writers = 1;
  read_fd = r;
  write_fd = w;
}

new_pipe-IsOk : (r w : ℕ) → IsOk (new_pipe r w)
new_pipe-IsOk r w = record {
  size = zero_pipe-IsOk.size;
  read_in = zero_pipe-IsOk.read_in;
  fits = zero_pipe-IsOk.fits;
  write_at = zero_pipe-IsOk.write_at;
}

new_pipe_empty : (r w : ℕ) → (new_pipe r w).count ≡ 0
unfolding zero_pipe
new_pipe_empty r w = refl

module _ (s : Ipc) (i fd : ℕ) (e : FdEntry) (in_table : i < length s.kernel.table)
    (in_fds : fd < length (proc_at s.kernel.table i).fd_table) where
  fd_at-with_fd : fd_at (with_fd s i fd e) i fd ≡ e
  fd_at-with_fd =
      ap (λ (p : Process). get_or p.fd_table fd no_fd)
        (get_or-set_self s.kernel.table i _ no_process in_table)
      ∙ get_or-set_self (proc_at s.kernel.table i).fd_table fd e no_fd in_fds

  fd_at_other : (g : ℕ) → fd ≢ g → fd_at (with_fd s i fd e) i g ≡ fd_at s i g
  fd_at_other g ne =
      ap (λ (p : Process). get_or p.fd_table g no_fd)
        (get_or-set_self s.kernel.table i _ no_process in_table)
      ∙ get_or-set_ne (proc_at s.kernel.table i).fd_table fd g e no_fd ne

  current_kept :
      process_current s.kernel ≡ some i → process_current (with_fd s i fd e).kernel ≡ some i
  unfolding process_current
  current_kept cur =
      find_index?-set_eq (lives_as s.kernel.current_pid) s.kernel.table i _ no_process refl ∙ cur

  table_kept : length (with_fd s i fd e).kernel.table ≡ length s.kernel.table
  table_kept = length-set s.kernel.table i _

  fds_kept :
      length (proc_at (with_fd s i fd e).kernel.table i).fd_table
      ≡ length (proc_at s.kernel.table i).fd_table
  fds_kept =
      ap (λ (p : Process). length p.fd_table)
        (get_or-set_self s.kernel.table i _ no_process in_table)
      ∙ length-set (proc_at s.kernel.table i).fd_table fd e

opens :
    (t : Ipc) (i fd way id : ℕ) (e : FdEntry)
    → process_current t.kernel ≡ some i
    → fd < max_fds
    → fd_at t i fd ≡ e
    → e.in_use ≡ true
    → e.pipe_id ≡ pos id
    → e.flags ≡ way
    → id < max_pipes
    → (pipe_at t id).in_use ≡ true
    → Opens t (pos fd) way id
unfolding open_end
opens t i fd way id e cur lt entry on to way_is id_lt live = record {
  place = record { proc = i; fd = fd };
  opened =
      ap (λ o. open_fd t o (index? max_fds (pos fd))) cur
      ∙ ap (open_fd t (some i)) (if_true (ltb fd max_fds) _ _ (lt→ltb fd max_fds lt))
      ∙ if_true (fd_at t i fd).in_use _ _ (ap (λ (x : FdEntry). x.in_use) entry ∙ on);
  leads =
      ap (λ (x : FdEntry). index? max_pipes x.pipe_id) entry
      ∙ ap (index? max_pipes) to
      ∙ if_true (ltb id max_pipes) _ _ (lt→ltb id max_pipes id_lt);
  side = ap (λ (x : FdEntry). x.flags) entry ∙ way_is;
  live = live;
}

connect-Fresh :
    (s : Ipc) (i id r w : ℕ)
    → Found pipe_free s.pipes zero_pipe id
    → length s.pipes ≡ max_pipes
    → process_current s.kernel ≡ some i
    → i < length s.kernel.table
    → length (proc_at s.kernel.table i).fd_table ≡ max_fds
    → Lowest (proc_at s.kernel.table i).fd_table 3 max_fds (some r, some w)
    → r < w
    → w < max_fds
    → Fresh s i id r w (connect s id i (some r, some w))
connect-Fresh s i id r w f pipes_size cur in_table fds_size low less w_lt =
    let p : Pipe = new_pipe r w in
    let s1 : Ipc = with_pipe s id p in
    let e1 : FdEntry = record (fd_at s1 i r) {
      in_use = true;
      pipe_id = pos id;
      flags = 0;
      node = 0;
    } in
    let s2 : Ipc = with_fd s1 i r e1 in
    let e2 : FdEntry = record (fd_at s2 i w) {
      in_use = true;
      pipe_id = pos id;
      flags = 1;
      node = 0;
    } in
    let s3 : Ipc = with_fd s2 i w e2 in
    let r_in : r < length (proc_at s1.kernel.table i).fd_table = omega (arith, fds_size) in
    let table_2 : i < length s2.kernel.table =
      omega (arith, table_kept s1 i r e1 in_table r_in, in_table) in
    let w_in : w < length (proc_at s2.kernel.table i).fd_table =
      omega (arith, fds_size, fds_kept s1 i r e1 in_table r_in) in
    let cur_3 : process_current s3.kernel ≡ some i =
      current_kept s2 i w e2 table_2 w_in (current_kept s1 i r e1 in_table r_in cur) in
    let at_r : fd_at s3 i r ≡ e1 =
      fd_at_other s2 i w e2 table_2 w_in r (λ e. absurd (omega (arith, e)))
      ∙ fd_at-with_fd s1 i r e1 in_table r_in in
    let at_w : fd_at s3 i w ≡ e2 = fd_at-with_fd s2 i w e2 table_2 w_in in
    let here : pipe_at s3 id ≡ p = get_or-set_self s.pipes id p zero_pipe f.within in
    let id_lt : id < max_pipes = omega (arith, f.within, pipes_size) in
    record {
      was_free = ground (arith, f.holds);
      first_free = λ j lt. ground (arith, f.first j lt);
      lowest = low;
      result = refl;
      pipefd = refl;
      ok = rw here (new_pipe-IsOk r w);
      empty = ap (λ (q : Pipe). q.count) here ∙ new_pipe_empty r w;
      one_reader = ap (λ (q : Pipe). q.readers) here;
      one_writer = ap (λ (q : Pipe). q.writers) here;
      reads =
          opens s3 i r 0 id e1 cur_3 (omega arith) at_r refl refl refl id_lt
            (ap (λ (q : Pipe). q.in_use) here);
      writes =
          opens s3 i w 1 id e2 cur_3 w_lt at_w refl refl refl id_lt
            (ap (λ (q : Pipe). q.in_use) here);
    }

current_in : (s : Ipc) (i : ℕ) → process_current s.kernel ≡ some i → i < length s.kernel.table
unfolding process_current
current_in s i e =
    (find_index?-Found (lives_as s.kernel.current_pid) s.kernel.table no_process i e).within

-- How `pipe_create` ends.
pub data CreateOutcome (s : Ipc) (m : Made) : Type 0 where
  fresh :
      (i id r w : ℕ) → process_current s.kernel ≡ some i → Fresh s i id r w m → CreateOutcome s m
  no_pipe :
      ((j : ℕ) → j < max_pipes → (pipe_at s j).in_use ≡ true)
      → m ≡ failed s (neg 24)
      → CreateOutcome s m
  no_current : process_current s.kernel ≡ none → m ≡ failed s (neg 1) → CreateOutcome s m
  no_fds :
      (i : ℕ) (r : Option ℕ)
      → process_current s.kernel ≡ some i
      → Lowest (proc_at s.kernel.table i).fd_table 3 max_fds (r, none)
      → m ≡ failed s (neg 24)
      → CreateOutcome s m

connected :
    (s : Ipc) (i id : ℕ) (o : Option ℕ × Option ℕ)
    → Found pipe_free s.pipes zero_pipe id
    → length s.pipes ≡ max_pipes
    → process_current s.kernel ≡ some i
    → i < length s.kernel.table
    → length (proc_at s.kernel.table i).fd_table ≡ max_fds
    → Lowest (proc_at s.kernel.table i).fd_table 3 max_fds o
    → CreateOutcome s (connect s id i o)
connected s i id (some r, some w) f pipes_size cur in_table fds_size (two _ _ a b c d e g) =
    fresh i id r w cur
      (connect-Fresh s i id r w f pipes_size cur in_table fds_size (two r w a b c d e g) b c)
connected s i id (none, some w) f pipes_size cur in_table fds_size x = elim x [ ]
connected s i id (none, none) f pipes_size cur in_table fds_size (fewer _ h) =
    no_fds i none cur (fewer none h) refl
connected s i id (some r, none) f pipes_size cur in_table fds_size (fewer _ h) =
    no_fds i (some r) cur (fewer (some r) h) refl

-- `pipe_create` takes the first pipe that is free and makes the two lowest free descriptors from 3 on its
-- ends, one of which reads from the pipe and the other writes to it; the pipe is then sound, empty, and has
-- one reader and one writer. It fails, with nothing changed, just where no pipe is free, where there is no
-- current process, or where fewer than two descriptors are free.
pub pipe_create-CreateOutcome :
    (s : Ipc)
    → length s.pipes ≡ max_pipes
    → ((i : ℕ)
        → process_current s.kernel ≡ some i
        → length (proc_at s.kernel.table i).fd_table ≡ max_fds)
    → CreateOutcome s (pipe_create s)
unfolding pipe_create
pipe_create-CreateOutcome s pipes_size fds_size =
    cases (find_index? pipe_free s.pipes) (process_current s.kernel) refl refl
  where
    cases :
        (o c : Option ℕ)
        → find_index? pipe_free s.pipes ≡ o
        → process_current s.kernel ≡ c
        → CreateOutcome s (make s o c)
    cases none c e cur =
        no_pipe
          (λ j lt.
            ground
              (arith, find_index?-none pipe_free s.pipes zero_pipe j e (omega (arith, pipes_size))))
          refl
    cases (some id) none e cur = no_current cur refl
    cases (some id) (some i) e cur =
        connected s i id (pick_fds (proc_at s.kernel.table i).fd_table (max_fds - 3) 3 none none)
          (find_index?-Found pipe_free s.pipes zero_pipe id e) pipes_size cur (current_in s i cur)
          (fds_size i cur)
          (first (proc_at s.kernel.table i).fd_table 3 29 3 (omega arith)
            (λ j a b. absurd (omega arith)))
