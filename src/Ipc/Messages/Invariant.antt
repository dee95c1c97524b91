-- ===== src/Ipc/Messages/Invariant.antt =====
-- Every operation on the message queues keeps every queue well formed.
use zurich_os.Base.{
  ℕ, ◌≡◌, sym, ◌∙◌, Bool, true, false, not, List, ltb, leb, ◌==◌, if_cases, if_holds,
  get_or-set_keeps, get_or-replicate, length-replicate, set, ℤ, index?, Option, none, some,
  find_index?, Found, find_index?-Found, length, length-set, arith,
}
use zurich_os.Base.Ring.{length-window}
use zurich_os.Ipc.Messages.{
  Queue, max_msg_queues, max_msg_size, max_msgs, no_msg, no_queue, Table, queue_of, init, is_free,
  has_key, create_in, create_or_find, msgq_create, send_to, msgq_send, wanted, look, remove,
  Received, take_message, receive_from, msgq_receive, destroy_in, msgq_destroy,
}
use zurich_os.Ipc.Messages.Order.{IsOk, contents, enqueue-IsOk, remove-IsOk, look-contents}

pub record AllOk (t : Table) : Type 0 where
  pub size : length t ≡ max_msg_queues
  pub each : (i : ℕ) → IsOk (queue_of t i)

empty-IsOk : (key : ℕ) (b : Bool) → IsOk (record no_queue { key = key; in_use = b })
empty-IsOk key b = omega arith

set-AllOk : (t : Table) (i : ℕ) (q : Queue) → AllOk t → IsOk q → AllOk (set t i q)
set-AllOk t i q a k = record {
  size = length-set t i q ∙ a.size;
  each = λ j. get_or-set_keeps IsOk t i j q no_queue k (a.each j);
}

-- The zeroed table of `ipc_init` is well formed.
pub init-AllOk : AllOk init
unfolding init
init-AllOk = record {
  size = length-replicate max_msg_queues no_queue;
  each = λ i. rw (get_or-replicate max_msg_queues i no_queue) (empty-IsOk 0 false);
}

create_in-AllOk : (t : Table) (key : ℕ) (o : Option ℕ) → AllOk t → AllOk (create_in t key o).0
create_in-AllOk t key none a = a
create_in-AllOk t key (some i) a = set-AllOk t i _ a (empty-IsOk key true)

create_or_find-AllOk :
    (t : Table) (key : ℕ) (o : Option ℕ) → AllOk t → AllOk (create_or_find t key o).0
create_or_find-AllOk t key (some i) a = a
create_or_find-AllOk t key none a = create_in-AllOk t key (find_index? is_free t) a

send_to-AllOk :
    (t : Table) (msgp : List ℕ) (msgsz : ℕ) (mtype : ℤ) (o : Option ℕ)
    → AllOk t
    → AllOk (send_to t msgp msgsz mtype o).0
send_to-AllOk t msgp msgsz mtype none a = a
send_to-AllOk t msgp msgsz mtype (some i) a =
    let q : Queue = queue_of t i in
    if_holds (λ (r : Table × ℤ). AllOk r.0) (ltb max_msg_size msgsz) a
      (if_holds (λ (r : Table × ℤ). AllOk r.0) (not q.in_use) a
        (if_cases (λ (r : Table × ℤ). AllOk r.0) (leb max_msgs q.count) (λ _. a)
          (λ room.
            set-AllOk t i _ a (enqueue-IsOk q msgp msgsz mtype (a.each i) (ground (arith, room))))))

take_message-AllOk :
    (t : Table) (i msgsz : ℕ) (mtype : ℤ) (o : Option ℕ)
    → AllOk t
    → find_index? (wanted mtype) (contents (queue_of t i)) ≡ o
    → AllOk (take_message t i msgsz o).table
take_message-AllOk t i msgsz mtype none a e = a
take_message-AllOk t i msgsz mtype (some j) a e =
    let q : Queue = queue_of t i in
    let f : Found (wanted mtype) (contents q) no_msg j =
      find_index?-Found (wanted mtype) (contents q) no_msg j e in
    set-AllOk t i (remove q j) a (
      remove-IsOk q j (a.each i)
        (omega (arith, f.within, length-window max_msgs no_msg q.messages q.head q.count)))

receive_from-AllOk :
    (t : Table) (msgsz : ℕ) (mtype : ℤ) (o : Option ℕ)
    → AllOk t
    → AllOk (receive_from t msgsz mtype o).table
receive_from-AllOk t msgsz mtype none a = a
receive_from-AllOk t msgsz mtype (some i) a =
    let q : Queue = queue_of t i in
    if_holds (λ (r : Received). AllOk r.table) (not q.in_use) a
      (if_holds (λ (r : Received). AllOk r.table) (q.count == 0) a
        (take_message-AllOk t i msgsz mtype (look q mtype q.count 0) a
          (sym (look-contents q mtype))))

destroy_in-AllOk : (t : Table) (o : Option ℕ) → AllOk t → AllOk (destroy_in t o).0
destroy_in-AllOk t none a = a
destroy_in-AllOk t (some i) a =
    if_holds (λ (r : Table × ℤ). AllOk r.0) (not (queue_of t i).in_use) a
      (set-AllOk t i _ a (off (queue_of t i) (a.each i)))
  where
    off : (q : Queue) → IsOk q → IsOk (record q { in_use = false })
    off q k = record { size = k.size; head_in = k.head_in; fits = k.fits; tail_at = k.tail_at }

-- The calls that change the queues.
pub data Call : Type 0 where
  create : ℕ → Call
  send : ℤ → List ℕ → ℕ → ℤ → Call
  receive : ℤ → ℕ → ℤ → Call
  destroy : ℤ → Call

unfoldable pub apply : Call → Table → Table
apply (create key) t = (msgq_create t key).0
apply (send msqid msgp msgsz mtype) t = (msgq_send t msqid msgp msgsz mtype).0
apply (receive msqid msgsz mtype) t = (msgq_receive t msqid msgsz mtype).table
apply (destroy msqid) t = (msgq_destroy t msqid).0

-- Any call, with any arguments, keeps every queue well formed.
pub apply-AllOk : (c : Call) (t : Table) → AllOk t → AllOk (apply c t)
unfolding apply msgq_create msgq_send msgq_receive msgq_destroy
apply-AllOk (create key) t a = create_or_find-AllOk t key (find_index? (has_key key) t) a
apply-AllOk (send msqid msgp msgsz mtype) t a =
    send_to-AllOk t msgp msgsz mtype (index? max_msg_queues msqid) a
apply-AllOk (receive msqid msgsz mtype) t a =
    receive_from-AllOk t msgsz mtype (index? max_msg_queues msqid) a
apply-AllOk (destroy msqid) t a = destroy_in-AllOk t (index? max_msg_queues msqid) a
