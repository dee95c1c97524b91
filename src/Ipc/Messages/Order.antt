-- ===== src/Ipc/Messages/Order.antt =====
-- A queue as the list of its messages, oldest first: sending appends, and receiving takes out the first
-- message that is wanted.
use zurich_os.Base.{
  ℕ, zero, suc, ◌+◌, ◌-◌, ◌%◌, ◌<◌, ◌≤◌, min, ◌≡◌, refl, ap, sym, ◌∙◌, Bool, true, false, List, [],
  ◌∷◌, ◌++◌, ltb, ◌==◌, if◌then◌else◌, get_or, get_or-set_self, set, take, ℤ, pos, neg, Option,
  none, some, find_index?, next_index, Found, find_index?-Found, length, length-set, lt→ltb, arith,
}
use zurich_os.Base.Ring.{
  at, window, close_gap, delete_at, window-write, window-close_gap, length-window, length-close_gap,
}
use zurich_os.Ipc.Messages.{
  Msg, Queue, max_msg_queues, max_msg_size, max_msgs, no_msg, no_queue, Table, queue_of, memcpy,
  enqueue, msgq_send, wanted, look, remove, Received, take_message, msgq_receive,
}

pub record IsOk (q : Queue) : Type 0 where
  pub size : length q.messages ≡ max_msgs
  pub head_in : q.head < max_msgs
  pub fits : q.count ≤ max_msgs
  pub tail_at : q.tail ≡ (q.head + q.count) % max_msgs

abbrev pub contents : Queue → List Msg
contents q = window max_msgs no_msg q.messages q.head q.count

-- The message that a send leaves in the array.
abbrev pub sent : Queue → List ℕ → ℕ → ℤ → Msg
sent q msgp msgsz mtype = record {
  mtype = mtype;
  mtext = memcpy (get_or q.messages q.tail no_msg).mtext msgp msgsz;
  msize = msgsz;
}

pub enqueue-IsOk :
    (q : Queue) (msgp : List ℕ) (msgsz : ℕ) (mtype : ℤ)
    → IsOk q
    → q.count < max_msgs
    → IsOk (enqueue q msgp msgsz mtype)
unfolding enqueue
enqueue-IsOk q msgp msgsz mtype k room = record {
  size = length-set q.messages q.tail (sent q msgp msgsz mtype) ∙ k.size;
  head_in = k.head_in;
  fits = omega arith;
  tail_at = omega (arith, k.tail_at);
}

pub contents-enqueue :
    (q : Queue) (msgp : List ℕ) (msgsz : ℕ) (mtype : ℤ)
    → IsOk q
    → q.count < max_msgs
    → contents (enqueue q msgp msgsz mtype) ≡ contents q ++ sent q msgp msgsz mtype ∷ []
unfolding enqueue
contents-enqueue q msgp msgsz mtype k room =
    let m : Msg = sent q msgp msgsz mtype in
    let e : q.count + 1 ≡ suc q.count = omega arith in
    ap (window max_msgs no_msg (set q.messages q.tail m) q.head) e
    ∙ ap (λ p. window max_msgs no_msg (set q.messages p m) q.head (suc q.count)) k.tail_at
    ∙ window-write max_msgs no_msg q.messages q.head (omega (arith, k.size)) q.count m room

-- The loop finds what a search of the list finds.
abbrev offset : ℕ → Option ℕ → Option ℕ
offset i none = none
offset i (some k) = some (i + k)

offset-next : (i : ℕ) (o : Option ℕ) → offset (i + 1) o ≡ offset i (next_index o)
offset-next i none = refl
offset-next i (some k) = ap some (omega arith)

offset-zero : (o : Option ℕ) → offset 0 o ≡ o
offset-zero none = refl
offset-zero (some k) = ap some (omega arith)

if_offset :
    (b : Bool) (i : ℕ) (o p : Option ℕ)
    → o ≡ offset (i + 1) p
    → (if b then some i else o) ≡ offset i (if b then some 0 else next_index p)
if_offset true i o p e = ap some (omega arith)
if_offset false i o p e = e ∙ offset-next i p

look_finds :
    (q : Queue) (mtype : ℤ) (n i : ℕ)
    → look q mtype n i
      ≡ offset i (find_index? (wanted mtype) (window max_msgs no_msg q.messages (q.head + i) n))
unfolding look
look_finds q mtype zero i = refl
look_finds q mtype (suc n) i =
    let e : q.head + (i + 1) ≡ q.head + i + 1 = omega arith in
    if_offset (wanted mtype (at max_msgs no_msg q.messages (q.head + i))) i (look q mtype n (i + 1))
      (find_index? (wanted mtype) (window max_msgs no_msg q.messages (q.head + i + 1) n))
      (look_finds q mtype n (i + 1)
        ∙ ap
            (λ p.
              offset (i + 1) (find_index? (wanted mtype) (window max_msgs no_msg q.messages p n)))
            e)

pub look-contents :
    (q : Queue) (mtype : ℤ) → look q mtype q.count 0 ≡ find_index? (wanted mtype) (contents q)
look-contents q mtype =
    let e : q.head + 0 ≡ q.head = omega arith in
    look_finds q mtype q.count 0
    ∙ offset-zero
        (find_index? (wanted mtype) (window max_msgs no_msg q.messages (q.head + 0) q.count))
    ∙ ap (λ p. find_index? (wanted mtype) (window max_msgs no_msg q.messages p q.count)) e

pub remove-IsOk : (q : Queue) (i : ℕ) → IsOk q → i < q.count → IsOk (remove q i)
unfolding remove
remove-IsOk q i k lt = record {
  size = length-close_gap max_msgs no_msg q.head (q.count - 1 - i) i q.messages ∙ k.size;
  head_in = k.head_in;
  fits = omega arith;
  tail_at = ground (arith, k.tail_at);
}

pub contents-remove :
    (q : Queue) (i : ℕ) → IsOk q → i < q.count → contents (remove q i) ≡ delete_at i (contents q)
unfolding remove
contents-remove q i k lt =
    let n : ℕ = q.count - 1 - i in
    let e : q.count - 1 ≡ i + n = omega arith in
    let e' : suc (i + n) ≡ q.count = omega arith in
    ap (window max_msgs no_msg (close_gap max_msgs no_msg q.messages q.head n i) q.head) e
    ∙ window-close_gap max_msgs no_msg q.messages q.head i n (omega (arith, k.size))
        (omega (arith, k.fits))
    ∙ ap (λ c. delete_at i (window max_msgs no_msg q.messages q.head c)) e'

-- Element `k` of a window.
get-window :
    (buf : List Msg) (n h k : ℕ)
    → k < n
    → get_or (window max_msgs no_msg buf h n) k no_msg ≡ at max_msgs no_msg buf (h + k)
get-window buf zero h k lt = absurd (omega arith)
get-window buf (suc n) h zero lt = let e : h ≡ h + 0 = omega arith in ap (at max_msgs no_msg buf) e
get-window buf (suc n) h (suc k) lt =
    let e : h + 1 + k ≡ h + suc k = omega arith in
    get-window buf n (h + 1) k (omega arith) ∙ ap (at max_msgs no_msg buf) e

-- What a buffer of `msgsz` bytes receives of a message.
abbrev pub prefix : Msg → ℕ → List ℕ
prefix m msgsz = take (min m.msize msgsz) m.mtext

shorter : (a b : ℕ) → (if ltb a b then a else b) ≡ min a b
shorter a b = ground arith

-- What a receive does to a queue that is in use and not empty, in terms of its list of messages: the first
-- wanted message is copied out, cut to the size of the buffer, and leaves the queue; all others keep
-- their order. If none is wanted, nothing changes.
pub data Delivered (t : Table) (i msgsz : ℕ) (mtype : ℤ) (r : Received) : Type 0 where
  nothing :
      find_index? (wanted mtype) (contents (queue_of t i)) ≡ none
      → r ≡ record { table = t; bytes = []; result = neg 42 }
      → Delivered t i msgsz mtype r
  message :
      (k : ℕ)
      → find_index? (wanted mtype) (contents (queue_of t i)) ≡ some k
      → r.bytes ≡ prefix (get_or (contents (queue_of t i)) k no_msg) msgsz
      → r.result ≡ pos (min (get_or (contents (queue_of t i)) k no_msg).msize msgsz)
      → IsOk (queue_of r.table i)
      → contents (queue_of r.table i) ≡ delete_at k (contents (queue_of t i))
      → Delivered t i msgsz mtype r

take_message-Delivered :
    (t : Table) (i msgsz : ℕ) (mtype : ℤ) (o : Option ℕ)
    → IsOk (queue_of t i)
    → i < length t
    → find_index? (wanted mtype) (contents (queue_of t i)) ≡ o
    → Delivered t i msgsz mtype (take_message t i msgsz o)
take_message-Delivered t i msgsz mtype none k lt e = Delivered.nothing e refl
take_message-Delivered t i msgsz mtype (some j) k lt e =
    let q : Queue = queue_of t i in
    let f : Found (wanted mtype) (contents q) no_msg j =
      find_index?-Found (wanted mtype) (contents q) no_msg j e in
    let below : j < q.count =
      omega (arith, f.within, length-window max_msgs no_msg q.messages q.head q.count) in
    let same = get-window q.messages q.count q.head j below in
    let there = get_or-set_self t i (remove q j) no_queue lt in
    Delivered.message j e
      (ap (λ c. take c (at max_msgs no_msg q.messages (q.head + j)).mtext) (shorter _ msgsz)
        ∙ ap (λ m. prefix m msgsz) (sym same))
      (ap pos (shorter _ msgsz) ∙ ap (λ (m : Msg). pos (min m.msize msgsz)) (sym same))
      (rw there (remove-IsOk q j k below)) (rw there (contents-remove q j k below))

pos_ne_zero : (n : ℕ) → 0 < n → (n == 0) ≡ false
pos_ne_zero n h = ground arith

reduces :
    (t : Table) (i msgsz : ℕ) (mtype : ℤ)
    → i < max_msg_queues
    → (queue_of t i).in_use ≡ true
    → 0 < (queue_of t i).count
    → msgq_receive t (pos i) msgsz mtype
      ≡ take_message t i msgsz (look (queue_of t i) mtype (queue_of t i).count 0)
unfolding msgq_receive
reduces t i msgsz mtype lt used some_there =
    rw (lt→ltb i max_msg_queues lt, used, pos_ne_zero (queue_of t i).count some_there) refl

accepts :
    (t : Table) (i : ℕ) (msgp : List ℕ) (msgsz : ℕ) (mtype : ℤ)
    → i < max_msg_queues
    → msgsz ≤ max_msg_size
    → (queue_of t i).in_use ≡ true
    → (queue_of t i).count < max_msgs
    → msgq_send t (pos i) msgp msgsz mtype
      ≡ (set t i (enqueue (queue_of t i) msgp msgsz mtype), pos 0)
unfolding msgq_send
accepts t i msgp msgsz mtype lt small used room = ground arith

-- `msgq_receive` on a queue in use that holds a message delivers the first wanted one, or answers -42 and
-- changes nothing.
pub msgq_receive-Delivered :
    (t : Table) (i msgsz : ℕ) (mtype : ℤ)
    → length t ≡ max_msg_queues
    → i < max_msg_queues
    → IsOk (queue_of t i)
    → (queue_of t i).in_use ≡ true
    → 0 < (queue_of t i).count
    → Delivered t i msgsz mtype (msgq_receive t (pos i) msgsz mtype)
msgq_receive-Delivered t i msgsz mtype size lt k used some_there =
    rw (reduces t i msgsz mtype lt used some_there, look-contents (queue_of t i) mtype)
      (take_message-Delivered t i msgsz mtype (find_index? (wanted mtype) (contents (queue_of t i)))
        k (omega arith) refl)

-- `msgq_send` to a queue in use that has room appends the message and nothing else; the queue stays well
-- formed.
pub msgq_send-appends :
    (t : Table) (i : ℕ) (msgp : List ℕ) (msgsz : ℕ) (mtype : ℤ)
    → length t ≡ max_msg_queues
    → i < max_msg_queues
    → msgsz ≤ max_msg_size
    → IsOk (queue_of t i)
    → (queue_of t i).in_use ≡ true
    → (queue_of t i).count < max_msgs
    → let r = msgq_send t (pos i) msgp msgsz mtype in
      (r.1 ≡ pos 0)
      × IsOk (queue_of r.0 i)
      × (contents (queue_of r.0 i)
          ≡ contents (queue_of t i) ++ sent (queue_of t i) msgp msgsz mtype ∷ [])
msgq_send-appends t i msgp msgsz mtype size lt small k used room =
    let q : Queue = queue_of t i in
    let there = get_or-set_self t i (enqueue q msgp msgsz mtype) no_queue (omega arith) in
    rw (accepts t i msgp msgsz mtype lt small used room) (
      refl,
      rw there (enqueue-IsOk q msgp msgsz mtype k room),
      rw there (contents-enqueue q msgp msgsz mtype k room),
    )
