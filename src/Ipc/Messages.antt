-- ===== src/Ipc/Messages.antt =====
-- kernel/ipc/ipc.c, the message queues. A queue is a circular array of 32 messages, from which a message
-- of a wanted type may be taken out of turn. What is printed is left out.
pub mod Order
pub mod Invariant
use zurich_os.Base.{
  ℕ, zero, suc, ◌+◌, ◌-◌, ◌%◌, ◌^◌, min, Bool, true, false, not, ◌&&◌, ◌||◌, List, [], ◌∷◌, ◌++◌,
  ltb, leb, ◌==◌, if◌then◌else◌, get_or, set, take, drop, replicate, ℤ, pos, negsuc, neg, index?,
  eqb_ℤ, Option, none, some, find_index?,
}
use zurich_os.Base.Ring.{at, close_gap}

-- `mtext` is the array of 256 bytes.
pub record Msg : Type 0 where
  pub mtype : ℤ
  pub mtext : List ℕ
  pub msize : ℕ

pub record Queue : Type 0 where
  pub key : ℕ
  pub messages : List Msg
  pub head : ℕ
  pub tail : ℕ
  pub count : ℕ
  pub in_use : Bool

abbrev pub max_msg_queues : ℕ
max_msg_queues = 16

abbrev pub max_msg_size : ℕ
max_msg_size = 256

abbrev pub max_msgs : ℕ
max_msgs = 32

abbrev pub no_msg : Msg
no_msg = record { mtype = pos 0; mtext = replicate max_msg_size 0; msize = 0 }

abbrev pub no_queue : Queue
no_queue = record {
  key = 0;
  messages = replicate max_msgs no_msg;
  head = 0;
  tail = 0;
  count = 0;
  in_use = false;
}

abbrev pub Table : Type 0
Table = List Queue

abbrev pub queue_of : Table → ℕ → Queue
queue_of t i = get_or t i no_queue

-- The zeroed table that `ipc_init` leaves.
unfoldable pub init : Table
init = replicate max_msg_queues no_queue

-- `memcpy(dst, src, n)` into the start of an array.
abbrev pub memcpy : List ℕ → List ℕ → ℕ → List ℕ
memcpy dst src n = take n src ++ drop n dst

abbrev pub has_key : ℕ → Queue → Bool
has_key key q = q.in_use && q.key == key

abbrev pub is_free : Queue → Bool
is_free q = not q.in_use

-- The part of `msgq_create` behind the search for the key.
abbrev pub create_in : Table → ℕ → Option ℕ → Table × ℤ
create_in t key none = (t, neg 28)
create_in t key (some i) = (set t i (record no_queue { key = key; in_use = true }), pos i)

abbrev pub create_or_find : Table → ℕ → Option ℕ → Table × ℤ
create_or_find t key (some i) = (t, pos i)
create_or_find t key none = create_in t key (find_index? is_free t)

unfoldable pub msgq_create : Table → ℕ → Table × ℤ
msgq_create t key = create_or_find t key (find_index? (has_key key) t)

-- A message put at the tail of a queue that has room.
unfoldable pub enqueue : Queue → List ℕ → ℕ → ℤ → Queue
enqueue q msgp msgsz mtype =
    let old = get_or q.messages q.tail no_msg in
    record q {
      messages =
          set q.messages q.tail
            (record { mtype = mtype; mtext = memcpy old.mtext msgp msgsz; msize = msgsz });
      tail = (q.tail + 1) % max_msgs;
      count = q.count + 1;
    }

abbrev pub send_to : Table → List ℕ → ℕ → ℤ → Option ℕ → Table × ℤ
send_to t msgp msgsz mtype none = (t, neg 22)
send_to t msgp msgsz mtype (some i) =
    let q = queue_of t i in
    if ltb max_msg_size msgsz
    then (t, neg 22)
    else (if not q.in_use
        then (t, neg 22)
        else (if leb max_msgs q.count
            then (t, neg 11)
            else (set t i (enqueue q msgp msgsz mtype), pos 0)))

unfoldable pub msgq_send : Table → ℤ → List ℕ → ℕ → ℤ → Table × ℤ
unfolding enqueue
msgq_send t msqid msgp msgsz mtype = send_to t msgp msgsz mtype (index? max_msg_queues msqid)

abbrev pub wanted : ℤ → Msg → Bool
wanted mtype m = eqb_ℤ mtype (pos 0) || eqb_ℤ m.mtype mtype

-- The loop of `msgq_receive`: `n` rounds are left, the next at `i`. It ends at a wanted message.
unfoldable pub look : Queue → ℤ → ℕ → ℕ → Option ℕ
look q mtype zero i = none
look q mtype (suc n) i =
    let rest = look q mtype n (i + 1) in
    if wanted mtype (at max_msgs no_msg q.messages (q.head + i)) then some i else rest

-- Message `i` of a queue taken out.
unfoldable pub remove : Queue → ℕ → Queue
unfolding close_gap
remove q i = record q {
  messages = close_gap max_msgs no_msg q.messages q.head (q.count - 1 - i) i;
  count = q.count - 1;
  tail = if ltb 0 q.tail then q.tail - 1 else max_msgs - 1;
}

-- The bytes that go to the caller's buffer, and the number returned.
pub record Received : Type 0 where
  pub table : Table
  pub bytes : List ℕ
  pub result : ℤ

abbrev pub take_message : Table → ℕ → ℕ → Option ℕ → Received
take_message t msqid msgsz none = record { table = t; bytes = []; result = neg 42 }
take_message t msqid msgsz (some i) =
    let q = queue_of t msqid in
    let m = at max_msgs no_msg q.messages (q.head + i) in
    let copy_size = if ltb m.msize msgsz then m.msize else msgsz in
    record {
      table = set t msqid (remove q i);
      bytes = take copy_size m.mtext;
      result = pos copy_size;
    }

abbrev pub receive_from : Table → ℕ → ℤ → Option ℕ → Received
receive_from t msgsz mtype none = record { table = t; bytes = []; result = neg 22 }
receive_from t msgsz mtype (some i) =
    let q = queue_of t i in
    if not q.in_use
    then record { table = t; bytes = []; result = neg 22 }
    else (if q.count == 0
        then record { table = t; bytes = []; result = neg 11 }
        else take_message t i msgsz (look q mtype q.count 0))

unfoldable pub msgq_receive : Table → ℤ → ℕ → ℤ → Received
msgq_receive t msqid msgsz mtype = receive_from t msgsz mtype (index? max_msg_queues msqid)

abbrev pub destroy_in : Table → Option ℕ → Table × ℤ
destroy_in t none = (t, neg 22)
destroy_in t (some i) =
    let q = queue_of t i in
    if not q.in_use then (t, neg 22) else (set t i (record q { in_use = false }), pos 0)

unfoldable pub msgq_destroy : Table → ℤ → Table × ℤ
msgq_destroy t msqid = destroy_in t (index? max_msg_queues msqid)
