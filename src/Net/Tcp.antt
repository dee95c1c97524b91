-- ===== src/Net/Tcp.antt =====
-- services/net/tcp.c and include/net/tcp.h: the connection table. A segment handed to
-- `ip_send` is recorded with the fields of its header that vary and its data; the checksum, the byte order of
-- the header and what is printed are left out.
pub mod Calls
pub mod Input
pub mod Handshake
pub mod Transitions
use zurich_os.Base.{
  ℕ, zero, suc, ◌+◌, ◌-◌, ◌*◌, ◌/◌, ◌%◌, ◌^◌, bit_and, Bool, true, false, not, ◌&&◌, ◌||◌, List, [],
  ◌∷◌, ◌++◌, ltb, leb, ◌==◌, min, if◌then◌else◌, get_or, set, take, replicate, length, ℤ, pos, neg,
  Option, none, some, find_index?, or_else,
}

pub data TcpState : Type 0 where
  closed : TcpState
  listen : TcpState
  syn_sent : TcpState
  syn_received : TcpState
  established : TcpState
  fin_wait_1 : TcpState
  fin_wait_2 : TcpState
  close_wait : TcpState
  closing : TcpState
  last_ack : TcpState
  time_wait : TcpState

abbrev pub is_listen : TcpState → Bool
is_listen listen = true
is_listen s = false

abbrev pub is_established : TcpState → Bool
is_established established = true
is_established s = false

pub record TcpConn : Type 0 where
  pub local_ip : ℕ
  pub remote_ip : ℕ
  pub local_port : ℕ
  pub remote_port : ℕ
  pub seq : ℕ
  pub ack : ℕ
  pub state : TcpState
  pub recv_buf : Option (List ℕ)
  pub recv_len : ℕ
  pub in_use : Bool

-- What `tcp_send_packet` hands to `ip_send`.
pub record Segment : Type 0 where
  pub to : ℕ
  pub src_port : ℕ
  pub dest_port : ℕ
  pub seq_num : ℕ
  pub ack_num : ℕ
  pub flags : ℕ
  pub payload : List ℕ

-- The static array `connections`, the address of the default interface if there is one, and the segments
-- sent so far.
pub record Tcp : Type 0 where
  pub connections : List TcpConn
  pub netif : Option ℕ
  pub sent : List Segment

abbrev pub max_tcp_connections : ℕ
max_tcp_connections = 16

abbrev pub tcp_fin : ℕ
tcp_fin = 1

abbrev pub tcp_syn : ℕ
tcp_syn = 2

abbrev pub tcp_psh : ℕ
tcp_psh = 8

abbrev pub tcp_ack : ℕ
tcp_ack = 16

-- `sizeof(tcp_header_t)`
abbrev pub tcp_header_size : ℕ
tcp_header_size = 20

-- A zeroed entry.
abbrev pub zero_conn : TcpConn
zero_conn = record {
  local_ip = 0;
  remote_ip = 0;
  local_port = 0;
  remote_port = 0;
  seq = 0;
  ack = 0;
  state = closed;
  recv_buf = none;
  recv_len = 0;
  in_use = false;
}

unfoldable pub tcp_init : Option ℕ → Tcp
tcp_init netif = record {
  connections = replicate max_tcp_connections zero_conn;
  netif = netif;
  sent = [];
}

abbrev pub conn_at : Tcp → ℕ → TcpConn
conn_at t i = get_or t.connections i zero_conn

abbrev pub with_conn : Tcp → ℕ → TcpConn → Tcp
with_conn t i c = record t { connections = set t.connections i c }

abbrev pub conn_free : TcpConn → Bool
conn_free c = not c.in_use

abbrev pub take_conn : Tcp → Option ℕ → Tcp × Option ℕ
take_conn t none = (t, none)
take_conn t (some i) = (with_conn t i (record zero_conn { in_use = true }), some i)

unfoldable pub tcp_alloc_conn : Tcp → Tcp × Option ℕ
tcp_alloc_conn t = take_conn t (find_index? conn_free t.connections)

abbrev pub is_conn : ℕ → ℕ → ℕ → TcpConn → Bool
is_conn remote_ip remote_port local_port c =
    c.in_use
    && (c.remote_ip == remote_ip)
    && (c.remote_port == remote_port)
    && (c.local_port == local_port)

unfoldable pub tcp_find_conn : Tcp → ℕ → ℕ → ℕ → Option ℕ
tcp_find_conn t remote_ip remote_port local_port =
    find_index? (is_conn remote_ip remote_port local_port) t.connections

abbrev pub segment : TcpConn → ℕ → List ℕ → Segment
segment c flags payload = record {
  to = c.remote_ip;
  src_port = c.local_port;
  dest_port = c.remote_port;
  seq_num = c.seq;
  ack_num = c.ack;
  flags = flags;
  payload = payload;
}

abbrev pub send_by : Option ℕ → Tcp → Segment → Tcp
send_by none t s = t
send_by (some ip) t s = record t { sent = t.sent ++ s ∷ [] }

-- Nothing is sent where there is no interface.
unfoldable pub tcp_send_packet : Tcp → TcpConn → ℕ → List ℕ → Tcp
tcp_send_packet t c flags payload = send_by t.netif t (segment c flags payload)

-- `conn->seq++`
abbrev pub next_seq : ℕ → ℕ
next_seq n = (n + 1) % 2 ^ 32
