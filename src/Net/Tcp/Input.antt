-- ===== src/Net/Tcp/Input.antt =====
-- `tcp_receive` of services/net/tcp.c: which connection a packet is for, and the state machine.
use zurich_os.Base.{
  ℕ, ◌+◌, ◌-◌, ◌*◌, ◌/◌, ◌%◌, ◌^◌, bit_and, Bool, not, ◌&&◌, [], ltb, ◌==◌, if◌then◌else◌, Option,
  none, some, find_index?, or_else,
}
use zurich_os.Net.Tcp.{
  TcpState, is_listen, TcpConn, Tcp, tcp_fin, tcp_syn, tcp_ack, tcp_header_size, conn_at, with_conn,
  tcp_find_conn, tcp_send_packet, next_seq, listen, syn_sent, syn_received, established, close_wait,
}

-- The fields of an incoming header that `tcp_receive` reads, in host order, and the length of the packet.
pub record Packet : Type 0 where
  pub src_ip : ℕ
  pub src_port : ℕ
  pub dest_port : ℕ
  pub seq : ℕ
  pub data_offset : ℕ
  pub flags : ℕ
  pub len : ℕ

abbrev pub has : Packet → ℕ → Bool
has p flag = not (bit_and p.flags flag == 0)

-- `uint16_t data_len = len - data_offset`
unfoldable pub data_len : Packet → ℕ
data_len p = (p.len + (2 ^ 16 - (p.data_offset / 16) % 16 * 4)) % 2 ^ 16

abbrev pub is_listener : ℕ → TcpConn → Bool
is_listener dest_port c = c.in_use && is_listen c.state && (c.local_port == dest_port)

-- The connection a packet is for: the one with its addresses, or else the first listener on its port.
unfoldable pub tcp_demux : Tcp → Packet → Option ℕ
tcp_demux t p =
    or_else (tcp_find_conn t p.src_ip p.src_port p.dest_port)
      (find_index? (is_listener p.dest_port) t.connections)

-- The cases of the state machine: the connection after the packet, and the segment sent, if any, with the
-- connection as it is then.
unfoldable pub respond : Packet → TcpConn → TcpState → TcpConn × Option (TcpConn × ℕ)
respond p c listen =
    let d = record c {
      remote_ip = p.src_ip;
      remote_port = p.src_port;
      ack = next_seq p.seq;
      seq = 2000;
      state = syn_received;
    } in
    if has p tcp_syn
    then (record d { seq = next_seq d.seq }, some (d, tcp_syn + tcp_ack))
    else (c, none)
respond p c syn_sent =
    let d = record c { ack = next_seq p.seq; state = established } in
    if has p tcp_syn && has p tcp_ack then (d, some (d, tcp_ack)) else (c, none)
respond p c syn_received =
    if has p tcp_ack then (record c { state = established }, none) else (c, none)
respond p c established =
    let d = record c { ack = next_seq p.seq } in
    let e = record c { ack = (p.seq + data_len p) % 2 ^ 32 } in
    if has p tcp_fin
    then (record d { state = close_wait }, some (d, tcp_ack))
    else (if has p tcp_ack
        then (if ltb 0 (data_len p) then (e, some (e, tcp_ack)) else (c, none))
        else (c, none))
respond p c s = (c, none)

abbrev pub reply : Tcp → Option (TcpConn × ℕ) → Tcp
reply t none = t
reply t (some (c, flags)) = tcp_send_packet t c flags []

abbrev pub receive_at : Tcp → Packet → Option ℕ → Tcp
receive_at t p none = t
receive_at t p (some i) =
    let r = respond p (conn_at t i) (conn_at t i).state in with_conn (reply t r.1) i r.0

unfoldable pub tcp_receive : Tcp → Packet → Tcp
tcp_receive t p =
    let next = receive_at t p (tcp_demux t p) in if ltb p.len tcp_header_size then t else next
