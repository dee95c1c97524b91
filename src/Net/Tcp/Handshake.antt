-- ===== src/Net/Tcp/Handshake.antt =====
-- The three-way handshake between two ends that run `respond`.
use zurich_os.Base.{ℕ, ◌≡◌, refl, ap, sym, ◌∙◌, Option, none, some, []}
use zurich_os.Net.Tcp.{
  listen, syn_sent, syn_received, established, TcpConn, segment, Segment, tcp_syn, tcp_header_size,
}
use zurich_os.Net.Tcp.Input.{Packet, respond}

-- A segment without data as the peer reads it, when it comes from the address `src_ip`.
abbrev pub packet : ℕ → Segment → Packet
packet src_ip s = record {
  src_ip = src_ip;
  src_port = s.src_port;
  dest_port = s.dest_port;
  seq = s.seq_num;
  data_offset = 80;
  flags = s.flags;
  len = tcp_header_size;
}

abbrev pub reply_of : ℕ → Option (TcpConn × ℕ) → Option Packet
reply_of ip none = none
reply_of ip (some (c, flags)) = some (packet ip (segment c flags []))

-- The connection a packet leaves, and the answer, if the first is there.
abbrev pub receives : TcpConn → ℕ → Option Packet → TcpConn × Option Packet
receives c ip none = (c, none)
receives c ip (some p) = let r = respond p c c.state in (r.0, reply_of ip r.1)

-- `client` has sent its SYN to a listener; each side then answers what the other sends.
pub record Met (client server : TcpConn) (client_ip server_ip : ℕ) : Type 0 where
  pub server_1 : TcpConn × Option Packet
  pub client_1 : TcpConn × Option Packet
  pub server_2 : TcpConn × Option Packet
  pub syn :
      server_1
      ≡ receives server server_ip
          (some (packet client_ip (segment (record client { seq = 1000 }) tcp_syn [])))
  pub syn_ack : client_1 ≡ receives client client_ip server_1.1
  pub ack : server_2 ≡ receives server_1.0 server_ip client_1.1
  pub half_open : server_1.0.state ≡ syn_received
  pub client_done : client_1.0.state ≡ established
  pub server_done : server_2.0.state ≡ established
  pub server_acks : server_2.0.ack ≡ client_1.0.seq
  pub client_acks : client_1.0.ack ≡ server_2.0.seq
  pub quiet : server_2.1 ≡ none
  pub knows : (server_2.0.remote_ip ≡ client_ip) × (server_2.0.remote_port ≡ client.local_port)

calling : TcpConn → TcpConn
calling c = record c { state = syn_sent; seq = 1001 }

waits : TcpConn → TcpConn
waits c = record c { state = listen }

literal-Met :
    (client server : TcpConn) (client_ip server_ip : ℕ)
    → Met (calling client) (waits server) client_ip server_ip
unfolding respond calling waits
literal-Met client server client_ip server_ip =
    let hello : Packet =
      packet client_ip (segment (record (calling client) { seq = 1000 }) tcp_syn []) in
    let s1 : TcpConn × Option Packet = receives (waits server) server_ip (some hello) in
    let c1 : TcpConn × Option Packet = receives (calling client) client_ip s1.1 in
    record {
      server_1 = s1;
      client_1 = c1;
      server_2 = receives s1.0 server_ip c1.1;
      syn = refl;
      syn_ack = refl;
      ack = refl;
      half_open = refl;
      client_done = refl;
      server_done = refl;
      server_acks = refl;
      client_acks = refl;
      quiet = refl;
      knows = (refl, refl);
    }

is_calling : (c : TcpConn) → c.state ≡ syn_sent → c.seq ≡ 1001 → calling c ≡ c
unfolding calling
is_calling c s n =
    ap (λ t. record c { state = t; seq = 1001 }) (sym s) ∙ ap (λ m. record c { seq = m }) (sym n)

is_waiting : (c : TcpConn) → c.state ≡ listen → waits c ≡ c
unfolding waits
is_waiting c s = ap (λ t. record c { state = t }) (sym s)

-- The SYN of a client in SYN_SENT, as `tcp_connect` leaves it, takes a listener to SYN_RECEIVED; its answer
-- takes the client to ESTABLISHED, and the client's answer takes the listener there too. Each side then
-- expects the sequence number that the other will use next, the listener has the client's address, and it
-- sends no further answer.
pub handshake-Met :
    (client server : TcpConn) (client_ip server_ip : ℕ)
    → client.state ≡ syn_sent
    → client.seq ≡ 1001
    → server.state ≡ listen
    → Met client server client_ip server_ip
handshake-Met client server client_ip server_ip sent seq listening =
    rw (← is_calling client sent seq)
      (rw (← is_waiting server listening) (literal-Met client server client_ip server_ip))
