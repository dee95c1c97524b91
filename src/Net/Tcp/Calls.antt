-- ===== src/Net/Tcp/Calls.antt =====
-- The calls of services/net/tcp.c that a socket makes.
use zurich_os.Base.{
  ℕ, ◌+◌, ◌%◌, ◌^◌, false, not, List, [], ltb, ◌==◌, if◌then◌else◌, take, length, ℤ, pos, neg,
  Option, none, some,
}
use zurich_os.Net.Tcp.{
  is_established, Tcp, tcp_fin, tcp_syn, tcp_psh, tcp_ack, conn_at, with_conn, tcp_alloc_conn,
  tcp_send_packet, next_seq, listen, syn_sent, fin_wait_1,
}

abbrev pub connect_at : Tcp × Option ℕ → Option ℕ → ℕ → ℕ → Tcp × Option ℕ
connect_at (t, none) netif dest_ip dest_port = (t, none)
connect_at (t, some i) none dest_ip dest_port = (t, none)
connect_at (t, some i) (some ip) dest_ip dest_port =
    let c = record (conn_at t i) {
      local_ip = ip;
      remote_ip = dest_ip;
      local_port = 49152 + dest_port % 16384;
      remote_port = dest_port;
      seq = 1000;
      ack = 0;
      state = syn_sent;
    } in
    let s = tcp_send_packet (with_conn t i c) c tcp_syn [] in
    (with_conn s i (record c { seq = next_seq c.seq }), some i)

unfoldable pub tcp_connect : Tcp → ℕ → ℕ → Tcp × Option ℕ
tcp_connect t dest_ip dest_port = connect_at (tcp_alloc_conn t) t.netif dest_ip dest_port

abbrev pub ip_or_zero : Option ℕ → ℕ
ip_or_zero none = 0
ip_or_zero (some ip) = ip

abbrev pub listen_at : Tcp × Option ℕ → ℕ → Tcp × Option ℕ
listen_at (t, none) port = (t, none)
listen_at (t, some i) port = (
  with_conn t i
      (record (conn_at t i) { local_ip = ip_or_zero t.netif; local_port = port; state = listen }),
  some i,
)

unfoldable pub tcp_listen : Tcp → ℕ → Tcp × Option ℕ
tcp_listen t port = listen_at (tcp_alloc_conn t) port

-- The calls below take the connection's index; the null pointer is `none`. `payload` are the `len` bytes.
unfoldable pub tcp_send : Tcp → Option ℕ → List ℕ → Tcp × ℤ
tcp_send t none payload = (t, neg 1)
tcp_send t (some i) payload =
    let c = conn_at t i in
    let s = tcp_send_packet t c (tcp_ack + tcp_psh) payload in
    if not (is_established c.state) then (t, neg 1) else (
      with_conn s i (record c { seq = (c.seq + length payload) % 2 ^ 32 }),
      pos (length payload),
    )

abbrev pub recv_from : Tcp → ℕ → ℕ → Option (List ℕ) → Tcp × List ℕ
recv_from t i max_len none = (t, [])
recv_from t i max_len (some buf) =
    let c = conn_at t i in
    let len = if ltb c.recv_len max_len then c.recv_len else max_len in
    if c.recv_len == 0 then (t, []) else (with_conn t i (record c { recv_len = 0 }), take len buf)

-- The bytes copied to the caller; their number is returned.
unfoldable pub tcp_recv : Tcp → Option ℕ → ℕ → Tcp × List ℕ
tcp_recv t none max_len = (t, [])
tcp_recv t (some i) max_len = recv_from t i max_len (conn_at t i).recv_buf

unfoldable pub tcp_close : Tcp → Option ℕ → Tcp
tcp_close t none = t
tcp_close t (some i) =
    let c = conn_at t i in
    let s = tcp_send_packet t c (tcp_fin + tcp_ack) [] in
    if is_established c.state
    then with_conn s i (record c { state = fin_wait_1; in_use = false })
    else with_conn t i (record c { in_use = false })
