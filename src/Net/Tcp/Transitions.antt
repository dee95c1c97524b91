-- ===== src/Net/Tcp/Transitions.antt =====
-- The edges of the state machine of `tcp_receive`.
use zurich_os.Base.{
  ℕ, ◌≡◌, ◌≢◌, refl, ap, ◌∙◌, ◌&&◌, [], ltb, if_holds, get_or, get_or-set_cases, get_or-set_ne,
  Option, none, some,
}
use zurich_os.Net.Tcp.{
  TcpState, closed, listen, syn_sent, syn_received, established, fin_wait_1, fin_wait_2, close_wait,
  closing, last_ack, time_wait, TcpConn, zero_conn, Tcp, conn_at, segment, tcp_syn, tcp_ack,
  tcp_fin, send_by, tcp_send_packet,
}
use zurich_os.Net.Tcp.Input.{
  Packet, has, data_len, respond, reply, receive_at, tcp_demux, tcp_receive,
}

-- What one packet may do to the state of a connection.
pub data Edge : TcpState → TcpState → Type 0 where
  stays : (s : TcpState) → Edge s s
  opens : Edge listen syn_received
  connects : Edge syn_sent established
  accepts : Edge syn_received established
  shuts : Edge established close_wait

-- What one packet leaves of a connection.
pub record Advanced (c d : TcpConn) : Type 0 where
  pub edge : Edge c.state d.state
  pub local_ip : d.local_ip ≡ c.local_ip
  pub local_port : d.local_port ≡ c.local_port
  pub in_use : d.in_use ≡ c.in_use

same : (c : TcpConn) → Advanced c c
same c = record { edge = stays c.state; local_ip = refl; local_port = refl; in_use = refl }

along :
    (c d : TcpConn) (s : TcpState)
    → c.state ≡ s
    → Edge s d.state
    → d.local_ip ≡ c.local_ip
    → d.local_port ≡ c.local_port
    → d.in_use ≡ c.in_use
    → Advanced c d
along c d s e edge a b u = record { edge = rw e edge; local_ip = a; local_port = b; in_use = u }

respond-Advanced :
    (p : Packet) (c : TcpConn) (s : TcpState) → c.state ≡ s → Advanced c (respond p c s).0
unfolding respond
respond-Advanced p c listen e =
    if_holds (λ (r : TcpConn × Option (TcpConn × ℕ)). Advanced c r.0) (has p tcp_syn)
      (along c _ listen e opens refl refl refl) (same c)
respond-Advanced p c syn_sent e =
    if_holds (λ (r : TcpConn × Option (TcpConn × ℕ)). Advanced c r.0)
      (has p tcp_syn && has p tcp_ack) (along c _ syn_sent e connects refl refl refl) (same c)
respond-Advanced p c syn_received e =
    if_holds (λ (r : TcpConn × Option (TcpConn × ℕ)). Advanced c r.0) (has p tcp_ack)
      (along c _ syn_received e accepts refl refl refl) (same c)
respond-Advanced p c established e =
    if_holds (λ (r : TcpConn × Option (TcpConn × ℕ)). Advanced c r.0) (has p tcp_fin)
      (along c _ established e shuts refl refl refl)
      (if_holds (λ (r : TcpConn × Option (TcpConn × ℕ)). Advanced c r.0) (has p tcp_ack)
        (if_holds (λ (r : TcpConn × Option (TcpConn × ℕ)). Advanced c r.0) (ltb 0 (data_len p))
          (along c _ c.state refl (stays c.state) refl refl refl) (same c))
        (same c))
respond-Advanced p c closed e = same c
respond-Advanced p c fin_wait_1 e = same c
respond-Advanced p c fin_wait_2 e = same c
respond-Advanced p c close_wait e = same c
respond-Advanced p c closing e = same c
respond-Advanced p c last_ack e = same c
respond-Advanced p c time_wait e = same c

-- Sending a segment leaves the table alone.
reply_keeps : (t : Tcp) (r : Option (TcpConn × ℕ)) → (reply t r).connections ≡ t.connections
unfolding tcp_send_packet
reply_keeps t none = refl
reply_keeps t (some (c, flags)) = sent t.netif
  where
    sent : (n : Option ℕ) → (send_by n t (segment c flags [])).connections ≡ t.connections
    sent none = refl
    sent (some ip) = refl

receive_at-Advanced :
    (t : Tcp) (p : Packet) (o : Option ℕ) (j : ℕ)
    → Advanced (conn_at t j) (conn_at (receive_at t p o) j)
receive_at-Advanced t p none j = same (conn_at t j)
receive_at-Advanced t p (some i) j =
    let r : TcpConn × Option (TcpConn × ℕ) = respond p (conn_at t i) (conn_at t i).state in
    let keeps = reply_keeps t r.1 in
    rw keeps (
      get_or-set_cases (Advanced (conn_at t j)) t.connections i j r.0 zero_conn
        (λ e. rw (← e) (respond-Advanced p (conn_at t i) (conn_at t i).state refl))
        (same (conn_at t j)))

-- A packet, of whatever length and flags, moves each connection of the table along an edge of the state
-- machine or leaves its state alone, and changes neither its local address nor whether it is in use.
pub tcp_receive-Advanced :
    (t : Tcp) (p : Packet) (j : ℕ) → Advanced (conn_at t j) (conn_at (tcp_receive t p) j)
unfolding tcp_receive
tcp_receive-Advanced t p j =
    if_holds (λ (u : Tcp). Advanced (conn_at t j) (conn_at u j)) (ltb p.len 20) (same (conn_at t j))
      (receive_at-Advanced t p (tcp_demux t p) j)

-- A packet leaves every connection alone but the one it is for.
pub tcp_receive_others :
    (t : Tcp) (p : Packet) (j : ℕ)
    → tcp_demux t p ≢ some j
    → conn_at (tcp_receive t p) j ≡ conn_at t j
unfolding tcp_receive
tcp_receive_others t p j ne =
    if_holds (λ (u : Tcp). conn_at u j ≡ conn_at t j) (ltb p.len 20) refl (other (tcp_demux t p) ne)
  where
    other : (o : Option ℕ) → o ≢ some j → conn_at (receive_at t p o) j ≡ conn_at t j
    other none h = refl
    other (some i) h =
        let r : TcpConn × Option (TcpConn × ℕ) = respond p (conn_at t i) (conn_at t i).state in
        get_or-set_ne (reply t r.1).connections i j r.0 zero_conn (λ e. h (ap some e))
        ∙ ap (λ l. get_or l j zero_conn) (reply_keeps t r.1)
