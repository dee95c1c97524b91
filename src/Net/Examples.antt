-- ===== src/Net/Examples.antt =====
-- The theorems on services/net at concrete tables and packets.
use zurich_os.Base.{ℕ, ◌≡◌, ◌≢◌, refl, true, [], ◌∷◌, ◌++◌, List, replicate, some, arith}
use zurich_os.Net.Arp.{
  ArpPacket, Arp, ArpEntry, no_entry, arp_init, arp_slot, pick_slot, arp_add_entry, arp_lookup,
  arp_receive,
}
use zurich_os.Net.Arp.Cache.{arp_lookup-arp_add_entry, arp_lookup_other}
use zurich_os.Net.Arp.Packets.{
  Distinct, init-Distinct, Learned, arp_receive-Learned, arp_add_entry-Distinct,
}
use zurich_os.Net.Checksum.{ip_checksum}
use zurich_os.Net.Checksum.Stamp.{Even, none_left, pair, Bytes, stamped, ip_checksum_verifies}
use zurich_os.Net.Routes.{RouteEntry, zero_route, route_del, route_lookup}
use zurich_os.Net.Routes.Lookup.{MostSpecific, route_lookup-MostSpecific}
use zurich_os.Net.Routes.Table.{DelOutcome, route_del-DelOutcome}
use zurich_os.Net.Tcp.{TcpConn, zero_conn, Tcp, conn_at, listen, syn_sent, tcp_find_conn}
use zurich_os.Net.Tcp.Input.{Packet, tcp_demux, tcp_receive}
use zurich_os.Net.Tcp.Handshake.{Met, handshake-Met}
use zurich_os.Net.Tcp.Transitions.{Advanced, tcp_receive-Advanced, tcp_receive_others}

-- 10.0.0.0/8 through 10.0.0.1, and a default route through 10.0.2.2.
abbrev routes : List RouteEntry
routes =
    record zero_route {
      dest = 167772160;
      netmask = 4278190080;
      gateway = 167772161;
      metric = 1;
      flags = 3;
      in_use = true;
    }
    ∷ record zero_route { gateway = 167772674; metric = 10; flags = 11; in_use = true }
    ∷ zero_route
    ∷ []

route_lookup-MostSpecific_example : MostSpecific routes 167772421 (route_lookup routes 167772421)
route_lookup-MostSpecific_example = route_lookup-MostSpecific routes 167772421

route_del-DelOutcome_example : DelOutcome routes 0 0 (route_del routes 0 0)
route_del-DelOutcome_example = route_del-DelOutcome routes 0 0

-- A listener on port 80, and a client of port 80 that has sent its SYN.
abbrev listener : TcpConn
listener = record zero_conn { local_ip = 167772674; local_port = 80; state = listen; in_use = true }

abbrev client : TcpConn
client = record zero_conn {
  local_ip = 167772687;
  remote_ip = 167772674;
  local_port = 49232;
  remote_port = 80;
  seq = 1001;
  state = syn_sent;
  in_use = true;
}

handshake-Met_example : Met client listener 167772687 167772674
handshake-Met_example = handshake-Met client listener 167772687 167772674 refl refl refl

abbrev tcp : Tcp
tcp = record {
  connections = listener ∷ client ∷ replicate 14 zero_conn;
  netif = some 167772674;
  sent = [];
}

-- A SYN to port 80.
abbrev syn : Packet
syn = record {
  src_ip = 167772687;
  src_port = 49232;
  dest_port = 80;
  seq = 1000;
  data_offset = 80;
  flags = 2;
  len = 20;
}

tcp_receive-Advanced_example : Advanced (conn_at tcp 0) (conn_at (tcp_receive tcp syn) 0)
tcp_receive-Advanced_example = tcp_receive-Advanced tcp syn 0

for_listener : tcp_demux tcp syn ≡ some 0
unfolding tcp_demux tcp_find_conn
for_listener = refl

not_for_client : tcp_demux tcp syn ≢ some 1
not_for_client e = absurd (ground (arith, for_listener))

tcp_receive_others_example : conn_at (tcp_receive tcp syn) 1 ≡ conn_at tcp 1
tcp_receive_others_example = tcp_receive_others tcp syn 1 not_for_client

abbrev mac : ℕ → List ℕ
mac n = 82 ∷ 84 ∷ 0 ∷ 18 ∷ 52 ∷ n ∷ []

-- A cache of three entries, of which the second is free.
abbrev cache : List ArpEntry
cache =
    record { ip = 167772162; mac = mac 2; valid = true }
    ∷ no_entry
    ∷ record { ip = 167772163; mac = mac 3; valid = true }
    ∷ []

arp_lookup-arp_add_entry_example :
    arp_lookup (arp_add_entry cache 167772163 (mac 9)) 167772163 ≡ some (mac 9)
arp_lookup-arp_add_entry_example = arp_lookup-arp_add_entry cache 167772163 (mac 9) (omega arith)

slot_of_new : arp_slot cache 167772164 ≡ 1
unfolding arp_slot pick_slot
slot_of_new = refl

arp_lookup_other_example :
    arp_lookup (arp_add_entry cache 167772164 (mac 4)) 167772162 ≡ arp_lookup cache 167772162
arp_lookup_other_example =
    arp_lookup_other cache 167772164 167772162 (mac 4) (λ e. absurd (omega arith))
      (rw slot_of_new refl)

-- A request for 10.0.2.15 from 10.0.2.2.
abbrev request : ArpPacket
request = record { oper = 1; sha = mac 2; spa = 167772674; tha = []; tpa = 167772687 }

abbrev interface : Arp
interface = record { cache = arp_init; ip = 167772687; mac = mac 1; sent = [] }

arp_receive-Learned_example : Learned interface request (arp_receive interface request 28)
arp_receive-Learned_example = arp_receive-Learned interface request 28 init-Distinct (omega arith)

arp_add_entry-Distinct_example : Distinct (arp_add_entry arp_init 167772162 (mac 2))
arp_add_entry-Distinct_example = arp_add_entry-Distinct arp_init 167772162 (mac 2) init-Distinct

-- The two words before the checksum field, and what follows it.
abbrev front : List ℕ
front = 69 ∷ 0 ∷ 0 ∷ 28 ∷ []

abbrev back : List ℕ
back = 10 ∷ 0 ∷ 2 ∷ 15 ∷ 7 ∷ []

front-Even : Even front
front-Even = pair 69 0 (0 ∷ 28 ∷ []) (pair 0 28 [] none_left)

all-Bytes : Bytes (front ++ 0 ∷ 0 ∷ back)
all-Bytes = (
  omega arith,
  (
    omega arith,
    (
      omega arith,
      (
        omega arith,
        (
          omega arith,
          (
            omega arith,
            (omega arith, (omega arith, (omega arith, (omega arith, (omega arith, tt))))),
          ),
        ),
      ),
    ),
  ),
)

ip_checksum_verifies_example :
    ip_checksum (stamped front back (ip_checksum (front ++ 0 ∷ 0 ∷ back))) ≡ 0
ip_checksum_verifies_example = ip_checksum_verifies front back front-Even all-Bytes (omega arith)
