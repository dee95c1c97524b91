-- ===== src/Net/Arp.antt =====
-- services/net/arp.c and include/net/arp.h: the cache of addresses, and what an ARP packet does to it. A
-- packet is given by its fields in host order; a frame handed to `eth_send` is recorded by its fields that
-- vary. What is printed is left out.
pub mod Cache
pub mod Packets
use zurich_os.Base.{
  ℕ, zero, suc, ◌+◌, Bool, true, false, not, ◌&&◌, List, [], ◌∷◌, ltb, ◌==◌, if◌then◌else◌, get_or,
  set, take, replicate, ℤ, pos, neg, index?, Option, none, some, find_index?, or_else,
}

-- The timestamp, which no function reads or writes, is left out.
pub record ArpEntry : Type 0 where
  pub ip : ℕ
  pub mac : List ℕ
  pub valid : Bool

abbrev pub arp_cache_size : ℕ
arp_cache_size = 32

abbrev pub no_entry : ArpEntry
no_entry = record { ip = 0; mac = replicate 6 0; valid = false }

unfoldable pub arp_init : List ArpEntry
arp_init = replicate arp_cache_size no_entry

abbrev pub is_entry : ℕ → ArpEntry → Bool
is_entry ip e = e.valid && e.ip == ip

abbrev pub is_invalid : ArpEntry → Bool
is_invalid e = not e.valid

-- The loop of `arp_add_entry`: the entries left, the index of the first of them, and `slot`.
unfoldable pub pick_slot : ℕ → List ArpEntry → ℕ → Option ℕ → Option ℕ
pick_slot ip [] i slot = slot
pick_slot ip (e ∷ es) i slot =
    let rest = pick_slot ip es (i + 1) (if is_invalid e then or_else slot (some i) else slot) in
    if is_entry ip e then some i else rest

-- `if (slot < 0) slot = 0`
abbrev pub or_first : Option ℕ → ℕ
or_first none = 0
or_first (some i) = i

unfoldable pub arp_slot : List ArpEntry → ℕ → ℕ
unfolding pick_slot
arp_slot t ip = or_first (pick_slot ip t 0 none)

-- `mac` are the six bytes of the address.
unfoldable pub arp_add_entry : List ArpEntry → ℕ → List ℕ → List ArpEntry
arp_add_entry t ip mac = set t (arp_slot t ip) (record { ip = ip; mac = mac; valid = true })

abbrev pub mac_at : List ArpEntry → Option ℕ → Option (List ℕ)
mac_at t none = none
mac_at t (some i) = some (get_or t i no_entry).mac

-- The address copied out, or `none` for the result -1.
unfoldable pub arp_lookup : List ArpEntry → ℕ → Option (List ℕ)
arp_lookup t ip = mac_at t (find_index? (is_entry ip) t)

abbrev pub entry_at : List ArpEntry → Option ℕ → Option (ℕ × List ℕ)
entry_at t none = none
entry_at t (some i) =
    let e = get_or t i no_entry in if not e.valid then none else some (e.ip, e.mac)

unfoldable pub arp_get_entry : List ArpEntry → ℤ → Option (ℕ × List ℕ)
arp_get_entry t index = entry_at t (index? arp_cache_size index)

abbrev pub arp_op_request : ℕ
arp_op_request = 1

abbrev pub arp_op_reply : ℕ
arp_op_reply = 2

-- `sizeof(arp_header_t)`
abbrev pub arp_header_size : ℕ
arp_header_size = 28

pub record ArpPacket : Type 0 where
  pub oper : ℕ
  pub sha : List ℕ
  pub spa : ℕ
  pub tha : List ℕ
  pub tpa : ℕ

-- The cache, the address and the hardware address of the interface, and the packets sent, the last first, each with
-- the hardware address it goes to.
pub record Arp : Type 0 where
  pub cache : List ArpEntry
  pub ip : ℕ
  pub mac : List ℕ
  pub sent : List (List ℕ × ArpPacket)

abbrev pub broadcast_mac : List ℕ
broadcast_mac = replicate 6 255

unfoldable pub arp_request : Arp → ℕ → Arp
arp_request a ip =
    let p : ArpPacket = record {
      oper = arp_op_request;
      sha = a.mac;
      spa = a.ip;
      tha = replicate 6 0;
      tpa = ip;
    } in
    record a { sent = (broadcast_mac, p) ∷ a.sent }

abbrev pub answer : Arp → ArpPacket → Arp
answer a p =
    let r : ArpPacket = record {
      oper = arp_op_reply;
      sha = a.mac;
      spa = a.ip;
      tha = p.sha;
      tpa = p.spa;
    } in
    record a { sent = (p.sha, r) ∷ a.sent }

-- `len` is the length of the packet.
unfoldable pub arp_receive : Arp → ArpPacket → ℕ → Arp
unfolding arp_add_entry
arp_receive a p len =
    let b = record a { cache = arp_add_entry a.cache p.spa p.sha } in
    let c = answer b p in
    if ltb len arp_header_size
    then a
    else (if (p.oper == arp_op_request) && (p.tpa == a.ip) then c else b)
