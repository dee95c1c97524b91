-- ===== src/Net/Arp/Packets.antt =====
-- No address twice in the ARP cache, and what a packet does.
use native.Mathlib.Decide.{ℕ_discrete, dec_lt}
use zurich_os.Base.{
  ℕ, zero, suc, ◌≤◌, ◌≡◌, ◌≢◌, refl, ap, sym, ◌∙◌, Bool, true, false, ◌&&◌, ◌==◌, List, [], ◌∷◌,
  ltb, if_cases, if_false, ◌⊎◌, get_or, set, replicate, length, length-set, get_or-set_self,
  get_or-set_ne, get_or-replicate, none, some, find_index?, find_index?-Found, find_index?-none,
  arith,
}
use zurich_os.Net.Arp.{
  ArpEntry, no_entry, is_entry, arp_slot, arp_add_entry, arp_lookup, arp_init, arp_cache_size, Arp,
  ArpPacket, arp_receive, arp_op_request, arp_header_size,
}
use zurich_os.Net.Arp.Cache.{
  Slot, known, free, evicts, arp_slot-Slot, Slot-in, arp_lookup-arp_add_entry,
}

-- Two valid entries are for different addresses.
pub record Distinct (t : List ArpEntry) : Type 0 where
  pub size : length t ≡ arp_cache_size
  pub once :
      (ip i j : ℕ)
      → is_entry ip (get_or t i no_entry) ≡ true
      → is_entry ip (get_or t j no_entry) ≡ true
      → i ≡ j

pub init-Distinct : Distinct arp_init
unfolding arp_init
init-Distinct = record {
  size = refl;
  once = λ ip i j h k.
      let blank : is_entry ip (get_or (replicate 32 no_entry) i no_entry) ≡ false =
        ap (is_entry ip) (get_or-replicate 32 i no_entry) in
      absurd (ground arith);
}

past_end : (t : List ArpEntry) (ip j : ℕ) → length t ≤ j → is_entry ip (get_or t j no_entry) ≡ false
past_end [] ip j le = refl
past_end (e ∷ es) ip zero le = absurd (omega arith)
past_end (e ∷ es) ip (suc j) le = past_end es ip j (omega arith)

missing :
    (t : List ArpEntry) (ip j : ℕ)
    → find_index? (is_entry ip) t ≡ none
    → is_entry ip (get_or t j no_entry) ≡ false
missing t ip j e = elim (dec_lt j (length t)) [
  | yes lt ↦ find_index?-none (is_entry ip) t no_entry j e lt
  | no ge ↦ past_end t ip j (omega arith)
]

-- No entry but the one that is written is for the address that is added.
alone :
    (t : List ArpEntry) (ip j : ℕ)
    → Distinct t
    → j ≢ arp_slot t ip
    → is_entry ip (get_or t j no_entry) ≡ false
alone t ip j d ne = cases (arp_slot-Slot t ip)
  where
    cases : Slot t ip (arp_slot t ip) → is_entry ip (get_or t j no_entry) ≡ false
    cases (known e) =
        only (is_entry ip (get_or t j no_entry)) refl
          (find_index?-Found (is_entry ip) t no_entry (arp_slot t ip) e).holds
      where
        only :
            (b : Bool)
            → is_entry ip (get_or t j no_entry) ≡ b
            → is_entry ip (get_or t (arp_slot t ip) no_entry) ≡ true
            → b ≡ false
        only true h k = absurd (ne (d.once ip j (arp_slot t ip) h k))
        only false h k = refl
    cases (free e f) = missing t ip j e
    cases (evicts e f z) = missing t ip j e

-- Adding an address, over an old entry or in a new one, leaves every address in the cache at most once.
pub arp_add_entry-Distinct :
    (t : List ArpEntry) (ip : ℕ) (mac : List ℕ) → Distinct t → Distinct (arp_add_entry t ip mac)
unfolding arp_add_entry
arp_add_entry-Distinct t ip mac d =
    let s : ℕ = arp_slot t ip in
    let v : ArpEntry = record { ip = ip; mac = mac; valid = true } in
    record {
      size = length-set t s v ∙ d.size;
      once = λ q i j. apart q i j (ℕ_discrete i s) (ℕ_discrete j s);
    }
  where
    new : ArpEntry
    new = record { ip = ip; mac = mac; valid = true }

    written : get_or (set t (arp_slot t ip) new) (arp_slot t ip) no_entry ≡ new
    written =
        get_or-set_self t (arp_slot t ip) new no_entry
          (Slot-in t ip (arp_slot t ip) (omega (arith, d.size)) (arp_slot-Slot t ip))

    old :
        (q j : ℕ)
        → j ≢ arp_slot t ip
        → is_entry q (get_or (set t (arp_slot t ip) new) j no_entry)
          ≡ is_entry q (get_or t j no_entry)
    old q j ne = ap (is_entry q) (get_or-set_ne t (arp_slot t ip) j new no_entry (λ e. ne (sym e)))

    clash :
        (q i j : ℕ)
        → i ≡ arp_slot t ip
        → j ≢ arp_slot t ip
        → is_entry q (get_or (set t (arp_slot t ip) new) i no_entry) ≡ true
        → is_entry q (get_or (set t (arp_slot t ip) new) j no_entry) ≡ true
        → ⊥
    clash q i j e ne h k =
        let at_new : is_entry q new ≡ true =
          ap (is_entry q) (sym written)
          ∙ ap (λ n. is_entry q (get_or (set t (arp_slot t ip) new) n no_entry)) (sym e)
          ∙ h in
        let same : q ≡ ip = ground arith in
        let gone : is_entry q (get_or t j no_entry) ≡ false =
          ap (λ n. is_entry n (get_or t j no_entry)) same ∙ alone t ip j d ne in
        absurd (ground (arith, old q j ne))

    apart :
        (q i j : ℕ)
        → Dec (i ≡ arp_slot t ip)
        → Dec (j ≡ arp_slot t ip)
        → is_entry q (get_or (set t (arp_slot t ip) new) i no_entry) ≡ true
        → is_entry q (get_or (set t (arp_slot t ip) new) j no_entry) ≡ true
        → i ≡ j
    apart q i j (yes a) (yes b) h k = a ∙ sym b
    apart q i j (yes a) (no b) h k = absurd (clash q i j a b h k)
    apart q i j (no a) (yes b) h k = absurd (clash q j i b a k h)
    apart q i j (no a) (no b) h k = d.once q i j (sym (old q i a) ∙ h) (sym (old q j b) ∙ k)

-- What the interface answers to a request.
abbrev pub reply_to : Arp → ArpPacket → ArpPacket
reply_to a p = record { oper = 2; sha = a.mac; spa = a.ip; tha = p.sha; tpa = p.spa }

pub record Learned (a : Arp) (p : ArpPacket) (b : Arp) : Type 0 where
  pub learned : arp_lookup b.cache p.spa ≡ some p.sha
  pub kept : Distinct b.cache
  pub replied : p.oper ≡ 1 → p.tpa ≡ a.ip → b.sent ≡ (p.sha, reply_to a p) ∷ a.sent
  pub quiet : (p.oper ≢ 1) ⊎ (p.tpa ≢ a.ip) → b.sent ≡ a.sent

-- An ARP packet of full length makes its sender's hardware address the one that is found for the sender,
-- and no address stands in the cache twice; if it is a request for the interface's address, one reply with
-- the interface's hardware address goes to the sender, and otherwise nothing is sent.
pub arp_receive-Learned :
    (a : Arp) (p : ArpPacket) (len : ℕ)
    → Distinct a.cache
    → arp_header_size ≤ len
    → Learned a p (arp_receive a p len)
unfolding arp_receive
arp_receive-Learned a p len d full =
    let found = arp_lookup-arp_add_entry a.cache p.spa p.sha (omega (arith, d.size)) in
    let distinct = arp_add_entry-Distinct a.cache p.spa p.sha d in
    rw (if_false (ltb len arp_header_size) _ _ (ground arith)) (
      if_cases (Learned a p) ((p.oper == arp_op_request) && (p.tpa == a.ip))
        (λ asked. record {
          learned = found;
          kept = distinct;
          replied = λ o t. refl;
          quiet = λ n. absurd (ground arith);
        })
        (λ other. record {
          learned = found;
          kept = distinct;
          replied = λ o t. absurd (ground arith);
          quiet = λ n. refl;
        }))
