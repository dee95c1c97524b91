-- ===== src/Net/Arp/Cache.antt =====
-- The ARP cache as a finite map.
use zurich_os.Base.{
  ℕ, suc, ◌+◌, ◌<◌, ◌≡◌, ◌≢◌, refl, ap, sym, ◌∙◌, Bool, true, false, List, [], ◌∷◌, if◌then◌else◌,
  get_or, set, length, length-set, get_or-set_self, get_or-set_ne, Option, none, some, find_index?,
  next_index, or_else, find_index?-Found, find_index?-none, find_index?-here, find_index?-set_eq,
  ==_refl, arith,
}
use zurich_os.Net.Arp.{
  ArpEntry, no_entry, is_entry, is_invalid, pick_slot, or_first, arp_slot, arp_add_entry, mac_at,
  arp_lookup,
}

abbrev shift : ℕ → Option ℕ → Option ℕ
shift i none = none
shift i (some k) = some (i + k)

-- The slot by the first entry for the address and the first that is not valid.
abbrev choose : ℕ → Option ℕ → Option ℕ → Option ℕ → Option ℕ
choose i slot (some k) o = some (i + k)
choose i slot none o = or_else slot (shift i o)

shift_next : (i : ℕ) (o : Option ℕ) → shift (i + 1) o ≡ shift i (next_index o)
shift_next i none = refl
shift_next i (some k) = let e : i + 1 + k ≡ i + suc k = omega arith in ap some e

one_slot :
    (b c : Bool) (o₁ o₂ : Option ℕ) (i : ℕ) (slot : Option ℕ)
    → (if b then some i else choose (i + 1) (if c then or_else slot (some i) else slot) o₁ o₂)
      ≡ choose i slot (if b then some 0 else next_index o₁) (if c then some 0 else next_index o₂)
one_slot true c o₁ o₂ i slot = let e : i ≡ i + 0 = omega arith in ap some e
one_slot false c (some k) o₂ i slot = let e : i + 1 + k ≡ i + suc k = omega arith in ap some e
one_slot false true none o₂ i none = let e : i ≡ i + 0 = omega arith in ap some e
one_slot false true none o₂ i (some s) = refl
one_slot false false none o₂ i none = shift_next i o₂
one_slot false false none o₂ i (some s) = refl

pick_slot_lem :
    (ip : ℕ) (t : List ArpEntry) (i : ℕ) (slot : Option ℕ)
    → pick_slot ip t i slot ≡ choose i slot (find_index? (is_entry ip) t) (find_index? is_invalid t)
unfolding pick_slot
pick_slot_lem ip [] i none = refl
pick_slot_lem ip [] i (some s) = refl
pick_slot_lem ip (e ∷ es) i slot =
    ap (λ r. if is_entry ip e then some i else r)
      (pick_slot_lem ip es (i + 1) (if is_invalid e then or_else slot (some i) else slot))
    ∙ one_slot (is_entry ip e) (is_invalid e) (find_index? (is_entry ip) es)
        (find_index? is_invalid es) i slot

-- Where `arp_add_entry` writes: over the first entry for the address; or, where there is none, at the first
-- that is not valid; or, where all are valid, over entry 0.
pub data Slot (t : List ArpEntry) (ip : ℕ) (i : ℕ) : Type 0 where
  known : find_index? (is_entry ip) t ≡ some i → Slot t ip i
  free : find_index? (is_entry ip) t ≡ none → find_index? is_invalid t ≡ some i → Slot t ip i
  evicts :
      find_index? (is_entry ip) t ≡ none → find_index? is_invalid t ≡ none → i ≡ 0 → Slot t ip i

pub arp_slot-Slot : (t : List ArpEntry) (ip : ℕ) → Slot t ip (arp_slot t ip)
unfolding arp_slot
arp_slot-Slot t ip =
    rw (pick_slot_lem ip t 0 none)
      (cases (find_index? (is_entry ip) t) (find_index? is_invalid t) refl refl)
  where
    cases :
        (m f : Option ℕ)
        → find_index? (is_entry ip) t ≡ m
        → find_index? is_invalid t ≡ f
        → Slot t ip (or_first (choose 0 none m f))
    cases (some k) f e g = let z : k ≡ 0 + k = omega arith in known (e ∙ ap some z)
    cases none (some k) e g = let z : k ≡ 0 + k = omega arith in free e (g ∙ ap some z)
    cases none none e g = evicts e g refl

pub Slot-in : (t : List ArpEntry) (ip i : ℕ) → 0 < length t → Slot t ip i → i < length t
Slot-in t ip i pos (known e) = (find_index?-Found (is_entry ip) t no_entry i e).within
Slot-in t ip i pos (free e f) = (find_index?-Found is_invalid t no_entry i f).within
Slot-in t ip i pos (evicts e f z) = omega (arith, z)

-- Every other entry before the slot is for another address.
Slot-first :
    (t : List ArpEntry) (ip i j : ℕ)
    → i < length t
    → Slot t ip i
    → j < i
    → is_entry ip (get_or t j no_entry) ≡ false
Slot-first t ip i j lt (known e) less =
    (find_index?-Found (is_entry ip) t no_entry i e).first j less
Slot-first t ip i j lt (free e f) less = find_index?-none (is_entry ip) t no_entry j e (omega arith)
Slot-first t ip i j lt (evicts e f z) less =
    find_index?-none (is_entry ip) t no_entry j e (omega arith)

-- An address just added is found, whatever the cache held.
pub arp_lookup-arp_add_entry :
    (t : List ArpEntry) (ip : ℕ) (mac : List ℕ)
    → 0 < length t
    → arp_lookup (arp_add_entry t ip mac) ip ≡ some mac
unfolding arp_lookup arp_add_entry
arp_lookup-arp_add_entry t ip mac pos =
    let i : ℕ = arp_slot t ip in
    let s : Slot t ip i = arp_slot-Slot t ip in
    let lt : i < length t = Slot-in t ip i pos s in
    let v : ArpEntry = record { ip = ip; mac = mac; valid = true } in
    let here : get_or (set t i v) i no_entry ≡ v = get_or-set_self t i v no_entry lt in
    ap (mac_at (set t i v)) (
      find_index?-here (is_entry ip) (set t i v) i no_entry (omega (arith, length-set t i v))
        (ap (is_entry ip) here ∙ ==_refl ip)
        (λ j less.
          ap (is_entry ip) (get_or-set_ne t i j v no_entry (λ e. absurd (omega (arith, e))))
          ∙ Slot-first t ip i j lt s less))
    ∙ ap (λ (e : ArpEntry). some e.mac) here

places_of_differ :
    (t : List ArpEntry) (other i k : ℕ)
    → i ≡ k
    → is_entry other (get_or t i no_entry) ≡ false
    → is_entry other (get_or t k no_entry) ≡ true
    → ⊥
places_of_differ t other i k q off on =
    let same_test : is_entry other (get_or t k no_entry) ≡ false =
      ap (λ n. is_entry other (get_or t n no_entry)) (sym q) ∙ off in
    absurd (ground arith)

-- Adding an address changes what is found for no other, except for one whose entry it overwrites.
pub arp_lookup_other :
    (t : List ArpEntry) (ip other : ℕ) (mac : List ℕ)
    → other ≢ ip
    → is_entry other (get_or t (arp_slot t ip) no_entry) ≡ false
    → arp_lookup (arp_add_entry t ip mac) other ≡ arp_lookup t other
unfolding arp_lookup arp_add_entry
arp_lookup_other t ip other mac ne kept =
    let i : ℕ = arp_slot t ip in
    let v : ArpEntry = record { ip = ip; mac = mac; valid = true } in
    let off : is_entry other v ≡ false = ground arith in
    ap (mac_at (set t i v)) (find_index?-set_eq (is_entry other) t i v no_entry (off ∙ sym kept))
    ∙ same i v (find_index? (is_entry other) t) refl kept
  where
    same :
        (i : ℕ) (v : ArpEntry) (o : Option ℕ)
        → find_index? (is_entry other) t ≡ o
        → is_entry other (get_or t i no_entry) ≡ false
        → mac_at (set t i v) o ≡ mac_at t o
    same i v none e off = refl
    same i v (some k) e off =
        let on = (find_index?-Found (is_entry other) t no_entry k e).holds in
        ap (λ (x : ArpEntry). some x.mac)
          (get_or-set_ne t i k v no_entry (λ q. absurd (places_of_differ t other i k q off on)))
