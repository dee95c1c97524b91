-- ===== src/Net/Routes.antt =====
-- services/net/route.c and include/net/route.h: the routing table. What is printed is left out.
pub mod Lookup
pub mod Table
use zurich_os.Base.{
  ℕ, zero, suc, ◌+◌, ◌-◌, bit_and, bit_or, Bool, true, false, not, ◌&&◌, List, [], ◌∷◌, ◌++◌, ltb,
  leb, ◌==◌, if◌then◌else◌, get_or, set, take, drop, replicate, length, ℤ, pos, neg, index?, Option,
  none, some, find_index?, next_index,
}

pub record RouteEntry : Type 0 where
  pub dest : ℕ
  pub netmask : ℕ
  pub gateway : ℕ
  pub metric : ℕ
  pub flags : ℕ
  pub in_use : Bool
  pub iface : List ℕ

abbrev pub max_routes : ℕ
max_routes = 16

abbrev pub route_flag_up : ℕ
route_flag_up = 1

abbrev pub route_flag_gateway : ℕ
route_flag_gateway = 2

abbrev pub route_flag_default : ℕ
route_flag_default = 8

-- The characters of "eth0", with the final 0.
abbrev pub eth0 : List ℕ
eth0 = 101 ∷ 116 ∷ 104 ∷ 48 ∷ 0 ∷ []

abbrev pub zero_route : RouteEntry
zero_route = record {
  dest = 0;
  netmask = 0;
  gateway = 0;
  metric = 0;
  flags = 0;
  in_use = false;
  iface = replicate 8 0;
}

-- The static array `routes`, zeroed by `route_init`.
unfoldable pub route_init : List RouteEntry
route_init = replicate max_routes zero_route

-- `strncpy` of seven bytes pads with zeros, and the eighth byte is set to 0; `iface` are the characters
-- before the final 0. `strcpy` writes five bytes and leaves the other three.
abbrev pub name_of : Option (List ℕ) → List ℕ → List ℕ
name_of none old = eth0 ++ drop 5 old
name_of (some iface) old = take 7 (iface ++ replicate 7 0) ++ 0 ∷ []

unfoldable pub flags_of : ℕ → ℕ → ℕ → ℕ
flags_of dest netmask gateway =
    let f = if not (gateway == 0) then bit_or route_flag_up route_flag_gateway else route_flag_up in
    if (dest == 0) && (netmask == 0) then bit_or f route_flag_default else f

abbrev pub new_route : ℕ → ℕ → ℕ → ℕ → Option (List ℕ) → RouteEntry → RouteEntry
new_route dest netmask gateway metric iface old = record {
  dest = dest;
  netmask = netmask;
  gateway = gateway;
  metric = metric;
  flags = flags_of dest netmask gateway;
  in_use = true;
  iface = name_of iface old.iface;
}

abbrev pub route_free : RouteEntry → Bool
route_free e = not e.in_use

abbrev pub add_at :
    List RouteEntry → ℕ → ℕ → ℕ → ℕ → Option (List ℕ) → Option ℕ → List RouteEntry × ℤ
add_at t dest netmask gateway metric iface none = (t, neg 1)
add_at t dest netmask gateway metric iface (some i) =
    (set t i (new_route dest netmask gateway metric iface (get_or t i zero_route)), pos 0)

unfoldable pub route_add : List RouteEntry → ℕ → ℕ → ℕ → ℕ → Option (List ℕ) → List RouteEntry × ℤ
route_add t dest netmask gateway metric iface =
    add_at t dest netmask gateway metric iface (find_index? route_free t)

-- The route that `route_del` looks for.
abbrev pub is_route : ℕ → ℕ → RouteEntry → Bool
is_route dest netmask e = e.in_use && (e.dest == dest) && (e.netmask == netmask)

abbrev pub del_at : List RouteEntry → Option ℕ → List RouteEntry × ℤ
del_at t none = (t, neg 1)
del_at t (some i) = (set t i (record (get_or t i zero_route) { in_use = false }), pos 0)

unfoldable pub route_del : List RouteEntry → ℕ → ℕ → List RouteEntry × ℤ
route_del t dest netmask = del_at t (find_index? (is_route dest netmask) t)

-- The local variables of `route_lookup`.
pub record Best : Type 0 where
  pub gateway : ℕ
  pub mask : ℕ
  pub metric : ℕ

abbrev pub no_route : Best
no_route = record { gateway = 0; mask = 0; metric = 4294967295 }

-- The tests that an entry passes before it is compared with the best so far.
unfoldable pub serves : ℕ → RouteEntry → Bool
serves dest e =
    e.in_use
    && not (bit_and e.flags route_flag_up == 0)
    && (bit_and dest e.netmask == bit_and e.dest e.netmask)

unfoldable pub improve : Best → RouteEntry → Best
improve b e =
    if leb b.mask e.netmask
    then (if ltb b.mask e.netmask
        then record { gateway = e.gateway; mask = e.netmask; metric = e.metric }
        else (if ltb e.metric b.metric
            then record { gateway = e.gateway; mask = e.netmask; metric = e.metric }
            else b))
    else b

unfoldable pub search_routes : ℕ → List RouteEntry → Best → Best
search_routes dest [] b = b
search_routes dest (e ∷ es) b = search_routes dest es (if serves dest e then improve b e else b)

unfoldable pub route_lookup : List RouteEntry → ℕ → ℕ
route_lookup t dest = (search_routes dest t no_route).gateway

unfoldable pub route_get_count : List RouteEntry → ℕ
route_get_count [] = 0
route_get_count (e ∷ es) = if e.in_use then route_get_count es + 1 else route_get_count es

-- The entry at which `count` reaches `index`; `none` where there is none, also for a negative index.
unfoldable pub nth_route : List RouteEntry → ℕ → Option ℕ
nth_route [] n = none
nth_route (e ∷ es) zero = if e.in_use then some 0 else next_index (nth_route es zero)
nth_route (e ∷ es) (suc n) =
    if e.in_use then next_index (nth_route es n) else next_index (nth_route es (suc n))
