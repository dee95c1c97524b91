-- ===== src/Net/Routes/Table.antt =====
-- `route_add`, `route_del` and the two functions that go over the routes in use.
use zurich_os.Base.{
  ℕ, zero, suc, ◌+◌, ◌<◌, ◌≡◌, ◌≢◌, refl, ap, ◌∙◌, true, false, List, [], ◌∷◌, get_or, set, length,
  get_or-set_self, get_or-set_ne, ℤ, pos, neg, Option, none, some, find_index?, Found,
  find_index?-Found, find_index?-none, arith, ==_refl,
}
use zurich_os.Net.Routes.{
  RouteEntry, zero_route, new_route, route_free, is_route, add_at, del_at, route_add, route_del,
  route_get_count,
}

count_on :
    (t : List RouteEntry) (i : ℕ) (v : RouteEntry)
    → i < length t
    → (get_or t i zero_route).in_use ≡ false
    → v.in_use ≡ true
    → route_get_count (set t i v) ≡ route_get_count t + 1
unfolding route_get_count
count_on [] i v lt off on = absurd (omega arith)
count_on (e ∷ es) zero v lt off on = ground arith
count_on (e ∷ es) (suc i) v lt off on = ground (arith, count_on es i v (omega arith) off on)

count_off :
    (t : List RouteEntry) (i : ℕ) (v : RouteEntry)
    → i < length t
    → (get_or t i zero_route).in_use ≡ true
    → v.in_use ≡ false
    → route_get_count t ≡ route_get_count (set t i v) + 1
unfolding route_get_count
count_off [] i v lt on off = absurd (omega arith)
count_off (e ∷ es) zero v lt on off = ground arith
count_off (e ∷ es) (suc i) v lt on off = ground (arith, count_off es i v (omega arith) on off)

count_full :
    (t : List RouteEntry)
    → ((i : ℕ) → i < length t → route_free (get_or t i zero_route) ≡ false)
    → route_get_count t ≡ length t
unfolding route_get_count
count_full [] h = refl
count_full (e ∷ es) h =
    ground (arith, h 0 (omega arith), count_full es (λ i lt. h (suc i) (omega arith)))

-- The entry is a route in use with this destination and netmask.
pub record IsRoute (dest netmask : ℕ) (e : RouteEntry) : Type 0 where
  pub used : e.in_use ≡ true
  pub to : e.dest ≡ dest
  pub under : e.netmask ≡ netmask

is_route-IsRoute :
    (dest netmask : ℕ) (e : RouteEntry) → is_route dest netmask e ≡ true → IsRoute dest netmask e
is_route-IsRoute dest netmask e h = record {
  used = ground arith;
  to = ground arith;
  under = ground arith;
}

is_route_complete :
    (dest netmask : ℕ) (e : RouteEntry) → is_route dest netmask e ≡ false → ¬ IsRoute dest netmask e
is_route_complete dest netmask e h r = absurd (ground (arith, r.used, r.to, r.under))

-- What adding a route does: the route is in the lowest free entry and the others are as before, or every
-- entry was in use and nothing changes.
pub record Added (t : List RouteEntry) (dest netmask gateway metric : ℕ) (r : List RouteEntry × ℤ)
    (i : ℕ) : Type 0 where
  pub result : r.1 ≡ pos 0
  pub within : i < length t
  pub was_free : (get_or t i zero_route).in_use ≡ false
  pub lowest : (j : ℕ) → j < i → (get_or t j zero_route).in_use ≡ true
  pub is_new : IsRoute dest netmask (get_or r.0 i zero_route)
  pub leads : (get_or r.0 i zero_route).gateway ≡ gateway
  pub costs : (get_or r.0 i zero_route).metric ≡ metric
  pub others : (j : ℕ) → i ≢ j → get_or r.0 j zero_route ≡ get_or t j zero_route
  pub counted : route_get_count r.0 ≡ route_get_count t + 1

pub data AddOutcome (t : List RouteEntry) (dest netmask gateway metric : ℕ)
    (r : List RouteEntry × ℤ) : Type 0 where
  added :
      (i : ℕ) → Added t dest netmask gateway metric r i → AddOutcome t dest netmask gateway metric r
  full : r ≡ (t, neg 1) → route_get_count t ≡ length t → AddOutcome t dest netmask gateway metric r

-- `route_add` puts the route in the lowest free entry, leaves every other entry alone, raises the count of
-- routes by one and returns 0; it fails, with -1 and nothing changed, just where every entry is in use.
pub route_add-AddOutcome :
    (t : List RouteEntry) (dest netmask gateway metric : ℕ) (iface : Option (List ℕ))
    → AddOutcome t dest netmask gateway metric (route_add t dest netmask gateway metric iface)
unfolding route_add
route_add-AddOutcome t dest netmask gateway metric iface = cases (find_index? route_free t) refl
  where
    cases :
        (o : Option ℕ)
        → find_index? route_free t ≡ o
        → AddOutcome t dest netmask gateway metric (add_at t dest netmask gateway metric iface o)
    cases none e =
        full refl (count_full t (λ i lt. find_index?-none route_free t zero_route i e lt))
    cases (some i) e =
        let f : Found route_free t zero_route i = find_index?-Found route_free t zero_route i e in
        let v : RouteEntry = new_route dest netmask gateway metric iface (get_or t i zero_route) in
        let off : (get_or t i zero_route).in_use ≡ false = ground (arith, f.holds) in
        let put : get_or (set t i v) i zero_route ≡ v = get_or-set_self t i v zero_route f.within in
        added i (record {
          result = refl;
          within = f.within;
          was_free = off;
          lowest = λ j lt. ground (arith, f.first j lt);
          is_new =
              is_route-IsRoute dest netmask (get_or (set t i v) i zero_route)
                (ap (is_route dest netmask) put ∙ ground (arith, ==_refl dest, ==_refl netmask));
          leads = ap (λ (x : RouteEntry). x.gateway) put;
          costs = ap (λ (x : RouteEntry). x.metric) put;
          others = λ j ne. get_or-set_ne t i j v zero_route ne;
          counted = count_on t i v f.within off refl;
        })

pub record Deleted (t : List RouteEntry) (dest netmask : ℕ) (r : List RouteEntry × ℤ) (i : ℕ)
    : Type 0 where
  pub result : r.1 ≡ pos 0
  pub was_route : IsRoute dest netmask (get_or t i zero_route)
  pub lowest : (j : ℕ) → j < i → ¬ IsRoute dest netmask (get_or t j zero_route)
  pub gone : (get_or r.0 i zero_route).in_use ≡ false
  pub others : (j : ℕ) → i ≢ j → get_or r.0 j zero_route ≡ get_or t j zero_route
  pub counted : route_get_count t ≡ route_get_count r.0 + 1

pub data DelOutcome (t : List RouteEntry) (dest netmask : ℕ) (r : List RouteEntry × ℤ)
    : Type 0 where
  deleted : (i : ℕ) → Deleted t dest netmask r i → DelOutcome t dest netmask r
  missing :
      r ≡ (t, neg 1)
      → ((j : ℕ) → j < length t → ¬ IsRoute dest netmask (get_or t j zero_route))
      → DelOutcome t dest netmask r

-- `route_del` takes the first route with this destination and netmask out of use, leaves every other entry
-- alone, lowers the count of routes by one and returns 0; it returns -1 and changes nothing just where there
-- is no such route.
pub route_del-DelOutcome :
    (t : List RouteEntry) (dest netmask : ℕ) → DelOutcome t dest netmask (route_del t dest netmask)
unfolding route_del
route_del-DelOutcome t dest netmask = cases (find_index? (is_route dest netmask) t) refl
  where
    cases :
        (o : Option ℕ)
        → find_index? (is_route dest netmask) t ≡ o
        → DelOutcome t dest netmask (del_at t o)
    cases none e = missing refl (λ j lt.
        is_route_complete dest netmask (get_or t j zero_route)
          (find_index?-none (is_route dest netmask) t zero_route j e lt))
    cases (some i) e =
        let f : Found (is_route dest netmask) t zero_route i =
          find_index?-Found (is_route dest netmask) t zero_route i e in
        let v : RouteEntry = record (get_or t i zero_route) { in_use = false } in
        let put : get_or (set t i v) i zero_route ≡ v = get_or-set_self t i v zero_route f.within in
        deleted i (record {
          result = refl;
          was_route = is_route-IsRoute dest netmask (get_or t i zero_route) f.holds;
          lowest = λ j lt. is_route_complete dest netmask (get_or t j zero_route) (f.first j lt);
          gone = ap (λ (x : RouteEntry). x.in_use) put;
          others = λ j ne. get_or-set_ne t i j v zero_route ne;
          counted = count_off t i v f.within (ground (arith, f.holds)) refl;
        })
