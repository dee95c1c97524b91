-- ===== src/Net/Routes/Lookup.antt =====
-- `route_lookup` chooses the most specific route.
use zurich_os.Base.{
  ℕ, zero, suc, bit_and, ◌≢◌, ◌<◌, ◌≤◌, ◌≡◌, ◌⊎◌, inl, inr, refl, ap, ◌∙◌, true, false, List, [],
  ◌∷◌, ltb, leb, if_cases, get_or, length, arith,
}
use zurich_os.Net.Routes.{
  RouteEntry, zero_route, route_flag_up, Best, no_route, serves, improve, search_routes,
  route_lookup,
}

-- The first is at least as good as a route with the given mask and metric.
abbrev pub AtLeast : Best → ℕ → ℕ → Type 0
AtLeast b mask metric = (mask < b.mask) ⊎ ((mask ≡ b.mask) × (b.metric ≤ metric))

-- It is better.
abbrev pub Better : Best → ℕ → ℕ → Type 0
Better b mask metric = (mask < b.mask) ⊎ ((mask ≡ b.mask) × (b.metric < metric))

-- The route is in use and up, and agrees with the destination under its netmask.
pub record Serves (dest : ℕ) (e : RouteEntry) : Type 0 where
  pub used : e.in_use ≡ true
  pub up : bit_and e.flags route_flag_up ≢ 0
  pub agrees : bit_and dest e.netmask ≡ bit_and e.dest e.netmask

serves-Serves : (dest : ℕ) (e : RouteEntry) → serves dest e ≡ true → Serves dest e
unfolding serves
serves-Serves dest e h = record { used = ground arith; up = ground arith; agrees = ground arith }

serves_complete : (dest : ℕ) (e : RouteEntry) → Serves dest e → serves dest e ≡ true
unfolding serves
serves_complete dest e s = ground (arith, s.used, s.up, s.agrees)

-- The choice is an entry of the table that serves the destination; it is better than `b` and than the
-- entries before it that do.
pub record Served (dest : ℕ) (t : List RouteEntry) (b r : Best) : Type 0 where
  pub index : ℕ
  pub within : index < length t
  pub matched : Serves dest (get_or t index zero_route)
  pub gateway : r.gateway ≡ (get_or t index zero_route).gateway
  pub mask : r.mask ≡ (get_or t index zero_route).netmask
  pub metric : r.metric ≡ (get_or t index zero_route).metric
  pub beats : Better r b.mask b.metric
  pub first :
      (i : ℕ)
      → i < index
      → Serves dest (get_or t i zero_route)
      → Better r (get_or t i zero_route).netmask (get_or t i zero_route).metric

pub record Chosen (dest : ℕ) (t : List RouteEntry) (b r : Best) : Type 0 where
  pub origin : (r ≡ b) ⊎ Served dest t b r
  pub start : AtLeast r b.mask b.metric
  pub best :
      (i : ℕ)
      → i < length t
      → Serves dest (get_or t i zero_route)
      → AtLeast r (get_or t i zero_route).netmask (get_or t i zero_route).metric

AtLeast_refl : (b : Best) → AtLeast b b.mask b.metric
AtLeast_refl b = inr (refl, omega arith)

AtLeast_trans :
    (r b : Best) (mask metric : ℕ)
    → AtLeast r b.mask b.metric
    → AtLeast b mask metric
    → AtLeast r mask metric
AtLeast_trans r b mask metric p q = ground arith

Better_trans :
    (r b : Best) (mask metric : ℕ)
    → Better r b.mask b.metric
    → AtLeast b mask metric
    → Better r mask metric
Better_trans r b mask metric p q = ground arith

-- One round compares an entry that serves the destination with the best so far.
record Improved (b : Best) (e : RouteEntry) (r : Best) : Type 0 where
  pub kept : AtLeast r b.mask b.metric
  pub new : AtLeast r e.netmask e.metric
  pub from :
      (r ≡ b)
      ⊎ ((r ≡ record { gateway = e.gateway; mask = e.netmask; metric = e.metric })
          × Better r b.mask b.metric)

improve-Improved : (b : Best) (e : RouteEntry) → Improved b e (improve b e)
unfolding improve
improve-Improved b e =
    if_cases (Improved b e) (leb b.mask e.netmask)
      (λ le.
        if_cases (Improved b e) (ltb b.mask e.netmask)
          (λ lt. record {
            kept = ground arith;
            new = inr (refl, omega arith);
            from = inr (refl, ground arith);
          })
          (λ same.
            if_cases (Improved b e) (ltb e.metric b.metric)
              (λ less. record {
                kept = ground arith;
                new = inr (refl, omega arith);
                from = inr (refl, ground arith);
              })
              (λ more. record { kept = AtLeast_refl b; new = ground arith; from = inl refl })))
      (λ worse. record { kept = AtLeast_refl b; new = ground arith; from = inl refl })

later :
    (dest : ℕ) (e : RouteEntry) (es : List RouteEntry) (b b' r : Best)
    → AtLeast b' b.mask b.metric
    → (Serves dest e → AtLeast b' e.netmask e.metric)
    → Served dest es b' r
    → Served dest (e ∷ es) b r
later dest e es b b' r start new s = record {
  index = suc s.index;
  within = omega (arith, s.within);
  matched = s.matched;
  gateway = s.gateway;
  mask = s.mask;
  metric = s.metric;
  beats = Better_trans r b' b.mask b.metric s.beats start;
  first = first;
}
  where
    first :
        (i : ℕ)
        → i < suc s.index
        → Serves dest (get_or (e ∷ es) i zero_route)
        → Better r (get_or (e ∷ es) i zero_route).netmask (get_or (e ∷ es) i zero_route).metric
    first zero lt v = Better_trans r b' e.netmask e.metric s.beats (new v)
    first (suc i) lt v = s.first i (omega arith) v

here :
    (dest : ℕ) (e : RouteEntry) (es : List RouteEntry) (b r : Best)
    → serves dest e ≡ true
    → r ≡ record { gateway = e.gateway; mask = e.netmask; metric = e.metric }
    → Better r b.mask b.metric
    → Served dest (e ∷ es) b r
here dest e es b r m same beats = record {
  index = 0;
  within = omega arith;
  matched = serves-Serves dest e m;
  gateway = ap (λ (b : Best). b.gateway) same;
  mask = ap (λ (b : Best). b.mask) same;
  metric = ap (λ (b : Best). b.metric) same;
  beats = beats;
  first = λ i lt. absurd (omega arith);
}

Chosen-first :
    (dest : ℕ) (e : RouteEntry) (es : List RouteEntry) (b b' r : Best)
    → serves dest e ≡ true
    → Improved b e b'
    → Chosen dest es b' r
    → Chosen dest (e ∷ es) b r
Chosen-first dest e es b b' r m k c = record {
  origin = origin c.origin k.from;
  start = AtLeast_trans r b' b.mask b.metric c.start k.kept;
  best = best;
}
  where
    origin :
        (r ≡ b') ⊎ Served dest es b' r
        → (b' ≡ b)
          ⊎ ((b' ≡ record { gateway = e.gateway; mask = e.netmask; metric = e.metric })
              × Better b' b.mask b.metric)
        → (r ≡ b) ⊎ Served dest (e ∷ es) b r
    origin (inr s) f = inr (later dest e es b b' r k.kept (λ _. k.new) s)
    origin (inl p) (inl q) = inl (p ∙ q)
    origin (inl p) (inr (q, better)) = inr (here dest e es b r m (p ∙ q) (rw p better))

    best :
        (i : ℕ)
        → i < length (e ∷ es)
        → Serves dest (get_or (e ∷ es) i zero_route)
        → AtLeast r (get_or (e ∷ es) i zero_route).netmask (get_or (e ∷ es) i zero_route).metric
    best zero lt s = AtLeast_trans r b' e.netmask e.metric c.start k.new
    best (suc i) lt s = c.best i (omega arith) s

Chosen-next :
    (dest : ℕ) (e : RouteEntry) (es : List RouteEntry) (b r : Best)
    → serves dest e ≡ false
    → Chosen dest es b r
    → Chosen dest (e ∷ es) b r
Chosen-next dest e es b r m c = record { origin = origin c.origin; start = c.start; best = best }
  where
    origin : (r ≡ b) ⊎ Served dest es b r → (r ≡ b) ⊎ Served dest (e ∷ es) b r
    origin (inl p) = inl p
    origin (inr s) = inr (
        later dest e es b b r (AtLeast_refl b)
          (λ v. absurd (ground (arith, serves_complete dest e v))) s)

    best :
        (i : ℕ)
        → i < length (e ∷ es)
        → Serves dest (get_or (e ∷ es) i zero_route)
        → AtLeast r (get_or (e ∷ es) i zero_route).netmask (get_or (e ∷ es) i zero_route).metric
    best zero lt s = absurd (ground (arith, serves_complete dest e s))
    best (suc i) lt s = c.best i (omega arith) s

search_routes-Chosen :
    (dest : ℕ) (t : List RouteEntry) (b : Best) → Chosen dest t b (search_routes dest t b)
unfolding search_routes
search_routes-Chosen dest [] b = record {
  origin = inl refl;
  start = AtLeast_refl b;
  best = λ i lt s. absurd (omega arith);
}
search_routes-Chosen dest (e ∷ es) b =
    if_cases (λ b'. Chosen dest (e ∷ es) b (search_routes dest es b')) (serves dest e)
      (λ m.
        Chosen-first dest e es b (improve b e) (search_routes dest es (improve b e)) m
          (improve-Improved b e) (search_routes-Chosen dest es (improve b e)))
      (λ m. Chosen-next dest e es b (search_routes dest es b) m (search_routes-Chosen dest es b))

-- The gateway is that of the first of the best routes that serve the destination, or 0 where each of
-- these has netmask 0 and a metric of at least 4294967295.
pub data MostSpecific (t : List RouteEntry) (dest gateway : ℕ) : Type 0 where
  chosen :
      (r : Best)
      → Served dest t no_route r
      → gateway ≡ r.gateway
      → ((i : ℕ)
          → i < length t
          → Serves dest (get_or t i zero_route)
          → AtLeast r (get_or t i zero_route).netmask (get_or t i zero_route).metric)
      → MostSpecific t dest gateway
  missing :
      gateway ≡ 0
      → ((i : ℕ)
          → i < length t
          → Serves dest (get_or t i zero_route)
          → AtLeast no_route (get_or t i zero_route).netmask (get_or t i zero_route).metric)
      → MostSpecific t dest gateway

choice-MostSpecific :
    (t : List RouteEntry) (dest : ℕ) (r : Best)
    → Chosen dest t no_route r
    → MostSpecific t dest r.gateway
choice-MostSpecific t dest r c = elim c.origin [
  | inl none_better ↦ missing (ap (λ (b : Best). b.gateway) none_better) (λ i lt s.
      AtLeast_trans no_route r (get_or t i zero_route).netmask (get_or t i zero_route).metric
        (rw none_better (AtLeast_refl no_route)) (c.best i lt s))
  | inr s ↦ chosen r s refl c.best
]

-- `route_lookup` gives the gateway of the first route that is best among those that serve the
-- destination: none of them has a larger netmask, or the same netmask and a smaller metric, and those
-- before it are worse. It gives 0 where none beats a netmask of 0 with the metric 4294967295.
pub route_lookup-MostSpecific :
    (t : List RouteEntry) (dest : ℕ) → MostSpecific t dest (route_lookup t dest)
unfolding route_lookup
route_lookup-MostSpecific t dest =
    choice-MostSpecific t dest (search_routes dest t no_route)
      (search_routes-Chosen dest t no_route)
