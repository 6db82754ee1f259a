-- ===== src/Routing/Entries.antt =====
-- The routes of a table of lib/routing/route-table.js against the configured entries.
use node_red_contrib_mavlink.Common.{
  ℕ, suc, ◌+◌, ◌-◌, ◌≤◌, ◌≡◌, refl, subst, sym, ap, Bool, true, false, Option, none, some, List, [],
  ◌∷◌, arith, All, All-map, tally, get_elem?, length, if◌then◌else◌, ◌==◌, ltb, leb,
}
use mathlib.Core.Option.{some-injective}
use node_red_contrib_mavlink.StableSort.{sort, sort-All, tally-sort}
use node_red_contrib_mavlink.Routing.{
  Entry, any, number, garbage, RouteId, wildcard, exact, RouteConfig, Route, normalize_id,
  read_route, read_routes, not_after, route_table, sort_routes, cons_route, make_route,
}

-- An id that a packet can carry.
abbrev pub InRange : RouteId → Type 0
InRange wildcard = Unit
InRange (exact n) = n ≤ 255

exact-InRange :
    (n : ℕ) (i : RouteId) (b : Bool)
    → (b ≡ false → n ≤ 255)
    → (if b then none else some (exact n)) ≡ some i
    → InRange i
exact-InRange n i true k h = ground arith
exact-InRange n i false k h = subst InRange (some-injective (exact n) i h) (k refl)

normalize_id-InRange : (v : Entry) (i : RouteId) → normalize_id v ≡ some i → InRange i
unfolding normalize_id
normalize_id-InRange any i h = subst InRange (some-injective wildcard i h) tt
normalize_id-InRange (number n) i h = exact-InRange n i (ltb 255 n) (λ k. ground arith) h
normalize_id-InRange garbage i h = ground arith

module _ {Ref : Type 0} where
  -- What a route owes to the entry that it was read from.
  pub record IsEntry (cs : List (RouteConfig Ref)) (r : Route Ref) : Type 0 where
    pub entry : RouteConfig Ref
    pub at_index : get_elem? cs r.index ≡ some entry
    pub reads_as : read_route r.index entry ≡ some r

  record Reads (k : ℕ) (cs : List (RouteConfig Ref)) (r : Route Ref) : Type 0 where
    entry : RouteConfig Ref
    above : k ≤ r.index
    at_index : get_elem? cs (r.index - k) ≡ some entry
    reads_as : read_route r.index entry ≡ some r

  make_route-index :
      (p : Ref) (k : ℕ) (a b : Option RouteId) (r : Route Ref)
      → make_route p k a b ≡ some r
      → r.index ≡ k
  make_route-index p k (some a) (some b) r h =
      sym (ap (λ (x : Route Ref). x.index) (some-injective _ r h))
  make_route-index p k none b r h = ground arith
  make_route-index p k (some a) none r h = ground arith

  make_route-InRange :
      (p : Ref) (k : ℕ) (a b : Option RouteId) (r : Route Ref)
      → ((i : RouteId) → a ≡ some i → InRange i)
      → ((i : RouteId) → b ≡ some i → InRange i)
      → make_route p k a b ≡ some r
      → InRange r.sysid × InRange r.compid
  make_route-InRange p k (some a) (some b) r ha hb h =
      subst (λ (x : Route Ref). InRange x.sysid × InRange x.compid) (some-injective _ r h)
        (ha a refl, hb b refl)
  make_route-InRange p k none b r ha hb h = ground arith
  make_route-InRange p k (some a) none r ha hb h = ground arith

  read_route-index :
      (k : ℕ) (c : RouteConfig Ref) (r : Route Ref) → read_route k c ≡ some r → r.index ≡ k
  unfolding read_route
  read_route-index k c r h =
      make_route-index c.profile k (normalize_id c.sysid) (normalize_id c.compid) r h

  read_route-InRange :
      (k : ℕ) (c : RouteConfig Ref) (r : Route Ref)
      → read_route k c ≡ some r
      → InRange r.sysid × InRange r.compid
  unfolding read_route
  read_route-InRange k c r h =
      make_route-InRange c.profile k _ _ r (normalize_id-InRange c.sysid)
        (normalize_id-InRange c.compid) h

  cons_route-some :
      (a : Option (Route Ref)) (b : Option (List (Route Ref))) (rs : List (Route Ref))
      → cons_route a b ≡ some rs
      → (r : Route Ref) × (q : List (Route Ref)) × (a ≡ some r) × (b ≡ some q) × (r ∷ q ≡ rs)
  cons_route-some (some r) (some q) rs h = (r, q, refl, refl, some-injective _ rs h)
  cons_route-some none b rs h = ground arith
  cons_route-some (some r) none rs h = ground arith

  Reads-suc :
      (k : ℕ) (c : RouteConfig Ref) (cs : List (RouteConfig Ref)) (r : Route Ref)
      → Reads (suc k) cs r
      → Reads k (c ∷ cs) r
  Reads-suc k c cs r x = record {
    entry = x.entry;
    above = omega (arith, x.above);
    at_index =
        subst (λ n. get_elem? (c ∷ cs) n ≡ some x.entry) {x = suc (r.index - suc k)}
          (omega (arith, x.above)) x.at_index;
    reads_as = x.reads_as;
  }

  Reads-head :
      (k : ℕ) (c : RouteConfig Ref) (cs : List (RouteConfig Ref)) (r : Route Ref)
      → read_route k c ≡ some r
      → Reads k (c ∷ cs) r
  Reads-head k c cs r h = record {
    entry = c;
    above = omega (arith, read_route-index k c r h);
    at_index =
        subst (λ n. get_elem? (c ∷ cs) n ≡ some c) {x = 0} (omega (arith, read_route-index k c r h))
          refl;
    reads_as = subst (λ n. read_route n c ≡ some r) (sym (read_route-index k c r h)) h;
  }

  read_routes-Reads :
      (k : ℕ) (cs : List (RouteConfig Ref)) (rs : List (Route Ref))
      → read_routes k cs ≡ some rs
      → All (Reads k cs) rs
  unfolding read_routes
  read_routes-Reads k [] rs h = subst (All (Reads k [])) (some-injective [] rs h) tt
  read_routes-Reads k (c ∷ cs) rs h =
      let (r, q, hr, hq, e) = cons_route-some (read_route k c) (read_routes (suc k) cs) rs h in
      subst (All (Reads k (c ∷ cs))) e (
        Reads-head k c cs r hr,
        All-map _ _ (Reads-suc k c cs) q (read_routes-Reads (suc k) cs q hq),
      )

  read_routes-tally :
      (i k : ℕ) (cs : List (RouteConfig Ref)) (rs : List (Route Ref))
      → read_routes k cs ≡ some rs
      → tally (λ r. r.index == i) rs
        ≡ (if leb k i then (if ltb i (k + length cs) then 1 else 0) else 0)
  unfolding read_routes
  read_routes-tally i k [] rs h =
      subst
        (λ z.
          tally (λ (r : Route Ref). r.index == i) z
          ≡ (if leb k i then (if ltb i (k + 0) then 1 else 0) else 0))
        (some-injective [] rs h) (ground arith)
  read_routes-tally i k (c ∷ cs) rs h =
      let (r, q, hr, hq, e) = cons_route-some (read_route k c) (read_routes (suc k) cs) rs h in
      subst
        (λ z.
          tally (λ (x : Route Ref). x.index == i) z
          ≡ (if leb k i then (if ltb i (k + suc (length cs)) then 1 else 0) else 0))
        e (ground (arith, read_route-index k c r hr, read_routes-tally i (suc k) cs q hq))

  -- What a table holds of its configuration.
  pub record IsTable (cs : List (RouteConfig Ref)) (rs : List (Route Ref)) : Type 0 where
    pub entries : All (IsEntry cs) rs
    pub in_range : All (λ (r : Route Ref). InRange r.sysid × InRange r.compid) rs
    pub each_once : (i : ℕ) → tally (λ r. r.index == i) rs ≡ (if ltb i (length cs) then 1 else 0)

  Reads-IsEntry : (cs : List (RouteConfig Ref)) (r : Route Ref) → Reads 0 cs r → IsEntry cs r
  Reads-IsEntry cs r x = record {
    entry = x.entry;
    at_index = subst (λ n. get_elem? cs n ≡ some x.entry) (omega arith) x.at_index;
    reads_as = x.reads_as;
  }

  sorted-IsTable :
      (cs : List (RouteConfig Ref)) (o : Option (List (Route Ref))) (rs : List (Route Ref))
      → read_routes 0 cs ≡ o
      → sort_routes o ≡ some rs
      → IsTable cs rs
  sorted-IsTable cs none rs e h = ground arith
  sorted-IsTable cs (some q) rs e h =
      let reads = read_routes-Reads 0 cs q e in
      subst (IsTable cs) (some-injective (sort not_after q) rs h) (record {
        entries = sort-All not_after (IsEntry cs) q (All-map _ _ (Reads-IsEntry cs) q reads);
        in_range =
            sort-All not_after (λ (r : Route Ref). InRange r.sysid × InRange r.compid) q
              (All-map _ _ (λ r (x : Reads 0 cs r). read_route-InRange r.index x.entry r x.reads_as)
                q reads);
        each_once = λ i. ground (
          arith,
          tally-sort not_after (λ (r : Route Ref). r.index == i) q,
          read_routes-tally i 0 cs q e,
        );
      })

  -- A table that is read without an error holds each configured entry once and nothing else, and
  -- its exact ids are at most 255.
  pub route_table-IsTable :
      (cs : List (RouteConfig Ref)) (rs : List (Route Ref))
      → route_table cs ≡ some rs
      → IsTable cs rs
  unfolding route_table
  route_table-IsTable cs rs h = sorted-IsTable cs (read_routes 0 cs) rs refl h
