-- ===== src/Vehicles/Tracked.antt =====
-- Which vehicles lib/swarm/vehicle-registry.js tracks, and what it knows of them.
use node_red_contrib_mavlink.Common.{
  ℕ, ◌≡◌, ◌⊎◌, inl, inr, refl, sym, ap, ◌∙◌, subst, Bool, false, not, ◌&&◌, Option, none, some,
  List, [], ◌∷◌, ◌==◌, All, All-map, if_cases, Bool-cases, pair_eq, keep,
}
use node_red_contrib_mavlink.JsMap.{get}
use node_red_contrib_mavlink.JsMap.Laws.{set-All, get-All}
use node_red_contrib_mavlink.StableSort.{sort-All}
use node_red_contrib_mavlink.Vehicles.{
  Vehicle, Heartbeat, Body, heartbeat, global_position_int, local_position_ned, sys_status,
  other_message, Registry, Filter, is_gcs, is_armed, discovered, update, store, discover,
  ingest_known, ingest_from, ingest, expire, is_live, selects, id_le, values, list_vehicles, Call,
  ingests, lists, run, new_registry,
}

-- A HEARTBEAT of a source was ingested.
abbrev pub Ingested : ℕ × ℕ → Heartbeat → List Call → Type 0
Ingested key h [] = ⊥
Ingested key h (ingests now p ∷ calls) =
    (p ≡ record { source = some key; body = heartbeat h }) ⊎ Ingested key h calls
Ingested key h (lists now ∷ calls) = Ingested key h calls

keep-All {κ} :
    {A : Type 0} (P : A → Type κ) (p : A → Bool) (xs : List A) → All P xs → All P (keep p xs)
keep-All P p [] h = tt
keep-All P p (x ∷ xs) h = elim (Bool-cases (p x)) [
  | inl e ↦ rw e (h.0, keep-All P p xs h.1)
  | inr e ↦ rw e (keep-All P p xs h.1)
]

module _ (P : ℕ × ℕ → Heartbeat → Type 0) where
  -- The heartbeat of a message of this source, if it is one.
  abbrev From : ℕ × ℕ → Body → Type 0
  From key (heartbeat h) = P key h
  From key global_position_int = Unit
  From key local_position_ned = Unit
  From key sys_status = Unit
  From key other_message = Unit

  abbrev FromSource : Option (ℕ × ℕ) → Body → Type 0
  FromSource none body = Unit
  FromSource (some key) body = From key body

  abbrev FromCall : Call → Type 0
  FromCall (ingests now p) = FromSource p.source p.body
  FromCall (lists now) = Unit

module _ (include_gcs : Bool) (gcs_type armed_flag : ℕ) where
  -- One heartbeat of the vehicle's own ids, no ground station's, told what is known of it.
  abbrev pub Told : (ℕ × ℕ → Heartbeat → Type 0) → Vehicle → Type 0
  Told P v =
      (h : Heartbeat) × P (v.sysid, v.compid) h
      × ((not include_gcs && h.type_num == gcs_type) ≡ false)
      × (v.type_num ≡ h.type_num)
      × (v.armed ≡ is_armed armed_flag h.base_mode)
      × (v.custom_mode ≡ h.custom_mode)

  module _ (P : ℕ × ℕ → Heartbeat → Type 0) where
    abbrev Entry : (ℕ × ℕ) × Vehicle → Type 0
    Entry (key, v) = (key ≡ (v.sysid, v.compid)) × Told P v

    record Inv (r : Registry) : Type 0 where
      same_gcs : r.include_gcs ≡ include_gcs
      same_type : r.gcs_type ≡ gcs_type
      same_flag : r.armed_flag ≡ armed_flag
      entries : All Entry r.vehicles

    store-Inv :
        (r : Registry) (key : ℕ × ℕ) (v : Vehicle)
        → key ≡ (v.sysid, v.compid)
        → Told P v
        → Inv r
        → Inv (store key v r)
    store-Inv r key v e t w = record {
      same_gcs = w.same_gcs;
      same_type = w.same_type;
      same_flag = w.same_flag;
      entries =
          set-All Entry r.vehicles key v (λ j same. ((pair_eq.beq_iff j key).0 same ∙ e, t))
            w.entries;
    }

    not-gcs :
        (h : Heartbeat) (r : Registry)
        → is_gcs r (heartbeat h) ≡ false
        → Inv r
        → (not include_gcs && h.type_num == gcs_type) ≡ false
    not-gcs h r g w =
        ap (λ b. not b && h.type_num == gcs_type) (sym w.same_gcs)
        ∙ ap (λ n. not r.include_gcs && h.type_num == n) (sym w.same_type)
        ∙ g

    discover-Inv :
        (now : ℕ) (key : ℕ × ℕ) (body : Body) (r : Registry)
        → From P key body
        → is_gcs r body ≡ false
        → Inv r
        → Inv (discover now key body r).1
    discover-Inv now (sysid, compid) (heartbeat h) r p g w =
        store-Inv r (sysid, compid) (discovered r.armed_flag now (sysid, compid) h) refl
          (h, p, not-gcs h r g w, refl, ap (λ f. is_armed f h.base_mode) w.same_flag, refl) w
    discover-Inv now key global_position_int r p g w = w
    discover-Inv now key local_position_ned r p g w = w
    discover-Inv now key sys_status r p g w = w
    discover-Inv now key other_message r p g w = w

    update-Told :
        (now : ℕ) (key : ℕ × ℕ) (body : Body) (r : Registry) (v : Vehicle)
        → From P key body
        → is_gcs r body ≡ false
        → Inv r
        → key ≡ (v.sysid, v.compid)
        → Told P v
        → Told P (update r.armed_flag now body v)
    update-Told now key (heartbeat h) r v p g w e t = (
      h,
      subst (λ k. P k h) e p,
      not-gcs h r g w,
      refl,
      ap (λ f. is_armed f h.base_mode) w.same_flag,
      refl,
    )
    update-Told now key global_position_int r v p g w e t = t
    update-Told now key local_position_ned r v p g w e t = t
    update-Told now key sys_status r v p g w e t = t
    update-Told now key other_message r v p g w e t = t

    update-ids :
        (flag now : ℕ) (body : Body) (v : Vehicle)
        → ◌≡◌ {A = ℕ × ℕ}
            ((update flag now body v).sysid, (update flag now body v).compid)
            (v.sysid, v.compid)
    update-ids flag now (heartbeat h) v = refl
    update-ids flag now global_position_int v = refl
    update-ids flag now local_position_ned v = refl
    update-ids flag now sys_status v = refl
    update-ids flag now other_message v = refl

    known-Inv :
        (now : ℕ) (key : ℕ × ℕ) (body : Body) (o : Option Vehicle) (r : Registry)
        → get r.vehicles key ≡ o
        → From P key body
        → is_gcs r body ≡ false
        → Inv r
        → Inv (ingest_known now key body o r).1
    known-Inv now key body none r e p g w = discover-Inv now key body r p g w
    known-Inv now key body (some v) r e p g w =
        let (j, same, (ids, told)) = get-All Entry r.vehicles key v e w.entries in
        let at = sym ((pair_eq.beq_iff j key).0 same) ∙ ids in
        store-Inv r key (update r.armed_flag now body v)
          (at ∙ sym (update-ids r.armed_flag now body v))
          (update-Told now key body r v p g w at told) w

    source-Inv :
        (now : ℕ) (body : Body) (o : Option (ℕ × ℕ)) (r : Registry)
        → FromSource P o body
        → Inv r
        → Inv (ingest_from now body o r).1
    source-Inv now body none r p w = w
    source-Inv now body (some key) r p w =
        if_cases {A = (Option Vehicle × Bool) × Registry} (λ x. Inv x.1) (is_gcs r body) (λ g. w)
          (λ g. known-Inv now key body (get r.vehicles key) r refl p g w)

    expire-Inv : (now : ℕ) (r : Registry) → Inv r → Inv (expire now r)
    unfolding expire
    expire-Inv now r w =
        if_cases Inv (r.expire_ms == 0) (λ e. w)
          (λ e. record {
            same_gcs = w.same_gcs;
            same_type = w.same_type;
            same_flag = w.same_flag;
            entries = keep-All Entry (is_live now r.expire_ms) r.vehicles w.entries;
          })

    run-Inv :
        (r : Registry) (calls : List Call) → All (FromCall P) calls → Inv r → Inv (run r calls)
    unfolding run ingest
    run-Inv r [] h w = w
    run-Inv r (ingests now p ∷ calls) h w =
        run-Inv (ingest now p r).1 calls h.1 (source-Inv now p.body p.source r h.0 w)
    run-Inv r (lists now ∷ calls) h w = run-Inv (expire now r) calls h.1 (expire-Inv now r w)

    values-Told : (m : List ((ℕ × ℕ) × Vehicle)) → All Entry m → All (Told P) (values m)
    values-Told [] h = tt
    values-Told ((key, v) ∷ m) h = (h.0.1, values-Told m h.1)

-- The messages of a history come from it.
module _ (P Q : ℕ × ℕ → Heartbeat → Type 0)
    (more : (key : ℕ × ℕ) (h : Heartbeat) → P key h → Q key h) where
  From-map : (key : ℕ × ℕ) (body : Body) → From P key body → From Q key body
  From-map key (heartbeat h) p = more key h p
  From-map key global_position_int p = tt
  From-map key local_position_ned p = tt
  From-map key sys_status p = tt
  From-map key other_message p = tt

  FromSource-map : (o : Option (ℕ × ℕ)) (body : Body) → FromSource P o body → FromSource Q o body
  FromSource-map none body p = tt
  FromSource-map (some key) body p = From-map key body p

  FromCall-map : (c : Call) → FromCall P c → FromCall Q c
  FromCall-map (ingests now p) h = FromSource-map p.source p.body h
  FromCall-map (lists now) h = tt

Ingested-later :
    (c : Call) (calls : List Call) (key : ℕ × ℕ) (h : Heartbeat)
    → Ingested key h calls
    → Ingested key h (c ∷ calls)
Ingested-later (ingests now p) calls key h i = inr i
Ingested-later (lists now) calls key h i = i

FromSource-now :
    (now : ℕ) (calls : List Call) (o : Option (ℕ × ℕ)) (body : Body)
    → FromSource
        (λ key h. Ingested key h (ingests now (record { source = o; body = body }) ∷ calls))
        o
        body
FromSource-now now calls none body = tt
FromSource-now now calls (some key) (heartbeat h) = inl refl
FromSource-now now calls (some key) global_position_int = tt
FromSource-now now calls (some key) local_position_ned = tt
FromSource-now now calls (some key) sys_status = tt
FromSource-now now calls (some key) other_message = tt

FromCall-now : (c : Call) (calls : List Call) → FromCall (λ key h. Ingested key h (c ∷ calls)) c
FromCall-now (ingests now p) calls = FromSource-now now calls p.source p.body
FromCall-now (lists now) calls = tt

all-FromCall : (calls : List Call) → All (FromCall (λ key h. Ingested key h calls)) calls
all-FromCall [] = tt
all-FromCall (c ∷ calls) = (
  FromCall-now c calls,
  All-map _ _
      (λ d f.
        FromCall-map (λ key h. Ingested key h calls) (λ key h. Ingested key h (c ∷ calls))
          (Ingested-later c calls) d f)
      calls (all-FromCall calls),
)

-- After any messages and listings: every vehicle that is listed was told of by a HEARTBEAT of its
-- own system and component, which gave its type, its mode and whether it is armed, and which is no
-- ground station's unless those are included. No other message makes a vehicle.
pub listed-Told :
    (stale_ms expire_ms : ℕ) (include_gcs : Bool) (gcs_type armed_flag : ℕ) (calls : List Call)
    (now : ℕ) (f : Filter)
    → All
        (Told include_gcs gcs_type armed_flag (λ key h. Ingested key h calls))
        (list_vehicles now f
          (run (new_registry stale_ms expire_ms include_gcs gcs_type armed_flag) calls)).0
unfolding list_vehicles
listed-Told stale_ms expire_ms include_gcs gcs_type armed_flag calls now f =
    let P : ℕ × ℕ → Heartbeat → Type 0 = λ key h. Ingested key h calls in
    let r = run (new_registry stale_ms expire_ms include_gcs gcs_type armed_flag) calls in
    let w =
      run-Inv include_gcs gcs_type armed_flag P
        (new_registry stale_ms expire_ms include_gcs gcs_type armed_flag) calls (all-FromCall calls)
        (record { same_gcs = refl; same_type = refl; same_flag = refl; entries = tt }) in
    let s = expire-Inv include_gcs gcs_type armed_flag P now r w in
    sort-All id_le (Told include_gcs gcs_type armed_flag P)
      (keep (selects now (expire now r) f) (values (expire now r).vehicles))
      (keep-All _ (selects now (expire now r) f) (values (expire now r).vehicles)
        (values-Told include_gcs gcs_type armed_flag P (expire now r).vehicles s.entries))
