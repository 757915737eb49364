-- ===== src/Stats/Vpc/Bounds.antt =====
-- The memory of a VPC summary is bounded by its limits.
use ctaudit.Prelude.{
  ℕ, ◌+◌, ◌≤◌, ◌<◌, ◌^◌, ◌≡◌, refl, ◌∙◌, Word, slt, Bool, true, false, ◌||◌, List, [], ◌∷◌,
  if◌then◌else◌, length, arith, Bool-cases, inl, inr,
}
use ctaudit.Text.{Str}
use ctaudit.Instant.{Time, is_zero}
use ctaudit.Map.{Comparable, has_key, put, str_comparable, nat_comparable}
use ctaudit.Map.Laws.{length-put}
use ctaudit.Map.Values.{AllValues, put-AllValues, find-AllValues}
use ctaudit.FlowLog.{Net, Flow}
use ctaudit.FlowLog.Addr.{NetTexts}
use ctaudit.Stats.Bounded.{Distinct}
use ctaudit.Stats.Bounded
use ctaudit.Stats.Bounded.Exact.{Fits, new_distinct-Fits, add-Fits, merge-Fits}
use ctaudit.Stats.Counter.{Counter, add_capped, merge_capped}
use ctaudit.Stats.Counter.Capped.{IsBounded, add_capped-IsBounded, merge_capped-IsBounded}
use ctaudit.Stats.Hours.{Hours, change_hour, in_hour, merge_hours, unix_hour}
use ctaudit.Stats.Vpc.{
  ExposedService, Exposures, VpcSummary, VpcLimits, new_vpc_summary, with_defaults, new_exposed,
  expose, has_room, flow_exposes, add_flow, merge_service, merge_services, merge_exposures,
  merge_vpc, exposed_source_cap,
}
use ctaudit.Stats.Vpc.Exposed.{expose_room, expose_full}

module _ (m : Word) (c : Counter) (h : IsBounded m c) where
  capped_if :
      (b : Bool) (key : Str) (n : Word) → IsBounded m (if b then add_capped key n m c else c)
  capped_if true key n = add_capped-IsBounded key n m c h
  capped_if false key n = h

module _ (m : Word) where
  abbrev AreBounded : Hours → Type 0
  AreBounded = AllValues (IsBounded m)

  empty-IsBounded : IsBounded m []
  empty-IsBounded = ground arith

  change_hour-AreBounded :
      (t : Word) (f : Counter → Counter) (hours : Hours)
      → ((c : Counter) → IsBounded m c → IsBounded m (f c))
      → AreBounded hours
      → AreBounded (change_hour t f hours)
  unfolding change_hour
  change_hour-AreBounded t f hours g a =
      put-AllValues (IsBounded m) t _ hours
        (g _ (find-AllValues (IsBounded m) t [] hours empty-IsBounded a)) a

  in_hour-AreBounded :
      (t : Time) (key : Str) (hours : Hours)
      → AreBounded hours
      → AreBounded (in_hour t (add_capped key 1 m) hours)
  unfolding in_hour
  in_hour-AreBounded t key hours a = elim (Bool-cases (is_zero t)) [
    | inl e ↦ rw e a
    | inr e ↦ rw e (
        change_hour-AreBounded (unix_hour t) (add_capped key 1 m) hours
          (λ c. add_capped-IsBounded key 1 m c) a)
  ]

  merge_hours-AreBounded :
      (o hours : Hours)
      → AreBounded hours
      → AreBounded (merge_hours (λ c d. merge_capped c m d) o hours)
  unfolding merge_hours
  merge_hours-AreBounded [] hours a = a
  merge_hours-AreBounded ((t, c) ∷ o) hours a = merge_hours-AreBounded o _ (
      change_hour-AreBounded t (λ d. merge_capped c m d) hours (λ d. merge_capped-IsBounded c m d)
        a)

abbrev pub HasFewSources : ExposedService → Type 0
HasFewSources x = IsBounded exposed_source_cap x.sources

-- No more services than the limit, each with a capped counter of sources.
pub record IsBoundedExposures (max : Word) (x : Exposures) : Type 0 where
  pub few_services : length x.services ≤ max
  pub few_sources : AllValues HasFewSources x.services

-- The limit is positive in the order of Go's int.
abbrev pub IsPositive : Word → Type 0
IsPositive max = (0 < max) × (max < 2 ^ 63)

module _ (max : Word) (p : IsPositive max) where
  fits_one : (n : ℕ) → n ≤ max → slt n max ≡ true → n + 1 ≤ max
  fits_one n h e = let q = p.1 in ground arith

  put_fits :
      (key : Str) (y : ExposedService) (m : List (Str × ExposedService))
      → length m ≤ max
      → (has_key key m || slt (length m) max) ≡ true
      → length (put key y m) ≤ max
  put_fits key y m h e = elim (Bool-cases (has_key key m)) [
    | inl k ↦
        let same : length (put key y m) ≡ length m = length-put key y m ∙ rw k refl in omega arith
    | inr k ↦
        let more : length (put key y m) ≡ length m + 1 = length-put key y m ∙ rw k refl in
        let room : slt (length m) max ≡ true = ground arith in
        let fits = fits_one (length m) h room in omega arith
  ]

  expose-IsBoundedExposures :
      (key : Str) (n : Word) (f : ExposedService → ExposedService) (x : Exposures)
      → ((y : ExposedService) → HasFewSources y → HasFewSources (f y))
      → IsBoundedExposures max x
      → IsBoundedExposures max (expose max key n f x)
  expose-IsBoundedExposures key n f x g h = elim (Bool-cases (has_room max key x)) [
    | inl e ↦ rw (expose_room max key n f x e) (record {
      few_services = put_fits key _ x.services h.few_services (unfold has_room in e);
      few_sources =
          put-AllValues HasFewSources key _ x.services
            (g _ (
              find-AllValues HasFewSources key new_exposed x.services
                (unfold new_exposed in ground arith) h.few_sources))
            h.few_sources;
    })
    | inr e ↦
        rw (expose_full max key n f x e)
          (record { few_services = h.few_services; few_sources = h.few_sources })
  ]

  merge_services-IsBoundedExposures :
      (o : List (Str × ExposedService)) (x : Exposures)
      → IsBoundedExposures max x
      → IsBoundedExposures max (merge_services max o x)
  unfolding merge_services
  merge_services-IsBoundedExposures [] x h = h
  merge_services-IsBoundedExposures ((k, service) ∷ o) x h =
      merge_services-IsBoundedExposures o (expose max k service.flows (merge_service service) x) (
        expose-IsBoundedExposures k service.flows (merge_service service) x
          (λ y a.
            unfold merge_service in
            merge_capped-IsBounded service.sources exposed_source_cap y.sources a)
          h)

  merge_exposures-IsBoundedExposures :
      (o x : Exposures)
      → IsBoundedExposures max x
      → IsBoundedExposures max (merge_exposures max o x)
  unfolding merge_exposures
  merge_exposures-IsBoundedExposures o x h =
      let merged = merge_services-IsBoundedExposures o.services x h in
      record { few_services = merged.few_services; few_sources = merged.few_sources }

  exposed_if :
      {Addr : Type 0} (b : Bool) (key sk : Str) (e : Flow Addr) (x : Exposures)
      → IsBoundedExposures max x
      → IsBoundedExposures max (if b then expose max key 1 (flow_exposes e sk) x else x)
  exposed_if false key sk e x h = h
  exposed_if true key sk e x h =
      expose-IsBoundedExposures key 1 (flow_exposes e sk) x
        (λ y a. unfold flow_exposes in add_capped-IsBounded sk 1 exposed_source_cap y.sources a) h

module _ (net : Net) (texts : NetTexts net) where
  -- Each counter holds its limit of keys and at most the other key beyond it, each exposed service
  -- a thousand sources and the other key, and the trackers keep their own limits.
  pub record IsBoundedVpc (s : VpcSummary net.Addr) : Type 0 where
    pub positive : IsPositive s.limits.max_keys
    pub by_action : IsBounded s.limits.max_keys s.by_action
    pub bytes_by_action : IsBounded s.limits.max_keys s.bytes_by_action
    pub by_protocol : IsBounded s.limits.max_keys s.by_protocol
    pub by_dst_port : IsBounded s.limits.max_keys s.by_dst_port
    pub by_interface : IsBounded s.limits.max_keys s.by_interface
    pub by_direction : IsBounded s.limits.max_keys s.by_direction
    pub by_src : IsBounded s.limits.max_keys s.by_src
    pub by_dst : IsBounded s.limits.max_keys s.by_dst
    pub pair_bytes : IsBounded s.limits.max_keys s.pair_bytes
    pub rejects_by_src : IsBounded s.limits.max_keys s.rejects_by_src
    pub egress_bytes : IsBounded s.limits.max_keys s.egress_bytes
    pub legacy : IsBounded s.limits.max_keys s.legacy
    pub by_hour : AllValues (IsBounded s.limits.max_keys) s.by_hour
    pub scan_ports : Fits ⦃a = texts.comparable_addr⦄ s.scan_ports
    pub sweep : Fits ⦃a = texts.comparable_addr⦄ ⦃c = texts.comparable_addr⦄ s.sweep
    pub exposures : IsBoundedExposures s.limits.max_keys s.exposures

  tracked_if :
      {K : Type 0} ⦃c : Comparable K⦄ (b : Bool) (a : net.Addr) (v : K) (d : Distinct net.Addr K)
      → Fits ⦃a = texts.comparable_addr⦄ d
      → Fits ⦃a = texts.comparable_addr⦄
          (if b then Bounded.add ⦃a = texts.comparable_addr⦄ a v d else d)
  tracked_if false a v d h = h
  tracked_if true a v d h = add-Fits ⦃a = texts.comparable_addr⦄ a v d h

  module _ (s : VpcSummary net.Addr) (h : IsBoundedVpc s) where
    add_flow-IsBoundedVpc : (e : Flow net.Addr) → IsBoundedVpc (add_flow net texts e s)
    unfolding add_flow
    add_flow-IsBoundedVpc e = record {
      positive = h.positive;
      by_action = add_capped-IsBounded _ _ _ s.by_action h.by_action;
      bytes_by_action = add_capped-IsBounded _ _ _ s.bytes_by_action h.bytes_by_action;
      by_protocol = add_capped-IsBounded _ _ _ s.by_protocol h.by_protocol;
      by_dst_port = add_capped-IsBounded _ _ _ s.by_dst_port h.by_dst_port;
      by_interface = add_capped-IsBounded _ _ _ s.by_interface h.by_interface;
      by_direction = add_capped-IsBounded _ _ _ s.by_direction h.by_direction;
      by_src = add_capped-IsBounded _ _ _ s.by_src h.by_src;
      by_dst = add_capped-IsBounded _ _ _ s.by_dst h.by_dst;
      pair_bytes = capped_if _ s.pair_bytes h.pair_bytes _ _ _;
      rejects_by_src = capped_if _ s.rejects_by_src h.rejects_by_src _ _ _;
      egress_bytes = capped_if _ s.egress_bytes h.egress_bytes _ _ _;
      legacy = capped_if _ s.legacy h.legacy _ _ _;
      by_hour = in_hour-AreBounded s.limits.max_keys e.start e.action s.by_hour h.by_hour;
      scan_ports = tracked_if _ _ _ s.scan_ports h.scan_ports;
      sweep = tracked_if ⦃c = texts.comparable_addr⦄ _ _ _ s.sweep h.sweep;
      exposures = exposed_if _ h.positive _ _ _ e s.exposures h.exposures;
    }

    merge_vpc-IsBoundedVpc : (o : VpcSummary net.Addr) → IsBoundedVpc (merge_vpc net texts o s)
    unfolding merge_vpc
    merge_vpc-IsBoundedVpc o = record {
      positive = h.positive;
      by_action = merge_capped-IsBounded o.by_action _ s.by_action h.by_action;
      bytes_by_action =
          merge_capped-IsBounded o.bytes_by_action _ s.bytes_by_action h.bytes_by_action;
      by_protocol = merge_capped-IsBounded o.by_protocol _ s.by_protocol h.by_protocol;
      by_dst_port = merge_capped-IsBounded o.by_dst_port _ s.by_dst_port h.by_dst_port;
      by_interface = merge_capped-IsBounded o.by_interface _ s.by_interface h.by_interface;
      by_direction = merge_capped-IsBounded o.by_direction _ s.by_direction h.by_direction;
      by_src = merge_capped-IsBounded o.by_src _ s.by_src h.by_src;
      by_dst = merge_capped-IsBounded o.by_dst _ s.by_dst h.by_dst;
      pair_bytes = merge_capped-IsBounded o.pair_bytes _ s.pair_bytes h.pair_bytes;
      rejects_by_src = merge_capped-IsBounded o.rejects_by_src _ s.rejects_by_src h.rejects_by_src;
      egress_bytes = merge_capped-IsBounded o.egress_bytes _ s.egress_bytes h.egress_bytes;
      legacy = merge_capped-IsBounded o.legacy _ s.legacy h.legacy;
      by_hour = merge_hours-AreBounded s.limits.max_keys o.by_hour s.by_hour h.by_hour;
      scan_ports = merge-Fits ⦃a = texts.comparable_addr⦄ o.scan_ports s.scan_ports h.scan_ports;
      sweep =
          merge-Fits ⦃a = texts.comparable_addr⦄ ⦃c = texts.comparable_addr⦄ o.sweep s.sweep
            h.sweep;
      exposures =
          merge_exposures-IsBoundedExposures _ h.positive o.exposures s.exposures h.exposures;
    }

    -- Adding a flow and merging another worker's summary, whatever they hold, keep the memory of a
    -- summary within its limits: every counter, the counters of each hour, the trackers of ports
    -- and hosts, the exposed services and the sources of each.
    pub vpc_summary-IsBoundedVpc :
        (e : Flow net.Addr) (o : VpcSummary net.Addr)
        → IsBoundedVpc (add_flow net texts e s) × IsBoundedVpc (merge_vpc net texts o s)
    vpc_summary-IsBoundedVpc e o = (add_flow-IsBoundedVpc e, merge_vpc-IsBoundedVpc o)

  -- A new summary is bounded, whatever limits are asked for.
  pub new_vpc_summary-IsBoundedVpc :
      (l : VpcLimits) → l.max_keys < 2 ^ 64 → IsBoundedVpc (new_vpc_summary l)
  unfolding new_vpc_summary with_defaults
  new_vpc_summary-IsBoundedVpc l h = record {
    positive = (ground arith, ground arith);
    by_action = ground arith;
    bytes_by_action = ground arith;
    by_protocol = ground arith;
    by_dst_port = ground arith;
    by_interface = ground arith;
    by_direction = ground arith;
    by_src = ground arith;
    by_dst = ground arith;
    pair_bytes = ground arith;
    rejects_by_src = ground arith;
    egress_bytes = ground arith;
    legacy = ground arith;
    by_hour = tt;
    scan_ports = new_distinct-Fits ⦃a = texts.comparable_addr⦄ _ _;
    sweep = new_distinct-Fits ⦃a = texts.comparable_addr⦄ ⦃c = texts.comparable_addr⦄ _ _;
    exposures = record { few_services = omega arith; few_sources = tt };
  }
