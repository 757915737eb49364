-- ===== src/Stats/Vpc.antt =====
-- internal/stats/vpc.go: the aggregates of a scan of VPC flow logs, less the share that is a float.
pub mod Exposed
pub mod Bounds
use ctaudit.Prelude.{
  ℕ, ◌/◌, ◌%◌, ◌^◌, Word, ◌+ʷ◌, slt, Bool, true, false, not, ◌&&◌, ◌||◌, Option, none, some, List,
  [], ◌∷◌, ◌++◌, if◌then◌else◌, or_else, is_empty, eqb, any_of, length,
}
use ctaudit.Text.{Str, codes, str_eq, nonempty}
use ctaudit.Instant.{Time, is_zero, before, zero_time}
use ctaudit.Map.{Comparable, find, has_key, put, str_comparable, nat_comparable}
use ctaudit.Map.Tally.{get}
use ctaudit.FlowLog.{Net, Flow, source, dest, protocol_name, service}
use ctaudit.FlowLog.Addr.{NetTexts, is_private, is_public}
use ctaudit.Stats.Bounded.{Distinct, new_distinct}
use ctaudit.Stats.Bounded
use ctaudit.Stats.Counter.{Counter, add_capped, merge_capped, default_max_keys}
use ctaudit.Stats.Hours.{Hours, in_hour, merge_hours}
use ctaudit.Stats.Summary.{earliest, latest}

abbrev pub sensitive_ports : List Word
sensitive_ports = 22 ∷ 3389 ∷ 3306 ∷ 5432 ∷ 1433 ∷ 6379 ∷ 9200 ∷ 27017 ∷ 2375 ∷ 11211 ∷ []

abbrev pub legacy_ports : List Word
legacy_ports = 21 ∷ 23 ∷ 445 ∷ []

abbrev pub default_max_sources : ℕ
default_max_sources = 20000

abbrev pub default_scan_ports : ℕ
default_scan_ports = 25

abbrev pub default_sweep_hosts : ℕ
default_sweep_hosts = 50

abbrev pub exposed_source_cap : ℕ
exposed_source_cap = 1000

pub record VpcLimits : Type 0 where
  pub max_keys : Word
  pub max_sources : Word
  pub scan_ports : Word
  pub sweep_hosts : Word

abbrev pub or_default : Word → ℕ → Word
or_default n d = if slt 0 n then n else d

-- l.withDefaults()
unfoldable pub with_defaults : VpcLimits → VpcLimits
with_defaults l = record {
  max_keys = or_default l.max_keys default_max_keys;
  max_sources = or_default l.max_sources default_max_sources;
  scan_ports = or_default l.scan_ports default_scan_ports;
  sweep_hosts = or_default l.sweep_hosts default_sweep_hosts;
}

pub record ExposedService : Type 0 where
  pub flows : Word
  pub bytes : Word
  pub first : Time
  pub sources : Counter

unfoldable pub new_exposed : ExposedService
new_exposed = record { flows = 0; bytes = 0; first = zero_time; sources = [] }

-- The exposed services with the number of flows for those past the cap.
pub record Exposures : Type 0 where
  pub services : List (Str × ExposedService)
  pub dropped : Word

pub record VpcSummary (Addr : Type 0) : Type 0 where
  pub limits : VpcLimits
  pub flows : Word
  pub bytes : Word
  pub packets : Word
  pub first : Time
  pub last : Time
  pub no_data : Word
  pub skip_data : Word
  pub by_action : Counter
  pub bytes_by_action : Counter
  pub by_protocol : Counter
  pub by_dst_port : Counter
  pub by_interface : Counter
  pub by_direction : Counter
  pub by_src : Counter
  pub by_dst : Counter
  pub pair_bytes : Counter
  pub rejects_by_src : Counter
  pub egress_bytes : Counter
  pub legacy : Counter
  pub by_hour : Hours
  pub scan_ports : Distinct Addr Word
  pub sweep : Distinct Addr Addr
  pub exposures : Exposures

-- NewVPCSummary(l)
unfoldable pub new_vpc_summary : {Addr : Type 0} → VpcLimits → VpcSummary Addr
new_vpc_summary limits =
    let l = with_defaults limits in
    record {
      limits = l;
      flows = 0;
      bytes = 0;
      packets = 0;
      first = zero_time;
      last = zero_time;
      no_data = 0;
      skip_data = 0;
      by_action = [];
      bytes_by_action = [];
      by_protocol = [];
      by_dst_port = [];
      by_interface = [];
      by_direction = [];
      by_src = [];
      by_dst = [];
      pair_bytes = [];
      rejects_by_src = [];
      egress_bytes = [];
      legacy = [];
      by_hour = [];
      scan_ports = new_distinct l.scan_ports l.max_sources;
      sweep = new_distinct l.sweep_hosts l.max_sources;
      exposures = record { services = []; dropped = 0 };
    }

-- s.exposed(key), with the change made to what it returns; `n` flows are dropped if that is nil.
unfoldable pub has_room : Word → Str → Exposures → Bool
has_room max key x = has_key key x.services || slt (length x.services) max

unfoldable pub expose :
    Word → Str → Word → (ExposedService → ExposedService) → Exposures → Exposures
expose max key n f x =
    if has_room max key x
    then record x { services = put key (f (or_else (find key x.services) new_exposed)) x.services }
    else record x { dropped = x.dropped +ʷ n }

module _ {Addr : Type 0} where
  -- s.AddStatus(status)
  unfoldable pub add_status : Str → VpcSummary Addr → VpcSummary Addr
  unfolding codes str_eq
  add_status status s =
      if str_eq status (codes "NODATA")
      then record s { no_data = s.no_data +ʷ 1 }
      else if str_eq status (codes "SKIPDATA")
      then record s { skip_data = s.skip_data +ʷ 1 }
      else s

  -- initiator(e)
  unfoldable pub initiator : Flow Addr → Bool
  initiator e =
      if eqb e.protocol 1 || eqb e.protocol 58 || slt e.src_port 0 || slt e.dst_port 0
      then true
      else slt e.dst_port e.src_port

  -- connAttempt(e): flag 2 is SYN and flag 16 is ACK.
  unfoldable pub conn_attempt : Flow Addr → Bool
  conn_attempt e =
      not (eqb e.protocol 6)
      || slt e.tcp_flags 0
      || (eqb (e.tcp_flags / 2 % 2) 1 && eqb (e.tcp_flags / 16 % 2) 0)

  abbrev pub is_tcp_udp : Flow Addr → Bool
  is_tcp_udp e = eqb e.protocol 6 || eqb e.protocol 17

  abbrev pub is_accept : Flow Addr → Bool
  is_accept e = str_eq e.action (codes "ACCEPT")

  abbrev pub is_reject : Flow Addr → Bool
  is_reject e = str_eq e.action (codes "REJECT")

  -- What Add changes of an exposed service.
  unfoldable pub flow_exposes : Flow Addr → Str → ExposedService → ExposedService
  flow_exposes e source_key x = record {
    flows = x.flows +ʷ 1;
    bytes = x.bytes +ʷ e.bytes;
    first =
        if is_zero x.first || (not (is_zero e.start) && before e.start x.first)
        then e.start
        else x.first;
    sources = add_capped source_key 1 exposed_source_cap x.sources;
  }

abbrev pub one_of_ports : List Word → Word → Bool
one_of_ports ports p = any_of (λ q. eqb q p) ports

-- What Merge changes of an exposed service.
unfoldable pub merge_service : ExposedService → ExposedService → ExposedService
merge_service x y = record {
  flows = y.flows +ʷ x.flows;
  bytes = y.bytes +ʷ x.bytes;
  first =
      if not (is_zero x.first) && (is_zero y.first || before x.first y.first)
      then x.first
      else y.first;
  sources = merge_capped x.sources exposed_source_cap y.sources;
}

unfoldable pub merge_services : Word → List (Str × ExposedService) → Exposures → Exposures
merge_services max [] x = x
merge_services max ((k, service) ∷ o) x =
    merge_services max o (expose max k service.flows (merge_service service) x)

unfoldable pub merge_exposures : Word → Exposures → Exposures → Exposures
merge_exposures max o x =
    let merged = merge_services max o.services x in
    record merged { dropped = merged.dropped +ʷ o.dropped }

module _ (net : Net) (texts : NetTexts net) where
  -- addrKey(a)
  unfoldable pub addr_key : net.Addr → Str
  addr_key a = if net.is_valid a then texts.addr_string a else []

  -- A flow that a public source started to a sensitive port of a private host, and was accepted.
  unfoldable pub is_exposing : Flow net.Addr → Bool
  unfolding codes str_eq
  is_exposing e =
      let src = net.unmap (source net e) in
      let dst = net.unmap (dest net e) in
      is_accept e
      && is_public net texts src
      && is_private net texts dst
      && is_tcp_udp e
      && initiator e
      && not (str_eq e.flow_direction (codes "egress"))
      && one_of_ports sensitive_ports e.dst_port

  unfoldable pub exposed_key : Flow net.Addr → Str
  exposed_key e =
      texts.addr_port_string (net.unmap (dest net e)) (e.dst_port % 2 ^ 16)
      ++ b'/' ∷ protocol_name e

  -- The key of a flow to a legacy port across the border of the private networks.
  unfoldable pub legacy_key : Flow net.Addr → Str
  unfolding codes
  legacy_key e =
      let src = net.unmap (source net e) in
      let dst = net.unmap (dest net e) in
      if not (is_accept e && is_tcp_udp e && one_of_ports legacy_ports e.dst_port)
      then []
      else if is_public net texts src && is_private net texts dst
      then addr_key dst ++ (codes "|in|" ++ service e)
      else if is_private net texts src && is_public net texts dst
      then addr_key src ++ (codes "|out|" ++ service e)
      else []

  -- s.Add(e)
  unfoldable pub add_flow : Flow net.Addr → VpcSummary net.Addr → VpcSummary net.Addr
  unfolding codes
  add_flow e s =
      let m = s.limits.max_keys in
      let src = net.unmap (source net e) in
      let dst = net.unmap (dest net e) in
      let sk = addr_key src in
      let dk = addr_key dst in
      let src_public = is_public net texts src in
      let dst_private = is_private net texts dst in
      record {
        limits = s.limits;
        flows = s.flows +ʷ 1;
        bytes = s.bytes +ʷ e.bytes;
        packets = s.packets +ʷ e.packets;
        first = earliest s.first e.start;
        last = latest s.last e.start;
        no_data = s.no_data;
        skip_data = s.skip_data;
        by_action = add_capped e.action 1 m s.by_action;
        bytes_by_action = add_capped e.action e.bytes m s.bytes_by_action;
        by_protocol = add_capped (protocol_name e) 1 m s.by_protocol;
        by_dst_port = add_capped (service e) 1 m s.by_dst_port;
        by_interface = add_capped e.interface_id 1 m s.by_interface;
        by_direction = add_capped e.flow_direction 1 m s.by_direction;
        by_src = add_capped sk 1 m s.by_src;
        by_dst = add_capped dk 1 m s.by_dst;
        pair_bytes =
            if nonempty sk && nonempty dk
            then add_capped (sk ++ (codes " -> " ++ dk)) e.bytes m s.pair_bytes
            else s.pair_bytes;
        rejects_by_src =
            if is_reject e then add_capped sk 1 m s.rejects_by_src else s.rejects_by_src;
        egress_bytes =
            if is_accept e && is_private net texts src && is_public net texts dst && initiator e
            then add_capped sk e.bytes m s.egress_bytes
            else s.egress_bytes;
        legacy =
            if nonempty (legacy_key e) then add_capped (legacy_key e) 1 m s.legacy else s.legacy;
        by_hour = in_hour e.start (add_capped e.action 1 m) s.by_hour;
        scan_ports =
            if is_reject e && src_public && is_tcp_udp e && not (slt e.dst_port 0) && conn_attempt e
            then Bounded.add ⦃a = texts.comparable_addr⦄ src (e.dst_port % 2 ^ 16) s.scan_ports
            else s.scan_ports;
        sweep =
            if net.is_valid src && dst_private && initiator e
            then Bounded.add ⦃a = texts.comparable_addr⦄ ⦃c = texts.comparable_addr⦄ src dst s.sweep
            else s.sweep;
        exposures =
            if is_exposing e
            then expose m (exposed_key e) 1 (flow_exposes e sk) s.exposures
            else s.exposures;
      }

  -- s.Merge(o)
  unfoldable pub merge_vpc : VpcSummary net.Addr → VpcSummary net.Addr → VpcSummary net.Addr
  merge_vpc o s =
      let m = s.limits.max_keys in
      record {
        limits = s.limits;
        flows = s.flows +ʷ o.flows;
        bytes = s.bytes +ʷ o.bytes;
        packets = s.packets +ʷ o.packets;
        first = earliest s.first o.first;
        last = if before s.last o.last then o.last else s.last;
        no_data = s.no_data +ʷ o.no_data;
        skip_data = s.skip_data +ʷ o.skip_data;
        by_action = merge_capped o.by_action m s.by_action;
        bytes_by_action = merge_capped o.bytes_by_action m s.bytes_by_action;
        by_protocol = merge_capped o.by_protocol m s.by_protocol;
        by_dst_port = merge_capped o.by_dst_port m s.by_dst_port;
        by_interface = merge_capped o.by_interface m s.by_interface;
        by_direction = merge_capped o.by_direction m s.by_direction;
        by_src = merge_capped o.by_src m s.by_src;
        by_dst = merge_capped o.by_dst m s.by_dst;
        pair_bytes = merge_capped o.pair_bytes m s.pair_bytes;
        rejects_by_src = merge_capped o.rejects_by_src m s.rejects_by_src;
        egress_bytes = merge_capped o.egress_bytes m s.egress_bytes;
        legacy = merge_capped o.legacy m s.legacy;
        by_hour = merge_hours (λ c d. merge_capped c m d) o.by_hour s.by_hour;
        scan_ports = Bounded.merge ⦃a = texts.comparable_addr⦄ o.scan_ports s.scan_ports;
        sweep =
            Bounded.merge ⦃a = texts.comparable_addr⦄ ⦃c = texts.comparable_addr⦄ o.sweep s.sweep;
        exposures = merge_exposures m o.exposures s.exposures;
      }

module _ {Addr : Type 0} where
  -- s.Accepted() and s.Rejected()
  unfoldable pub accepted : VpcSummary Addr → Word
  accepted s = get (codes "ACCEPT") s.by_action

  unfoldable pub rejected : VpcSummary Addr → Word
  rejected s = get (codes "REJECT") s.by_action

  -- s.Truncated()
  unfoldable pub is_truncated : VpcSummary Addr → Bool
  is_truncated s = s.scan_ports.truncated || s.sweep.truncated || slt 0 s.exposures.dropped
