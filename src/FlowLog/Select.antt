-- ===== src/FlowLog/Select.antt =====
-- internal/flowlog/filter.go and internal/flowlog/addr.go.
use ctaudit.Prelude.{
  ℕ, Word, slt, Bool, false, not, ◌&&◌, ◌||◌, Option, none, some, List, [], ◌∷◌, if◌then◌else◌, eqb,
  any_of, is_empty,
}
use ctaudit.Text.{Str, codes, str_eq, nonempty, cut, contains, equal_fold, to_lower, trim_space}
use ctaudit.Text.Decimal.{parse_int}
use ctaudit.Instant.{Time, is_zero, before}
use ctaudit.FlowLog.{Net, Flow, protocol_names}

-- PortRange and Filter
pub record PortRange : Type 0 where
  pub lo : Word
  pub hi : Word

pub record FlowFilter (Prefix : Type 0) : Type 0 where
  pub actions : List Str
  pub src_cidrs : List Prefix
  pub dst_cidrs : List Prefix
  pub ports : List PortRange
  pub protocols : List Word
  pub interfaces : List Str
  pub vpcs : List Str
  pub since : Time
  pub until : Time

-- portIn(rs, p)
unfoldable pub port_in : List PortRange → Word → Bool
port_in rs p = if slt p 0 then false else any_of (λ r. not (slt p r.lo) && not (slt r.hi p)) rs

-- anyEqualFold(candidates, value)
unfoldable pub any_fold : List Str → Str → Bool
any_fold candidates value =
    nonempty value && any_of (λ c. equal_fold (trim_space c) value) candidates

-- ParsePorts(items), one item and all of them
unfoldable pub parse_port_range : Str → Option PortRange
unfolding cut
parse_port_range item =
    let split = cut (trim_space item) b'-' in
    let hi : Str = if split.2 then split.1 else split.0 in
    elim (parse_int split.0) [
      | none ↦ none
      | some l ↦ elim (parse_int hi) [
        | none ↦ none
        | some h ↦
            if slt l 0 || slt 65535 h || slt h l then none else some (record { lo = l; hi = h })
      ]
    ]

unfoldable pub parse_all : {A : Type 0} → (Str → Option A) → List Str → Option (List A)
parse_all parse [] = some []
parse_all parse (s ∷ items) = elim (parse s) [
  | none ↦ none
  | some a ↦ elim (parse_all parse items) [ none ↦ none | some l ↦ some (a ∷ l) ]
]

unfoldable pub parse_ports : List Str → Option (List PortRange)
parse_ports = parse_all parse_port_range

-- ParseProtocols(items): names are distinct, so the order of the map does not matter.
unfoldable pub protocol_of_name : List (ℕ × Str) → Str → Option ℕ
protocol_of_name [] s = none
protocol_of_name ((n, name) ∷ rest) s = if str_eq name s then some n else protocol_of_name rest s

unfoldable pub parse_protocol : Str → Option Word
parse_protocol item =
    let s = to_lower (trim_space item) in
    elim (protocol_of_name protocol_names s) [
      | some n ↦ some n
      | none ↦ elim (parse_int s) [
        | none ↦ none
        | some n ↦ if slt n 0 || slt 255 n then none else some n
      ]
    ]

unfoldable pub parse_protocols : List Str → Option (List Word)
parse_protocols = parse_all parse_protocol

module _ (net : Net) where
  -- inAny(ps, a)
  unfoldable pub in_any : List net.Prefix → net.Addr → Bool
  in_any ps a =
      if not (net.is_valid a) then false else any_of (λ p. net.prefix_contains p (net.unmap a)) ps

  -- ParseCIDRs(items)
  unfoldable pub parse_cidr : Str → Option net.Prefix
  unfolding codes
  parse_cidr item =
      let s = trim_space item in
      if contains s (codes "/")
      then elim (net.parse_prefix s) [ none ↦ none | some p ↦ some (net.masked p) ]
      else elim (net.parse_addr s) [ none ↦ none | some a ↦ some (net.single (net.unmap a)) ]

  unfoldable pub parse_cidrs : List Str → Option (List net.Prefix)
  parse_cidrs = parse_all parse_cidr

  -- f.InWindow(e)
  unfoldable pub flow_in_window : FlowFilter net.Prefix → Flow net.Addr → Bool
  flow_in_window f e =
      if not (is_zero f.since) && before e.start f.since
      then false
      else not (not (is_zero f.until) && not (before e.start f.until))

  -- f.Match(e)
  unfoldable pub match_flow : FlowFilter net.Prefix → Flow net.Addr → Bool
  match_flow f e =
      if not (flow_in_window f e)
      then false
      else if not (is_empty f.actions) && not (any_fold f.actions e.action)
      then false
      else if not (is_empty f.src_cidrs)
          && not (in_any f.src_cidrs e.src_addr)
          && not (in_any f.src_cidrs e.pkt_src_addr)
      then false
      else if not (is_empty f.dst_cidrs)
          && not (in_any f.dst_cidrs e.dst_addr)
          && not (in_any f.dst_cidrs e.pkt_dst_addr)
      then false
      else if not (is_empty f.ports)
          && not (port_in f.ports e.src_port)
          && not (port_in f.ports e.dst_port)
      then false
      else if not (is_empty f.protocols) && not (any_of (λ p. eqb p e.protocol) f.protocols)
      then false
      else if not (is_empty f.interfaces) && not (any_fold f.interfaces e.interface_id)
      then false
      else not (not (is_empty f.vpcs) && not (any_of (λ v. str_eq v e.vpc_id) f.vpcs))

  -- f.IsNarrowing()
  unfoldable pub flow_is_narrowing : FlowFilter net.Prefix → Bool
  flow_is_narrowing f =
      not (is_empty f.actions)
      || not (is_empty f.src_cidrs)
      || not (is_empty f.dst_cidrs)
      || not (is_empty f.ports)
      || not (is_empty f.protocols)
      || not (is_empty f.interfaces)
      || not (is_empty f.vpcs)
