-- ===== src/FlowLog/Fields.antt =====
-- The fields of internal/flowlog/flowlog.go: their names in a header, and (*Entry).set.
use ctaudit.Prelude.{
  Word, slt, Bool, true, false, ◌||◌, Option, none, some, List, [], ◌∷◌, if◌then◌else◌, or_else,
}
use ctaudit.Text.{Str, codes}
use ctaudit.Text.Decimal.{parse_int}
use ctaudit.Instant.{Time}
use ctaudit.Map.{find, str_comparable}
use ctaudit.FlowLog.{Net, Flow}

pub data Field : Type 0 where
  f_ignore f_version f_account_id f_interface_id f_src_addr f_dst_addr f_src_port f_dst_port
        f_protocol f_packets f_bytes f_start f_end f_action f_log_status f_vpc_id f_subnet_id
        f_instance_id f_tcp_flags f_type f_pkt_src_addr f_pkt_dst_addr f_region f_az_id
        f_pkt_src_aws_service f_pkt_dst_aws_service f_flow_direction f_traffic_path
        f_reject_reason :
      Field

-- fieldNames
unfoldable pub field_names : List (Str × Field)
field_names =
    (codes "version", f_version)
    ∷ (codes "account-id", f_account_id)
    ∷ (codes "interface-id", f_interface_id)
    ∷ (codes "srcaddr", f_src_addr)
    ∷ (codes "dstaddr", f_dst_addr)
    ∷ (codes "srcport", f_src_port)
    ∷ (codes "dstport", f_dst_port)
    ∷ (codes "protocol", f_protocol)
    ∷ (codes "packets", f_packets)
    ∷ (codes "bytes", f_bytes)
    ∷ (codes "start", f_start)
    ∷ (codes "end", f_end)
    ∷ (codes "action", f_action)
    ∷ (codes "log-status", f_log_status)
    ∷ (codes "vpc-id", f_vpc_id)
    ∷ (codes "subnet-id", f_subnet_id)
    ∷ (codes "instance-id", f_instance_id)
    ∷ (codes "tcp-flags", f_tcp_flags)
    ∷ (codes "type", f_type)
    ∷ (codes "pkt-srcaddr", f_pkt_src_addr)
    ∷ (codes "pkt-dstaddr", f_pkt_dst_addr)
    ∷ (codes "region", f_region)
    ∷ (codes "az-id", f_az_id)
    ∷ (codes "pkt-src-aws-service", f_pkt_src_aws_service)
    ∷ (codes "pkt-dst-aws-service", f_pkt_dst_aws_service)
    ∷ (codes "flow-direction", f_flow_direction)
    ∷ (codes "traffic-path", f_traffic_path)
    ∷ (codes "reject-reason", f_reject_reason)
    ∷ []

unfoldable pub field_of_name : Str → Field
field_of_name n = or_else (find n field_names) f_ignore

unfoldable pub is_start : Field → Bool
is_start f_start = true
is_start _ = false

-- port(v)
unfoldable pub port : Str → Option Word
port v = elim (parse_int v) [
  | none ↦ none
  | some n ↦ if slt n 0 || slt 65535 n then none else some n
]

-- A field that a fallible reading fills.
abbrev pub fill : {A B : Type 0} → Option A → (A → B) → Option B
fill none g = none
fill (some a) g = some (g a)

module _ (net : Net) where
  -- unixTime(v)
  unfoldable pub unix_time : Str → Option Time
  unix_time v = elim (parse_int v) [ none ↦ none | some n ↦ some (net.unix n) ]

  -- e.set(f, v)
  unfoldable pub set_field : Field → Str → Flow net.Addr → Option (Flow net.Addr)
  set_field f_ignore v e = some e
  set_field f_version v e = fill (parse_int v) (λ x. record e { version = x })
  set_field f_account_id v e = some (record e { account_id = v })
  set_field f_interface_id v e = some (record e { interface_id = v })
  set_field f_src_addr v e = fill (net.parse_addr v) (λ x. record e { src_addr = x })
  set_field f_dst_addr v e = fill (net.parse_addr v) (λ x. record e { dst_addr = x })
  set_field f_src_port v e = fill (port v) (λ x. record e { src_port = x })
  set_field f_dst_port v e = fill (port v) (λ x. record e { dst_port = x })
  set_field f_protocol v e = fill (parse_int v) (λ x. record e { protocol = x })
  set_field f_packets v e = fill (parse_int v) (λ x. record e { packets = x })
  set_field f_bytes v e = fill (parse_int v) (λ x. record e { bytes = x })
  set_field f_start v e = fill (unix_time v) (λ x. record e { start = x })
  set_field f_end v e = fill (unix_time v) (λ x. record e { end = x })
  set_field f_action v e = some (record e { action = v })
  set_field f_log_status v e = some (record e { log_status = v })
  set_field f_vpc_id v e = some (record e { vpc_id = v })
  set_field f_subnet_id v e = some (record e { subnet_id = v })
  set_field f_instance_id v e = some (record e { instance_id = v })
  set_field f_tcp_flags v e = fill (parse_int v) (λ x. record e { tcp_flags = x })
  set_field f_type v e = some (record e { type = v })
  set_field f_pkt_src_addr v e = fill (net.parse_addr v) (λ x. record e { pkt_src_addr = x })
  set_field f_pkt_dst_addr v e = fill (net.parse_addr v) (λ x. record e { pkt_dst_addr = x })
  set_field f_region v e = some (record e { region = v })
  set_field f_az_id v e = some (record e { az_id = v })
  set_field f_pkt_src_aws_service v e = some (record e { pkt_src_aws_service = v })
  set_field f_pkt_dst_aws_service v e = some (record e { pkt_dst_aws_service = v })
  set_field f_flow_direction v e = some (record e { flow_direction = v })
  set_field f_traffic_path v e = fill (parse_int v) (λ x. record e { traffic_path = x })
  set_field f_reject_reason v e = some (record e { reject_reason = v })
