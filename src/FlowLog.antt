-- ===== src/FlowLog.antt =====
-- internal/flowlog: VPC Flow Log records. Package netip and time.Unix are the Net parameter.
pub mod Fields
pub mod Decode
pub mod Select
pub mod Addr
pub mod Laws
pub mod Selects
use ctaudit.Prelude.{
  ℕ, Word, minus_one, slt, Bool, true, false, Option, none, some, List, [], ◌∷◌, ◌++◌, ◌||◌, eqb,
  if◌then◌else◌,
}
use ctaudit.Text.{Str, codes}
use ctaudit.Text.Decimal.{format}
use ctaudit.Instant.{Time, zero_time}
use ctaudit.Map.{find, nat_comparable}

-- netip.Addr and netip.Prefix with the functions on them that the program calls, the zero
-- netip.Addr, and time.Unix(n, 0).
pub record Net : Type 1 where
  pub Addr : Type 0
  pub Prefix : Type 0
  pub no_addr : Addr
  pub parse_addr : Str → Option Addr
  pub parse_prefix : Str → Option Prefix
  pub masked : Prefix → Prefix
  pub single : Addr → Prefix
  pub is_valid : Addr → Bool
  pub unmap : Addr → Addr
  pub prefix_contains : Prefix → Addr → Bool
  pub is_unspecified : Addr → Bool
  pub is_multicast : Addr → Bool
  pub unix : Word → Time

-- Entry; Go's int is a 64-bit word, and -1 is `minus_one`.
pub record Flow (Addr : Type 0) : Type 0 where
  pub version : Word
  pub account_id : Str
  pub interface_id : Str
  pub src_addr : Addr
  pub dst_addr : Addr
  pub src_port : Word
  pub dst_port : Word
  pub protocol : Word
  pub packets : Word
  pub bytes : Word
  pub start : Time
  pub end : Time
  pub action : Str
  pub log_status : Str
  pub vpc_id : Str
  pub subnet_id : Str
  pub instance_id : Str
  pub tcp_flags : Word
  pub type : Str
  pub pkt_src_addr : Addr
  pub pkt_dst_addr : Addr
  pub region : Str
  pub az_id : Str
  pub pkt_src_aws_service : Str
  pub pkt_dst_aws_service : Str
  pub flow_direction : Str
  pub traffic_path : Word
  pub reject_reason : Str

module _ (net : Net) where
  -- newEntry()
  unfoldable pub new_entry : Flow net.Addr
  new_entry = record {
    version = minus_one;
    account_id = [];
    interface_id = [];
    src_addr = net.no_addr;
    dst_addr = net.no_addr;
    src_port = minus_one;
    dst_port = minus_one;
    protocol = minus_one;
    packets = 0;
    bytes = 0;
    start = zero_time;
    end = zero_time;
    action = [];
    log_status = [];
    vpc_id = [];
    subnet_id = [];
    instance_id = [];
    tcp_flags = minus_one;
    type = [];
    pkt_src_addr = net.no_addr;
    pkt_dst_addr = net.no_addr;
    region = [];
    az_id = [];
    pkt_src_aws_service = [];
    pkt_dst_aws_service = [];
    flow_direction = [];
    traffic_path = minus_one;
    reject_reason = [];
  }

  -- e.Source() and e.Dest()
  unfoldable pub source : Flow net.Addr → net.Addr
  source e = if net.is_valid e.pkt_src_addr then e.pkt_src_addr else e.src_addr

  unfoldable pub dest : Flow net.Addr → net.Addr
  dest e = if net.is_valid e.pkt_dst_addr then e.pkt_dst_addr else e.dst_addr

-- protocolNames
abbrev pub protocol_names : List (ℕ × Str)
protocol_names =
    (1, codes "icmp")
    ∷ (6, codes "tcp")
    ∷ (17, codes "udp")
    ∷ (47, codes "gre")
    ∷ (50, codes "esp")
    ∷ (51, codes "ah")
    ∷ (58, codes "icmpv6")
    ∷ (132, codes "sctp")
    ∷ []

module _ {Addr : Type 0} where
  -- e.ProtocolName()
  unfoldable pub protocol_name : Flow Addr → Str
  protocol_name e =
      if slt e.protocol 0
      then []
      else elim (find e.protocol protocol_names) [ none ↦ format e.protocol | some n ↦ n ]

  -- e.Service()
  unfoldable pub service : Flow Addr → Str
  service e =
      if eqb e.protocol 1 || eqb e.protocol 58 || slt e.dst_port 0
      then protocol_name e
      else elim (protocol_name e) [
        | [] ↦ format e.dst_port
        | c ∷ p ↦ format e.dst_port ++ b'/' ∷ c ∷ p
      ]
