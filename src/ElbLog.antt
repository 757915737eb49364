-- ===== src/ElbLog.antt =====
-- internal/elblog: load balancer access logs. Floating-point numbers and the layouts of
-- time.Parse are those of the Runtime parameter.
pub mod Tokens
pub mod Parts
pub mod Parse
pub mod Keys
pub mod Select
pub mod Extra
use ctaudit.Prelude.{ℕ, Word, Bool, Option}
use ctaudit.Text.{Str}
use ctaudit.Instant.{Time}

-- Go's float64 and the two layouts of time.Parse that the parsers use. `none` is an error.
pub record Runtime : Type 1 where
  pub Float : Type 0
  pub parse_float : Str → Option Float
  pub minus_1 : Float
  pub is_negative : Float → Bool
  pub plus : Float → Float → Float
  pub thousandth : Float → Float
  pub less : Float → Float → Bool
  pub seconds_of : ℕ → Float
  pub rfc3339_nano : Str → Option Time
  pub zoneless_nano : Str → Option Time

-- Kind; the source's empty kind is `none` of an Option.
pub data Kind : Type 0 where
  alb nlb classic : Kind

pub record Entry (Float : Type 0) : Type 0 where
  pub kind : Kind
  pub type : Str
  pub time : Time
  pub lb : Str
  pub client_ip : Str
  pub client_port : Str
  pub target : Str
  pub request_time : Float
  pub target_time : Float
  pub response_time : Float
  pub latency : Float
  pub elb_status : Str
  pub target_status : Str
  pub received_bytes : Word
  pub sent_bytes : Word
  pub method : Str
  pub url : Str
  pub protocol : Str
  pub host : Str
  pub path : Str
  pub user_agent : Str
  pub ssl_cipher : Str
  pub ssl_protocol : Str
  pub target_group_arn : Str
  pub trace_id : Str
  pub domain_name : Str
  pub cert_arn : Str
  pub matched_rule_priority : Str
  pub request_creation_time : Time
  pub actions : Str
  pub redirect_url : Str
  pub error_reason : Str
  pub target_list : Str
  pub target_status_list : Str
  pub classification : Str
  pub classification_reason : Str
  pub conn_trace_id : Str
  pub conn : Bool
  pub tls_verify_status : Str
  pub client_cert_subject : Str
  pub client_cert_validity : Str
  pub client_cert_serial : Str
  pub listener : Str
  pub tls_handshake_time : Float
  pub incoming_tls_alert : Str
  pub tls_key_exchange : Str
  pub alpn_frontend : Str
  pub alpn_backend : Str
