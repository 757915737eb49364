-- ===== src/ElbLog/Parse.antt =====
-- The parsers of internal/elblog/elblog.go, one for each kind of line. `none` is an error.
use ctaudit.Prelude.{
  ℕ, true, false, Option, none, some, List, [], if◌then◌else◌, ltb, length, get_elem?, or_else,
}
use ctaudit.Text.{Str, codes, nonempty, to_lower}
use ctaudit.Instant.{Time, zero_time}
use ctaudit.ElbLog.{Runtime, Kind, alb, nlb, classic, Entry}
use ctaudit.ElbLog.Tokens.{fields}
use ctaudit.ElbLog.Parts.{
  dash, seconds, millis, bytes_field, parse_time, split_host_port, set_request, scheme_of,
  sum_latency,
}

-- Entry{Kind: k} with every time `x`: each parser sets all five of them.
unfoldable pub blank : {Float : Type 0} → Kind → Float → Entry Float
blank k x = record {
  kind = k;
  type = [];
  time = zero_time;
  lb = [];
  client_ip = [];
  client_port = [];
  target = [];
  request_time = x;
  target_time = x;
  response_time = x;
  latency = x;
  elb_status = [];
  target_status = [];
  received_bytes = 0;
  sent_bytes = 0;
  method = [];
  url = [];
  protocol = [];
  host = [];
  path = [];
  user_agent = [];
  ssl_cipher = [];
  ssl_protocol = [];
  target_group_arn = [];
  trace_id = [];
  domain_name = [];
  cert_arn = [];
  matched_rule_priority = [];
  request_creation_time = zero_time;
  actions = [];
  redirect_url = [];
  error_reason = [];
  target_list = [];
  target_status_list = [];
  classification = [];
  classification_reason = [];
  conn_trace_id = [];
  conn = false;
  tls_verify_status = [];
  client_cert_subject = [];
  client_cert_validity = [];
  client_cert_serial = [];
  listener = [];
  tls_handshake_time = x;
  incoming_tls_alert = [];
  tls_key_exchange = [];
  alpn_frontend = [];
  alpn_backend = [];
}

-- f[i], which the guard on the number of fields keeps in range, and at(i), which is not.
unfoldable pub field : List Str → ℕ → Str
field f i = or_else (get_elem? f i) []

unfoldable pub at : List Str → ℕ → Str
at f i = elim (get_elem? f i) [ none ↦ [] | some s ↦ dash s ]

-- albMinFields, nlbMinFields, classicMinFields and albConnMinFields
abbrev pub alb_min_fields : ℕ
alb_min_fields = 13

abbrev pub nlb_min_fields : ℕ
nlb_min_fields = 11

abbrev pub classic_min_fields : ℕ
classic_min_fields = 12

abbrev pub alb_conn_min_fields : ℕ
alb_conn_min_fields = 14

module _ (rt : Runtime) where
  -- RequestCreationTime: absent and unreadable times are both the zero time.
  unfoldable pub optional_time : Str → Time
  optional_time s = if nonempty s then or_else (parse_time rt s) zero_time else zero_time

  -- The entry of a line that has enough fields, given its time.
  unfoldable pub alb_entry : List Str → Time → Entry rt.Float
  alb_entry f t =
      let client = split_host_port (field f 3) in
      let a = seconds rt (field f 5) in
      let b = seconds rt (field f 6) in
      let c = seconds rt (field f 7) in
      let r = set_request (field f 12) in
      record (blank alb rt.minus_1) {
        type = field f 0;
        time = t;
        lb = field f 2;
        client_ip = client.0;
        client_port = client.1;
        target = at f 4;
        request_time = a;
        target_time = b;
        response_time = c;
        latency = sum_latency rt a b c;
        elb_status = at f 8;
        target_status = at f 9;
        received_bytes = bytes_field (field f 10);
        sent_bytes = bytes_field (field f 11);
        method = r.method;
        url = r.url;
        protocol = r.protocol;
        host = r.host;
        path = r.path;
        user_agent = at f 13;
        ssl_cipher = at f 14;
        ssl_protocol = at f 15;
        target_group_arn = at f 16;
        trace_id = at f 17;
        domain_name = to_lower (at f 18);
        cert_arn = at f 19;
        matched_rule_priority = at f 20;
        request_creation_time = optional_time (at f 21);
        actions = at f 22;
        redirect_url = at f 23;
        error_reason = at f 24;
        target_list = at f 25;
        target_status_list = at f 26;
        classification = at f 27;
        classification_reason = at f 28;
        conn_trace_id = at f 29;
      }

  unfoldable pub alb_conn_entry : List Str → Time → Entry rt.Float
  alb_conn_entry f t = record (blank alb rt.minus_1) {
    conn = true;
    time = t;
    client_ip = dash (field f 1);
    client_port = dash (field f 2);
    listener = dash (field f 3);
    ssl_protocol = dash (field f 4);
    ssl_cipher = dash (field f 5);
    tls_handshake_time = seconds rt (field f 6);
    client_cert_subject = dash (field f 7);
    client_cert_validity = dash (field f 8);
    client_cert_serial = dash (field f 9);
    tls_verify_status = dash (field f 10);
    conn_trace_id = dash (field f 11);
    tls_key_exchange = dash (field f 12);
    lb = dash (field f 13);
  }

  unfoldable pub nlb_entry : List Str → Time → Entry rt.Float
  nlb_entry f t =
      let client = split_host_port (field f 5) in
      record (blank nlb rt.minus_1) {
        type = field f 0;
        time = t;
        lb = field f 3;
        listener = at f 4;
        client_ip = client.0;
        client_port = client.1;
        target = at f 6;
        latency = millis rt (field f 7);
        tls_handshake_time = millis rt (field f 8);
        received_bytes = bytes_field (field f 9);
        sent_bytes = bytes_field (field f 10);
        incoming_tls_alert = at f 11;
        cert_arn = at f 12;
        ssl_cipher = at f 14;
        ssl_protocol = at f 15;
        tls_key_exchange = at f 16;
        domain_name = to_lower (at f 17);
        alpn_frontend = at f 18;
        alpn_backend = at f 19;
        request_creation_time = optional_time (at f 21);
      }

  unfoldable pub classic_entry : List Str → Time → Entry rt.Float
  unfolding codes
  classic_entry f t =
      let client = split_host_port (field f 2) in
      let a = seconds rt (field f 4) in
      let b = seconds rt (field f 5) in
      let c = seconds rt (field f 6) in
      let r = set_request (field f 11) in
      record (blank classic rt.minus_1) {
        type = if nonempty (scheme_of r.url) then scheme_of r.url else codes "tcp";
        time = t;
        lb = field f 1;
        client_ip = client.0;
        client_port = client.1;
        target = at f 3;
        request_time = a;
        target_time = b;
        response_time = c;
        latency = sum_latency rt a b c;
        elb_status = at f 7;
        target_status = at f 8;
        received_bytes = bytes_field (field f 9);
        sent_bytes = bytes_field (field f 10);
        method = r.method;
        url = r.url;
        protocol = r.protocol;
        host = r.host;
        path = r.path;
        user_agent = at f 12;
        ssl_cipher = at f 13;
        ssl_protocol = at f 14;
      }

  -- The guard on the number of fields and on the time, shared by the parsers.
  unfoldable pub parse_fields :
      ℕ → ℕ → (List Str → Time → Entry rt.Float) → List Str → Option (Entry rt.Float)
  parse_fields least clock make f =
      if ltb (length f) least
      then none
      else elim (parse_time rt (field f clock)) [ none ↦ none | some t ↦ some (make f t) ]

  -- ParseALB(line), ParseALBConn(line), ParseNLB(line) and ParseClassic(line)
  unfoldable pub parse_alb : Str → Option (Entry rt.Float)
  parse_alb line = parse_fields alb_min_fields 1 alb_entry (fields line)

  unfoldable pub parse_alb_conn : Str → Option (Entry rt.Float)
  parse_alb_conn line = parse_fields alb_conn_min_fields 0 alb_conn_entry (fields line)

  unfoldable pub parse_nlb : Str → Option (Entry rt.Float)
  parse_nlb line = parse_fields nlb_min_fields 2 nlb_entry (fields line)

  unfoldable pub parse_classic : Str → Option (Entry rt.Float)
  parse_classic line = parse_fields classic_min_fields 0 classic_entry (fields line)
