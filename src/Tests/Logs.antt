-- ===== src/Tests/Logs.antt =====
-- Tests of the log parsers and filters.
use ctaudit.Prelude.{ℕ, zero, suc, ◌≡◌, ◌↔◌, refl, true, List, [], ◌∷◌, ◌++◌, arith}
use ctaudit.Text.{Str, codes}
use ctaudit.ElbLog.{Entry, alb}
use ctaudit.ElbLog.Tokens.{fields}
use ctaudit.ElbLog.Tokens.RoundTrip.{write_line, fields-write_line}
use ctaudit.ElbLog.Parse.{blank, parse_alb, parse_alb_conn, parse_nlb, parse_classic}
use ctaudit.ElbLog.Extra.{parse-extra}
use ctaudit.ElbLog.Select.{ElbFilter}
use ctaudit.FlowLog.{Flow, new_entry}
use ctaudit.FlowLog.Select.{FlowFilter, flow_in_window, match_flow}
use ctaudit.FlowLog.Selects.{SelectsFlow, match_flow_iff}
use ctaudit.FlowLog.Fields.{f_start, f_action}
use ctaudit.FlowLog.Decode.{parse_columns}
use ctaudit.FlowLog.Laws.{join, read_all, parse_columns-join}
use ctaudit.Tests.Data.{whole_numbers, text_net}

abbrev words : List Str
words = codes "https" ∷ codes "two words" ∷ codes "a quote \"" ∷ [] ∷ []

fields-write_line_example : fields (write_line words) ≡ words
fields-write_line_example = fields-write_line words

abbrev repeat : ℕ → Str → List Str
repeat zero s = []
repeat (suc n) s = s ∷ repeat n s

abbrev ones : ℕ → List Str
ones n = repeat n (codes "1")

parse-extra_example :
    (parse_alb whole_numbers (write_line (ones 30 ++ words))
      ≡ parse_alb whole_numbers (write_line (ones 30)))
    × (parse_alb_conn whole_numbers (write_line (ones 14 ++ words))
        ≡ parse_alb_conn whole_numbers (write_line (ones 14)))
    × (parse_nlb whole_numbers (write_line (ones 22 ++ words))
        ≡ parse_nlb whole_numbers (write_line (ones 22)))
    × (parse_classic whole_numbers (write_line (ones 15 ++ words))
        ≡ parse_classic whole_numbers (write_line (ones 15)))
parse-extra_example =
    parse-extra whole_numbers (ones 30) (ones 14) (ones 22) (ones 15) words (omega arith)
      (omega arith) (omega arith) (omega arith)

abbrev one_client : ElbFilter
one_client = record {
  client_ip = codes "10.";
  host = [];
  path = [];
  target = [];
  user_agent = [];
  methods = [];
  statuses = [];
  slower_than = 0;
  since = 0;
  until = 100;
}

abbrev from_client : Entry whole_numbers.Float
from_client = record (blank {Float = whole_numbers.Float} alb 0) {
  client_ip = codes "10.0.0.1";
  time = 50;
}

parse_columns-join_example :
    parse_columns text_net
      (f_start ∷ f_action ∷ [])
      (join (codes "10" ∷ codes "ACCEPT" ∷ []))
      (new_entry text_net)
    ≡ read_all text_net
        (f_start ∷ f_action ∷ [])
        (codes "10" ∷ codes "ACCEPT" ∷ [])
        (new_entry text_net)
unfolding codes
parse_columns-join_example =
    parse_columns-join text_net (f_start ∷ f_action ∷ []) (codes "10" ∷ codes "ACCEPT" ∷ [])
      (new_entry text_net) ((ground arith, refl), ((ground arith, refl), tt))

abbrev accepted_ssh : FlowFilter Str
accepted_ssh = record {
  actions = codes "accept" ∷ [];
  src_cidrs = [];
  dst_cidrs = [];
  ports = record { lo = 22; hi = 22 } ∷ [];
  protocols = 6 ∷ [];
  interfaces = [];
  vpcs = [];
  since = 0;
  until = 0;
}

abbrev ssh_flow : Flow Str
ssh_flow = record (new_entry text_net) { action = codes "ACCEPT"; dst_port = 22; protocol = 6 }

match_flow_iff_example :
    (match_flow text_net accepted_ssh ssh_flow ≡ true) ↔ SelectsFlow text_net accepted_ssh ssh_flow
match_flow_iff_example = match_flow_iff text_net accepted_ssh ssh_flow

-- A flow with no start in a window that ends.
no_start : flow_in_window text_net (record accepted_ssh { until = 100 }) ssh_flow ≡ true
unfolding flow_in_window new_entry
no_start = refl
