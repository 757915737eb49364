-- ===== src/ElbLog/Select.antt =====
-- internal/elblog/filter.go, and the methods of Entry in internal/elblog/elblog.go.
use ctaudit.Prelude.{
  ℕ, ◌≡◌, ◌↔◌, arith, Bool, true, false, not, ◌&&◌, ◌||◌, List, [], if◌then◌else◌, ltb, eqb, length,
  any_of, is_empty,
}
use ctaudit.Text.{
  Str, codes, str_eq, nonempty, has_prefix, contains, to_lower, trim_right_by, trim_space,
}
use ctaudit.Instant.{Time, is_zero, before}
use ctaudit.Query.{contains_fold, any_equal_fold}
use ctaudit.ElbLog.{Runtime, Entry}

module _ {Float : Type 0} where
  -- e.HostOrSNI()
  unfoldable pub host_or_sni : Entry Float → Str
  host_or_sni e = if nonempty e.host then e.host else e.domain_name

  -- e.TargetConnError()
  unfoldable pub target_conn_error : Entry Float → Bool
  unfolding codes str_eq has_prefix
  target_conn_error e =
      if e.conn
      then false
      else if has_prefix e.error_reason (codes "TargetConnection")
      then true
      else str_eq e.elb_status (codes "502") && (nonempty e.target && is_empty e.target_status)

  -- e.HandshakeFailed()
  unfoldable pub handshake_failed : Entry Float → Bool
  unfolding codes str_eq
  handshake_failed e = e.conn && (str_eq e.listener (codes "443") && is_empty e.ssl_protocol)

-- Filter of internal/elblog/filter.go; a duration is in nanoseconds.
pub record ElbFilter : Type 0 where
  pub client_ip : Str
  pub host : Str
  pub path : Str
  pub target : Str
  pub user_agent : Str
  pub methods : List Str
  pub statuses : List Str
  pub slower_than : ℕ
  pub since : Time
  pub until : Time

-- One pattern of matchesStatus.
unfoldable pub matches_pattern : Str → Str → Bool
unfolding str_eq
matches_pattern status pattern =
    let p = to_lower (trim_space pattern) in
    let prefix = trim_right_by (λ c. eqb c b'x') p in
    if is_empty prefix
    then false
    else if not (str_eq prefix p) || ltb (length p) 3
    then has_prefix status prefix
    else str_eq status p

-- matchesStatus(patterns, status)
unfoldable pub matches_status : List Str → Str → Bool
matches_status patterns status = nonempty status && any_of (matches_pattern status) patterns

-- The bounds on the time that Match and MatchConn share.
unfoldable pub in_window : Time → Time → Time → Bool
in_window since until t =
    if not (is_zero since) && before t since
    then false
    else not (not (is_zero until) && not (before t until))

module _ (rt : Runtime) where
  -- f.Match(e)
  unfoldable pub match_entry : ElbFilter → Entry rt.Float → Bool
  match_entry f e =
      if nonempty f.client_ip && not (contains e.client_ip f.client_ip)
      then false
      else if nonempty f.host && not (contains_fold (host_or_sni e) f.host)
      then false
      else if nonempty f.path && not (contains_fold e.path f.path)
      then false
      else if nonempty f.target && not (contains e.target f.target)
      then false
      else if nonempty f.user_agent && not (contains_fold e.user_agent f.user_agent)
      then false
      else if not (is_empty f.methods) && not (any_equal_fold f.methods e.method)
      then false
      else if not (is_empty f.statuses) && not (matches_status f.statuses e.elb_status)
      then false
      else if ltb 0 f.slower_than
          && (rt.is_negative e.latency || rt.less e.latency (rt.seconds_of f.slower_than))
      then false
      else in_window f.since f.until e.time

  -- f.MatchConn(e)
  unfoldable pub match_conn : ElbFilter → Entry rt.Float → Bool
  match_conn f e =
      if nonempty f.host
        || nonempty f.path
        || nonempty f.target
        || nonempty f.user_agent
        || not (is_empty f.methods)
        || not (is_empty f.statuses)
        || ltb 0 f.slower_than
      then false
      else if nonempty f.client_ip && not (contains e.client_ip f.client_ip)
      then false
      else in_window f.since f.until e.time

-- f.IsNarrowing()
unfoldable pub elb_is_narrowing : ElbFilter → Bool
elb_is_narrowing f =
    nonempty f.client_ip
    || nonempty f.host
    || nonempty f.path
    || nonempty f.target
    || nonempty f.user_agent
    || not (is_empty f.methods)
    || not (is_empty f.statuses)
    || ltb 0 f.slower_than

-- A filter that sets no criterion on requests alone admits the same connection records and
-- requests; a filter that sets one admits no connection record.
match_conn_iff :
    (rt : Runtime) (f : ElbFilter) (e : Entry rt.Float)
    → (match_conn rt f e ≡ true)
      ↔ ((elb_is_narrowing (record f { client_ip = [] }) ≡ false) × (match_entry rt f e ≡ true))
unfolding match_conn match_entry elb_is_narrowing
match_conn_iff rt f e = ground arith

-- No entry is both a request that its target did not answer and a failed handshake.
failures_disjoint :
    {Float : Type 0} (e : Entry Float) → (target_conn_error e && handshake_failed e) ≡ false
unfolding target_conn_error handshake_failed
failures_disjoint e = ground arith
