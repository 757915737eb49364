-- ===== src/FlowLog/Selects.antt =====
-- What the filter on flow log records selects, described without its tests.
use ctaudit.Prelude.{
  ◌≤◌, ◌<◌, ◌≡◌, ◌≢◌, ◌↔◌, ◌⊎◌, true, false, not, ◌&&◌, List, [], arith, Some, any_of_iff, eqb,
  eqb_iff, Word, slt, any_of, Some_iff, guard_iff, criterion_iff, either_iff, passed, passing,
  clear, clearing,
}
use ctaudit.Text.{Str, str_eq, to_lower, equal_fold, trim_space}
use ctaudit.Text.Laws.{nonempty_iff, equal_fold_iff, str_eq_iff}
use ctaudit.FlowLog.{Net, Flow}
use ctaudit.FlowLog.Select.{
  PortRange, FlowFilter, port_in, any_fold, in_any, flow_in_window, match_flow,
}

-- A known port that one of the ranges holds, in the order of Go's int.
abbrev pub InRanges : List PortRange → Word → Type 0
InRanges rs p = (slt p 0 ≡ false) × Some (λ r. (slt p r.lo ≡ false) × (slt r.hi p ≡ false)) rs

-- A value that one of the texts names, white space and letter case aside.
abbrev pub Names : List Str → Str → Type 0
Names l v = (v ≢ []) × Some (λ c. to_lower (trim_space c) ≡ to_lower v) l

module _ (net : Net) where
  -- A valid address in one of the prefixes.
  abbrev pub Inside : List net.Prefix → net.Addr → Type 0
  Inside ps a = (net.is_valid a ≡ true) × Some (λ p. net.prefix_contains p (net.unmap a) ≡ true) ps

  -- A criterion that is not set selects every record.
  pub record SelectsFlow (f : FlowFilter net.Prefix) (e : Flow net.Addr) : Type 0 where
    pub since : f.since ≢ 0 → f.since ≤ e.start
    pub until : f.until ≢ 0 → e.start < f.until
    pub action : f.actions ≢ [] → Names f.actions e.action
    pub src : f.src_cidrs ≢ [] → Inside f.src_cidrs e.src_addr ⊎ Inside f.src_cidrs e.pkt_src_addr
    pub dst : f.dst_cidrs ≢ [] → Inside f.dst_cidrs e.dst_addr ⊎ Inside f.dst_cidrs e.pkt_dst_addr
    pub port : f.ports ≢ [] → InRanges f.ports e.src_port ⊎ InRanges f.ports e.dst_port
    pub protocol : f.protocols ≢ [] → Some (λ p. p ≡ e.protocol) f.protocols
    pub interface : f.interfaces ≢ [] → Names f.interfaces e.interface_id
    pub vpc : f.vpcs ≢ [] → Some (λ v. v ≡ e.vpc_id) f.vpcs

  in_any_iff : (ps : List net.Prefix) (a : net.Addr) → (in_any net ps a ≡ true) ↔ Inside ps a
  unfolding in_any
  in_any_iff ps a = ground (arith, any_of_iff (λ p. net.prefix_contains p (net.unmap a)) ps)

port_in_iff : (rs : List PortRange) (p : Word) → (port_in rs p ≡ true) ↔ InRanges rs p
unfolding port_in
port_in_iff rs p =
    let test = λ (r : PortRange). not (slt p r.lo) && not (slt r.hi p) in
    let e = any_of_iff test rs in
    let s =
      Some_iff {P = λ r. test r ≡ true} {Q = λ r. (slt p r.lo ≡ false) × (slt r.hi p ≡ false)}
        (λ r. ground arith) rs in
    ground (arith, e, s)

any_fold_iff : (l : List Str) (v : Str) → (any_fold l v ≡ true) ↔ Names l v
unfolding any_fold
any_fold_iff l v =
    let e = any_of_iff (λ c. equal_fold (trim_space c) v) l in
    let s =
      Some_iff {P = λ c. equal_fold (trim_space c) v ≡ true}
        {Q = λ c. to_lower (trim_space c) ≡ to_lower v} (λ c. equal_fold_iff (trim_space c) v) l in
    ground (arith, e, s, nonempty_iff v)

protocol_iff : (l : List Word) (v : Word) → (any_of (λ p. eqb p v) l ≡ true) ↔ Some (λ p. p ≡ v) l
protocol_iff l v = ground (
  arith,
  any_of_iff (λ p. eqb p v) l,
  Some_iff {P = λ p. eqb p v ≡ true} {Q = λ p. p ≡ v} (λ p. eqb_iff p v) l,
)

vpc_iff : (l : List Str) (v : Str) → (any_of (λ p. str_eq p v) l ≡ true) ↔ Some (λ p. p ≡ v) l
vpc_iff l v = ground (
  arith,
  any_of_iff (λ p. str_eq p v) l,
  Some_iff {P = λ p. str_eq p v ≡ true} {Q = λ p. p ≡ v} (λ p. str_eq_iff p v) l,
)

module _ (net : Net) (f : FlowFilter net.Prefix) (e : Flow net.Addr) where
  window_iff :
      (flow_in_window net f e ≡ true)
      ↔ ((f.since ≢ 0 → f.since ≤ e.start) × (f.until ≢ 0 → e.start < f.until))
  unfolding flow_in_window
  window_iff = ground arith

  match_flow→SelectsFlow : match_flow net f e ≡ true → SelectsFlow net f e
  unfolding match_flow
  match_flow→SelectsFlow h =
      let g1 = (guard_iff _ _).0 h in
      let g2 = (guard_iff _ _).0 g1.1 in
      let g3 = (guard_iff _ _).0 g2.1 in
      let g4 = (guard_iff _ _).0 g3.1 in
      let g5 = (guard_iff _ _).0 g4.1 in
      let g6 = (guard_iff _ _).0 g5.1 in
      let g7 = (guard_iff _ _).0 g6.1 in
      let w = window_iff.0 (passed _ g1.0) in
      record {
        since = w.0;
        until = w.1;
        action = (criterion_iff f.actions _ (any_fold_iff f.actions e.action)).0 g2.0;
        src =
            (either_iff f.src_cidrs _ _ (in_any_iff net f.src_cidrs e.src_addr)
                (in_any_iff net f.src_cidrs e.pkt_src_addr)).0
              g3.0;
        dst =
            (either_iff f.dst_cidrs _ _ (in_any_iff net f.dst_cidrs e.dst_addr)
                (in_any_iff net f.dst_cidrs e.pkt_dst_addr)).0
              g4.0;
        port =
            (either_iff f.ports _ _ (port_in_iff f.ports e.src_port)
                (port_in_iff f.ports e.dst_port)).0
              g5.0;
        protocol = (criterion_iff f.protocols _ (protocol_iff f.protocols e.protocol)).0 g6.0;
        interface =
            (criterion_iff f.interfaces _ (any_fold_iff f.interfaces e.interface_id)).0 g7.0;
        vpc = (criterion_iff f.vpcs _ (vpc_iff f.vpcs e.vpc_id)).0 (clear _ g7.1);
      }

  SelectsFlow→match_flow : SelectsFlow net f e → match_flow net f e ≡ true
  unfolding match_flow
  SelectsFlow→match_flow s = (guard_iff _ _).1 (
    passing _ (window_iff.1 (s.since, s.until)),
    (guard_iff _ _).1 (
      (criterion_iff f.actions _ (any_fold_iff f.actions e.action)).1 s.action,
      (guard_iff _ _).1 (
        (either_iff f.src_cidrs _ _ (in_any_iff net f.src_cidrs e.src_addr)
              (in_any_iff net f.src_cidrs e.pkt_src_addr)).1
            s.src,
        (guard_iff _ _).1 (
          (either_iff f.dst_cidrs _ _ (in_any_iff net f.dst_cidrs e.dst_addr)
                (in_any_iff net f.dst_cidrs e.pkt_dst_addr)).1
              s.dst,
          (guard_iff _ _).1 (
            (either_iff f.ports _ _ (port_in_iff f.ports e.src_port)
                  (port_in_iff f.ports e.dst_port)).1
                s.port,
            (guard_iff _ _).1 (
              (criterion_iff f.protocols _ (protocol_iff f.protocols e.protocol)).1 s.protocol,
              (guard_iff _ _).1 (
                (criterion_iff f.interfaces _ (any_fold_iff f.interfaces e.interface_id)).1
                    s.interface,
                clearing _ ((criterion_iff f.vpcs _ (vpc_iff f.vpcs e.vpc_id)).1 s.vpc),
              ),
            ),
          ),
        ),
      ),
    ),
  )

-- A flow passes the filter exactly when it meets every criterion that is set: the window on its
-- start, an action or an interface that is named, an address inside a prefix at either end, a
-- known port in a range at either end, a protocol and a VPC that are listed.
-- A flow with no start has the zero time as its start, and passes a window with an end alone, though
-- the comment on InWindow in internal/flowlog/filter.go puts it outside any bounded window.
pub match_flow_iff :
    (net : Net) (f : FlowFilter net.Prefix) (e : Flow net.Addr)
    → (match_flow net f e ≡ true) ↔ SelectsFlow net f e
match_flow_iff net f e = (match_flow→SelectsFlow net f e, SelectsFlow→match_flow net f e)
