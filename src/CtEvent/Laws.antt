-- ===== src/CtEvent/Laws.antt =====
-- What the accessors of a CloudTrail record guarantee.
use ctaudit.Prelude.{true, false, ◌≡◌, ◌↔◌, ◌≢◌, none, some, [], arith, any_of_iff, Some, ◌⊎◌}
use ctaudit.Text.{codes, nonempty, has_prefix}
use ctaudit.Text.Laws.{nonempty_iff}
use ctaudit.CtEvent.{Record, actor, is_write, read_only_prefixes}

-- An actor is never empty, so a finding and a count always name one.
pub actor_nonempty : (r : Record) → nonempty (actor r) ≡ true
unfolding actor codes
actor_nonempty r = ground arith

-- A record counts as a write exactly when its readOnly field says so or, without one, when its
-- event has a name that begins with no read-only verb.
is_write_iff :
    (r : Record)
    → (is_write r ≡ true) ↔ (
        (r.read_only ≡ some false)
        ⊎ ((r.read_only ≡ none)
            × (r.event_name ≢ [])
            × ¬ Some (λ p. has_prefix r.event_name p ≡ true) read_only_prefixes))
unfolding is_write
is_write_iff r = ground (
  arith,
  any_of_iff (λ p. has_prefix r.event_name p) read_only_prefixes,
  nonempty_iff r.event_name,
)
