-- ===== src/Serve/Steps.antt =====
-- Runs of serve mode, tick by tick: which keys a tick reads again.
use ctaudit.Prelude.{
  ℕ, ◌+◌, ◌≤◌, ◌≡◌, refl, ap, ◌∙◌, Word, Bool, true, false, Option, none, some, List, [], ◌∷◌,
  if◌then◌else◌, arith, All,
}
use ctaudit.Text.{Str}
use ctaudit.Instant.{Time, minus}
use ctaudit.Map.{keys, find, has_key, member, IsDistinct, str_comparable}
use ctaudit.ElbLog.{Runtime}
use ctaudit.Serve.{Outcome, ServeState, is_seen, seen_retention}
use ctaudit.Serve.Commit.{see_all, commit, fail, prune, settle, tick}
use ctaudit.Serve.Seen.{
  recent, find-see_all, find-recent_keys, see_all-IsDistinct, recent_keys-IsDistinct,
  recent_ticks-All,
}

-- What one tick is given: its time, its duration, the result of the scan and of the delivery.
pub record Input (Float : Type 0) : Type 0 where
  pub now : Time
  pub dur : ℕ
  pub scanned : Option (Outcome Float × List Str × Word)
  pub delivered : Bool

-- The keys that a tick commits, given the results of its scan and delivery.
abbrev pub committed : {Float : Type 0} → Option (Outcome Float × List Str × Word) → Bool → List Str
committed none delivered = []
committed (some (t, ks, errs)) true = ks
committed (some (t, ks, errs)) false = []

module _ (rt : Runtime) where
  -- One tick after another.
  pub data Run : ServeState rt.Float → ServeState rt.Float → List (Input rt.Float) → Type 0 where
    done : {s : ServeState rt.Float} → Run s s []
    ticked :
        {s u : ServeState rt.Float} {i : Input rt.Float} {is : List (Input rt.Float)}
        → Run (tick rt i.now i.dur i.scanned i.delivered s) u is
        → Run s u (i ∷ is)

  settle-seen :
      (now : Time) (dur : ℕ) (r : Option (Outcome rt.Float × List Str × Word)) (delivered : Bool)
      (s : ServeState rt.Float)
      → (settle rt now dur r delivered s).seen ≡ see_all now (committed r delivered) s.seen
  unfolding settle commit fail see_all
  settle-seen now dur none delivered s = refl
  settle-seen now dur (some (t, ks, errs)) true s = refl
  settle-seen now dur (some (t, ks, errs)) false s = refl

  settle-lookback :
      (now : Time) (dur : ℕ) (r : Option (Outcome rt.Float × List Str × Word)) (delivered : Bool)
      (s : ServeState rt.Float)
      → (settle rt now dur r delivered s).lookback ≡ s.lookback
  unfolding settle commit fail
  settle-lookback now dur none delivered s = refl
  settle-lookback now dur (some (t, ks, errs)) true s = refl
  settle-lookback now dur (some (t, ks, errs)) false s = refl

  module _ (now : Time) (dur : ℕ) (r : Option (Outcome rt.Float × List Str × Word))
      (delivered : Bool) (s : ServeState rt.Float) where
    -- A tick keeps one entry for each seen key, and every result it keeps for the report is at
    -- most one lookback old.
    pub tick-IsWellFormed :
        IsDistinct (keys s.seen)
        → IsDistinct (keys (tick rt now dur r delivered s).seen)
          × All (λ t. minus now s.lookback ≤ t.0) (tick rt now dur r delivered s).ticks
    unfolding tick prune
    tick-IsWellFormed d =
        rw (settle-seen now dur r delivered s, settle-lookback now dur r delivered s)
          (
            recent_keys-IsDistinct _ _ (see_all-IsDistinct now (committed r delivered) s.seen d),
            recent_ticks-All (minus now s.lookback) (settle rt now dur r delivered s).ticks,
          )

    tick-lookback : (tick rt now dur r delivered s).lookback ≡ s.lookback
    unfolding tick prune
    tick-lookback = settle-lookback now dur r delivered s

    -- After a tick a key is recorded exactly when it was recorded, with the time it had, or else
    -- committed by this tick, with the time of the tick, unless that time is older than the
    -- lookback and the retention together. A scan that failed, or whose lines were not delivered,
    -- commits no key.
    pub find-tick :
        (k : Str)
        → IsDistinct (keys s.seen)
        → find k (tick rt now dur r delivered s).seen
          ≡ recent (minus now (s.lookback + seen_retention)) (
              if is_seen s k
              then find k s.seen
              else if member k (committed r delivered)
              then some now
              else none)
    unfolding tick prune is_seen
    find-tick k d =
        let ks = committed r delivered in
        rw (settle-seen now dur r delivered s, settle-lookback now dur r delivered s)
          (find-recent_keys k _ _ (see_all-IsDistinct now ks s.seen d)
            ∙ ap (recent _) (find-see_all k now ks s.seen))

  stays_recorded :
      (s u : ServeState rt.Float) (is : List (Input rt.Float)) (k : Str) (t lookback : ℕ)
      → Run s u is
      → s.lookback ≡ lookback
      → IsDistinct (keys s.seen)
      → find k s.seen ≡ some t
      → All (λ i. i.now ≤ t + lookback + seen_retention) is
      → find k u.seen ≡ some t
  stays_recorded s u is k t lookback done same d h young = h
  stays_recorded s u (i ∷ is) k t lookback (ticked r) same d h (young, later) =
      let young_key = find-tick i.now i.dur i.scanned i.delivered s k d in
      stays_recorded _ u is k t lookback r
        (tick-lookback i.now i.dur i.scanned i.delivered s ∙ same)
        (tick-IsWellFormed i.now i.dur i.scanned i.delivered s d).0
        (unfold is_seen has_key in ground (arith, young_key)) later

  -- A new key that a tick commits is seen after each later run of ticks, the last of them at
  -- most the lookback and the retention together after that tick: no such tick reads it again.
  pub stays_seen :
      (i : Input rt.Float) (is : List (Input rt.Float)) (s u : ServeState rt.Float) (k : Str)
      → Run (tick rt i.now i.dur i.scanned i.delivered s) u is
      → IsDistinct (keys s.seen)
      → is_seen s k ≡ false
      → member k (committed i.scanned i.delivered) ≡ true
      → All (λ j. j.now ≤ i.now + s.lookback + seen_retention) is
      → is_seen u k ≡ true
  unfolding is_seen has_key
  stays_seen i is s u k r d new read young =
      let recorded = find-tick i.now i.dur i.scanned i.delivered s k d in
      let kept =
        stays_recorded _ u is k i.now s.lookback r
          (tick-lookback i.now i.dur i.scanned i.delivered s)
          (tick-IsWellFormed i.now i.dur i.scanned i.delivered s d).0
          (unfold is_seen has_key in ground (arith, recorded)) young in
      rw kept refl

  -- A key that is not seen, and that a tick does not commit, is not seen after the tick.
  pub is_seen-tick :
      (i : Input rt.Float) (s : ServeState rt.Float) (k : Str)
      → IsDistinct (keys s.seen)
      → is_seen s k ≡ false
      → member k (committed i.scanned i.delivered) ≡ false
      → is_seen (tick rt i.now i.dur i.scanned i.delivered s) k ≡ false
  unfolding is_seen has_key
  is_seen-tick i s k d new unread =
      let recorded = find-tick i.now i.dur i.scanned i.delivered s k d in
      unfold is_seen has_key in ground (arith, recorded)
