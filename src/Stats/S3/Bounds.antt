-- ===== src/Stats/S3/Bounds.antt =====
-- The memory of an S3 summary is bounded.
use ctaudit.Prelude.{
  ℕ, ◌≤◌, ◌<◌, ◌≡◌, refl, Word, Bool, true, false, List, [], ◌∷◌, ◌++◌, if◌then◌else◌, ltb, length,
  length-take, take, arith, Bool-cases, inl, inr,
}
use ctaudit.Text.{Str}
use ctaudit.Map.{str_comparable}
use ctaudit.Map.Values.{AllValues, put-AllValues, find-AllValues}
use ctaudit.Sort.{sort_by}
use ctaudit.S3Log.{S3Entry}
use ctaudit.Stats.Counter.{Counter, other_key, add_capped}
use ctaudit.Stats.Counter.Capped.{IsBounded, add_capped-IsBounded}
use ctaudit.Stats.S3.{
  S3Summary, AnonHit, AnonHits, AccessChange, cap_add, cap_merge, s3_other, add_change, add_s3,
  merge_s3, merge_hit, merge_hits, new_s3_summary, new_anon_hit, hit_by, anon_hit, earliest_changes,
  changed_before, s3_max_keys,
}

-- The cap of S3 counters is that of capped counters in general, at 50,000 keys.
cap_add_capped :
    (key : Str) (n : Word) (c : Counter) → cap_add key n c ≡ add_capped key n s3_max_keys c
unfolding cap_add add_capped s3_other other_key
cap_add_capped key n c = refl

abbrev pub IsCapped : Counter → Type 0
IsCapped c = IsBounded s3_max_keys c

module _ (c : Counter) (h : IsCapped c) where
  cap_add-IsCapped : (key : Str) (n : Word) → IsCapped (cap_add key n c)
  cap_add-IsCapped key n = rw (cap_add_capped key n c) (add_capped-IsBounded key n s3_max_keys c h)

  cap_if-IsCapped : (b : Bool) (key : Str) (n : Word) → IsCapped (if b then cap_add key n c else c)
  cap_if-IsCapped true key n = cap_add-IsCapped key n
  cap_if-IsCapped false key n = h

cap_merge-IsCapped : (o c : Counter) → IsCapped c → IsCapped (cap_merge o c)
unfolding cap_merge
cap_merge-IsCapped [] c h = h
cap_merge-IsCapped ((k, v) ∷ o) c h =
    cap_merge-IsCapped o (cap_add k v c) (cap_add-IsCapped c h k v)

-- The counters of one bucket's hit that grow with the log.
abbrev pub IsCappedHit : AnonHit → Type 0
IsCappedHit h = IsCapped h.ips × IsCapped h.keys

abbrev pub AreCapped : AnonHits → Type 0
AreCapped = AllValues IsCappedHit

pub record IsBoundedSummary (s : S3Summary) : Type 0 where
  pub by_requester : IsCapped s.by_requester
  pub by_remote_ip : IsCapped s.by_remote_ip
  pub by_key : IsCapped s.by_key
  pub by_user_agent : IsCapped s.by_user_agent
  pub denied_by_ip : IsCapped s.denied_by_ip
  pub denied_by_requester : IsCapped s.denied_by_requester
  pub deletes_by_principal : IsCapped s.deletes_by_principal
  pub bytes_by_requester : IsCapped s.bytes_by_requester
  pub bytes_by_ip : IsCapped s.bytes_by_ip
  pub weak_tls_by : IsCapped s.weak_tls_by
  pub plain_http_by : IsCapped s.plain_http_by
  pub sig_v2_by : IsCapped s.sig_v2_by
  pub anon_writes : AreCapped s.anon_writes
  pub anon_reads : AreCapped s.anon_reads
  pub access_changes : length s.access_changes < 2000

new_hit_capped : IsCappedHit new_anon_hit
unfolding new_anon_hit
new_hit_capped = (ground arith, ground arith)

hit_by-IsCappedHit : (e : S3Entry) (h : AnonHit) → IsCappedHit h → IsCappedHit (hit_by e h)
unfolding hit_by
hit_by-IsCappedHit e h (i, k) =
    (cap_add-IsCapped h.ips i e.remote_ip 1, cap_add-IsCapped h.keys k e.key 1)

anon_if-AreCapped :
    (b : Bool) (m : AnonHits) (e : S3Entry)
    → AreCapped m
    → AreCapped (if b then anon_hit m e else m)
unfolding anon_hit
anon_if-AreCapped false m e a = a
anon_if-AreCapped true m e a =
    put-AllValues IsCappedHit e.bucket _ m
      (hit_by-IsCappedHit e _ (find-AllValues IsCappedHit e.bucket new_anon_hit m new_hit_capped a))
      a

merge_hit-IsCappedHit : (h d : AnonHit) → IsCappedHit d → IsCappedHit (merge_hit h d)
unfolding merge_hit
merge_hit-IsCappedHit h d (i, k) =
    (cap_merge-IsCapped h.ips d.ips i, cap_merge-IsCapped h.keys d.keys k)

merge_hits-AreCapped : (o m : AnonHits) → AreCapped m → AreCapped (merge_hits o m)
unfolding merge_hits
merge_hits-AreCapped [] m a = a
merge_hits-AreCapped ((bucket, h) ∷ o) m a = merge_hits-AreCapped o _ (
    put-AllValues IsCappedHit bucket _ m
      (merge_hit-IsCappedHit h _
        (find-AllValues IsCappedHit bucket new_anon_hit m new_hit_capped a))
      a)

length-trim :
    {A : Type 0} (n : ℕ) (l : List A) → length (if ltb n (length l) then take n l else l) ≤ n
length-trim n l = elim (Bool-cases (ltb n (length l))) [
  | inl e ↦ rw e (omega (arith, length-take n l))
  | inr e ↦ rw e (ground arith)
]

length-earliest_changes : (c : List AccessChange) → length (earliest_changes c 1000) ≤ 1000
unfolding earliest_changes
length-earliest_changes c = length-trim 1000 (sort_by changed_before c)

change_if-bounded :
    (b : Bool) (a : AccessChange) (c : List AccessChange)
    → length c < 2000
    → length (if b then add_change a c else c) < 2000
unfolding add_change
change_if-bounded false a c h = h
change_if-bounded true a c h = ground (arith, length-earliest_changes (c ++ a ∷ []))

module _ (s : S3Summary) (h : IsBoundedSummary s) where
  add_s3-IsBoundedSummary : (e : S3Entry) → IsBoundedSummary (add_s3 e s)
  unfolding add_s3
  add_s3-IsBoundedSummary e = record {
    by_requester = cap_add-IsCapped s.by_requester h.by_requester _ _;
    by_remote_ip = cap_add-IsCapped s.by_remote_ip h.by_remote_ip _ _;
    by_key = cap_if-IsCapped s.by_key h.by_key _ _ _;
    by_user_agent = cap_add-IsCapped s.by_user_agent h.by_user_agent _ _;
    denied_by_ip = cap_if-IsCapped s.denied_by_ip h.denied_by_ip _ _ _;
    denied_by_requester = cap_if-IsCapped s.denied_by_requester h.denied_by_requester _ _ _;
    deletes_by_principal = cap_if-IsCapped s.deletes_by_principal h.deletes_by_principal _ _ _;
    bytes_by_requester = cap_if-IsCapped s.bytes_by_requester h.bytes_by_requester _ _ _;
    bytes_by_ip = cap_if-IsCapped s.bytes_by_ip h.bytes_by_ip _ _ _;
    weak_tls_by = cap_if-IsCapped s.weak_tls_by h.weak_tls_by _ _ _;
    plain_http_by = cap_if-IsCapped s.plain_http_by h.plain_http_by _ _ _;
    sig_v2_by = cap_if-IsCapped s.sig_v2_by h.sig_v2_by _ _ _;
    anon_writes = anon_if-AreCapped _ s.anon_writes e h.anon_writes;
    anon_reads = anon_if-AreCapped _ s.anon_reads e h.anon_reads;
    access_changes = change_if-bounded _ _ s.access_changes h.access_changes;
  }

  merge_s3-IsBoundedSummary : (o : S3Summary) → IsBoundedSummary (merge_s3 o s)
  unfolding merge_s3
  merge_s3-IsBoundedSummary o = record {
    by_requester = cap_merge-IsCapped o.by_requester _ h.by_requester;
    by_remote_ip = cap_merge-IsCapped o.by_remote_ip _ h.by_remote_ip;
    by_key = cap_merge-IsCapped o.by_key _ h.by_key;
    by_user_agent = cap_merge-IsCapped o.by_user_agent _ h.by_user_agent;
    denied_by_ip = cap_merge-IsCapped o.denied_by_ip _ h.denied_by_ip;
    denied_by_requester = cap_merge-IsCapped o.denied_by_requester _ h.denied_by_requester;
    deletes_by_principal = cap_merge-IsCapped o.deletes_by_principal _ h.deletes_by_principal;
    bytes_by_requester = cap_merge-IsCapped o.bytes_by_requester _ h.bytes_by_requester;
    bytes_by_ip = cap_merge-IsCapped o.bytes_by_ip _ h.bytes_by_ip;
    weak_tls_by = cap_merge-IsCapped o.weak_tls_by _ h.weak_tls_by;
    plain_http_by = cap_merge-IsCapped o.plain_http_by _ h.plain_http_by;
    sig_v2_by = cap_merge-IsCapped o.sig_v2_by _ h.sig_v2_by;
    anon_writes = merge_hits-AreCapped o.anon_writes _ h.anon_writes;
    anon_reads = merge_hits-AreCapped o.anon_reads _ h.anon_reads;
    access_changes =
        (let k = length-earliest_changes (s.access_changes ++ o.access_changes) in omega arith);
  }

  -- Adding an entry and merging another worker's summary, whatever they hold, keep every
  -- open-ended counter at 50,000 keys with at most the other key beyond them, those of the
  -- anonymous hits of each bucket included, and fewer than 2,000 access changes.
  pub s3_summary-IsBoundedSummary :
      (e : S3Entry) (o : S3Summary)
      → IsBoundedSummary (add_s3 e s) × IsBoundedSummary (merge_s3 o s)
  s3_summary-IsBoundedSummary e o = (add_s3-IsBoundedSummary e, merge_s3-IsBoundedSummary o)

-- A new summary is bounded.
pub new_s3_summary-IsBoundedSummary : IsBoundedSummary new_s3_summary
unfolding new_s3_summary
new_s3_summary-IsBoundedSummary = record {
  by_requester = ground arith;
  by_remote_ip = ground arith;
  by_key = ground arith;
  by_user_agent = ground arith;
  denied_by_ip = ground arith;
  denied_by_requester = ground arith;
  deletes_by_principal = ground arith;
  bytes_by_requester = ground arith;
  bytes_by_ip = ground arith;
  weak_tls_by = ground arith;
  plain_http_by = ground arith;
  sig_v2_by = ground arith;
  anon_writes = tt;
  anon_reads = tt;
  access_changes = omega arith;
}
