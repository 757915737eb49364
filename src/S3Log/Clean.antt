-- ===== src/S3Log/Clean.antt =====
-- What a parsed entry keeps of a request and of a referer.
use ctaudit.Prelude.{
  ℕ, zero, suc, inl, inr, Bool-cases, Option-cases, is_empty, ◌≡◌, refl, ap, sym, ◌∙◌, subst, true,
  false, ◌||◌, Bool, some, none, List, [], ◌∷◌, ◌++◌, eqb, any_of, length, arith, Option, get_elem?,
}
use ctaudit.Text.{Str, codes, str_eq, has_prefix, cut, last_index_byte}
use ctaudit.Text.Pieces.{cut-value, take-length, drop-length}
use ctaudit.Instant.{Time}
use ctaudit.ElbLog.Parts.{index_query}
use ctaudit.LogLines.{ok}
use ctaudit.S3Log.{S3Entry}
use ctaudit.S3Log.Tokens.{s3_fields}
use ctaudit.S3Log.Accepts.{s3_parse_iff, ok_inj, text_at}
use ctaudit.S3Log.Parse.{strip_query, split_proto, split_request, s3_parse}

-- A question mark or a hash sign.
abbrev pub is_query : ℕ → Bool
is_query c = eqb c b'?' || eqb c b'#'

abbrev pub has_query : Str → Bool
has_query s = any_of is_query s

-- Nothing, or a text that begins with a question mark or a hash sign.
abbrev pub is_query_part : Str → Bool
is_query_part [] = true
is_query_part (c ∷ s) = is_query c

strip_query_clean : (s : Str) → has_query (strip_query s) ≡ false
unfolding strip_query index_query
strip_query_clean [] = refl
strip_query_clean (c ∷ s) = ground (arith, strip_query_clean s)

strip_query-query : (c : ℕ) (s : Str) → is_query c ≡ true → strip_query (c ∷ s) ≡ []
unfolding strip_query index_query
strip_query-query c s h = rw (strip_query, index_query, h) refl

strip_query-other : (c : ℕ) (s : Str) → is_query c ≡ false → strip_query (c ∷ s) ≡ c ∷ strip_query s
unfolding strip_query index_query
strip_query-other c s h = elim (Option-cases (index_query s)) [
  | inl e ↦ rw (strip_query, index_query, h, e) refl
  | inr (i, e) ↦ rw (strip_query, index_query, h, e) refl
]

-- What is stripped is the query and the fragment, and nothing before them.
strip_query_rest : (s : Str) → (q : Str) × (s ≡ strip_query s ++ q) × (is_query_part q ≡ true)
unfolding strip_query index_query
strip_query_rest [] = ([], refl, refl)
strip_query_rest (c ∷ s) = elim (Bool-cases (is_query c)) [
  | inl h ↦ (c ∷ s, ap (λ l. l ++ c ∷ s) (sym (strip_query-query c s h)), h)
  | inr h ↦
      let (q, whole, part) = strip_query_rest s in
      (q, ap (◌∷◌ c) whole ∙ ap (λ l. l ++ q) (sym (strip_query-other c s h)), part)
]

split_request_clean : (s : Str) → has_query (split_request s).1 ≡ false
unfolding split_request
split_request_clean [] = refl
split_request_clean (c ∷ s) = strip_query_clean _

last_index_byte_absent :
    (p : Str) → any_of (λ c. eqb c b' ') p ≡ false → last_index_byte p b' ' ≡ none
unfolding last_index_byte
last_index_byte_absent [] h = refl
last_index_byte_absent (c ∷ p) h = ground (arith, last_index_byte_absent p)

last_index_byte-value :
    (u p : Str)
    → any_of (λ c. eqb c b' ') p ≡ false
    → last_index_byte (u ++ b' ' ∷ p) b' ' ≡ some (length u)
unfolding last_index_byte
last_index_byte-value [] p h = rw (last_index_byte, last_index_byte_absent p h) refl
last_index_byte-value (c ∷ u) p h = rw (last_index_byte, last_index_byte-value u p h) refl

abbrev pub request_line : Str → Str → Str → Str
request_line m u p = m ++ b' ' ∷ (u ++ b' ' ∷ p)

request_line-nonempty : (m u p : Str) → is_empty (request_line m u p) ≡ false
request_line-nonempty [] u p = refl
request_line-nonempty (c ∷ m) u p = refl

request_line-not_dash : (m u p : Str) → str_eq (request_line m u p) (codes "-") ≡ false
unfolding str_eq codes
request_line-not_dash [] u p = refl
request_line-not_dash (c ∷ []) u p = ground arith
request_line-not_dash (c ∷ d ∷ m) u p = ground arith

split_proto-last :
    (u p : Str)
    → any_of (λ c. eqb c b' ') p ≡ false
    → has_prefix p (codes "HTTP/") ≡ true
    → split_proto (u ++ b' ' ∷ p) ≡ (u, p)
unfolding split_proto
split_proto-last u p last http =
    rw
      (
        split_proto,
        last_index_byte-value u p last,
        drop-length u p b' ',
        http,
        take-length u (b' ' ∷ p),
      )
      refl

abbrev after_cut : Str × Str × Bool → Str × Str × Str
after_cut c = (c.0, strip_query (split_proto c.1).0, (split_proto c.1).1)

split_request_nonempty : (s : Str) → is_empty s ≡ false → split_request s ≡ after_cut (cut s b' ')
unfolding split_request
split_request_nonempty s h = rw (split_request, h) refl

split_request-line :
    (m u p : Str)
    → any_of (λ c. eqb c b' ') m ≡ false
    → any_of (λ c. eqb c b' ') p ≡ false
    → has_prefix p (codes "HTTP/") ≡ true
    → split_request (request_line m u p) ≡ (m, strip_query u, p)
split_request-line m u p one last http =
    split_request_nonempty (request_line m u p) (request_line-nonempty m u p)
    ∙ (ap after_cut (cut-value m (u ++ b' ' ∷ p) b' ' one)
        ∙ ap (λ r. (m, strip_query r.0, r.1)) (split_proto-last u p last http))

text_at-some :
    (f : List Str) (i : ℕ) (x : Str)
    → get_elem? f i ≡ some x
    → str_eq x (codes "-") ≡ false
    → text_at f i ≡ x
unfolding text_at
text_at-some [] i x h k = ground (arith, h)
text_at-some (s ∷ f) zero x h k =
    let same : s ≡ x = cc in
    subst (λ x. text_at (s ∷ f) zero ≡ x) same
      (rw
        (
          text_at,
          (let d : str_eq s (codes "-") ≡ false = ap (λ s. str_eq s (codes "-")) same ∙ k in d),
        )
        refl)
text_at-some (s ∷ f) (suc i) x h k = text_at-some f i x h k

module _ (clock : Str → Option Time) (line : Str) (e : S3Entry)
    (h : s3_parse clock line ≡ ok e) where
  -- Whatever a line has in its place, the path of an accepted entry and its referer hold no query
  -- string and no fragment.
  pub s3_parse_clean : (has_query e.path ≡ false) × (has_query e.referer ≡ false)
  s3_parse_clean =
      let (f, split, is) = (s3_parse_iff clock line e).0 h in
      (
        ap has_query is.describes.path ∙ split_request_clean (text_at f 8),
        ap has_query is.describes.referer ∙ strip_query_clean (text_at f 15),
      )

  -- Of a request with a method, a URI and an HTTP version, of which the first and the last are
  -- single words, an entry has exactly these; of the URI, what stands before its query string or
  -- fragment.
  pub s3_parse_request :
      (f : List Str) (m u p : Str)
      → s3_fields line ≡ ok f
      → get_elem? f 8 ≡ some (request_line m u p)
      → any_of (λ c. eqb c b' ') m ≡ false
      → any_of (λ c. eqb c b' ') p ≡ false
      → has_prefix p (codes "HTTP/") ≡ true
      → (e.method ≡ m)
        × (e.proto ≡ p)
        × (has_query e.path ≡ false)
        × ((q : Str) × (u ≡ e.path ++ q) × (is_query_part q ≡ true))
  s3_parse_request f m u p split at one last http =
      let (g, split', is) = (s3_parse_iff clock line e).0 h in
      let same : g ≡ f = ok_inj (sym split' ∙ split) in
      let text : text_at g 8 ≡ request_line m u p =
        ap (λ g. text_at g 8) same
        ∙ text_at-some f 8 (request_line m u p) at (request_line-not_dash m u p) in
      let parts = ap split_request text ∙ split_request-line m u p one last http in
      let path : e.path ≡ strip_query u = is.describes.path ∙ ap (λ r. r.1) parts in
      let (q, whole, part) = strip_query_rest u in
      (
        is.describes.method ∙ ap (λ r. r.0) parts,
        is.describes.proto ∙ ap (λ r. r.2) parts,
        s3_parse_clean.0,
        (q, whole ∙ ap (λ l. l ++ q) (sym path), part),
      )
