-- ===== src/Text/Pieces.antt =====
-- Where a byte, or a marker, first stands in a text, and what Cut makes of it.
use ctaudit.Prelude.{
  ℕ, suc, ◌≡◌, refl, ap, ◌∙◌, true, false, some, none, [], ◌∷◌, ◌++◌, eqb, length, any_of, arith,
  take, drop,
}
use ctaudit.Text.{Str, index_byte, cut}

pub index_byte-value :
    (v rest : Str) (b : ℕ)
    → any_of (λ c. eqb c b) v ≡ false
    → index_byte (v ++ b ∷ rest) b ≡ some (length v)
unfolding index_byte
index_byte-value [] rest b h = ground arith
index_byte-value (c ∷ v) rest b h = ground (arith, index_byte-value v rest b)

pub index_byte_absent : (v : Str) (b : ℕ) → any_of (λ c. eqb c b) v ≡ false → index_byte v b ≡ none
unfolding index_byte
index_byte_absent [] b h = refl
index_byte_absent (c ∷ v) b h = ground (arith, index_byte_absent v b)

pub take-length : (v rest : Str) → take (length v) (v ++ rest) ≡ v
take-length [] rest = refl
take-length (c ∷ v) rest = ap (◌∷◌ c) (take-length v rest)

pub drop-length : (v rest : Str) (b : ℕ) → drop (suc (length v)) (v ++ b ∷ rest) ≡ rest
drop-length [] rest b = refl
drop-length (c ∷ v) rest b = drop-length v rest b

pub cut-value :
    (v rest : Str) (b : ℕ)
    → any_of (λ c. eqb c b) v ≡ false
    → cut (v ++ b ∷ rest) b ≡ (v, rest, true)
unfolding cut
cut-value v rest b h =
    rw (index_byte-value v rest b h, cut)
      (ap (λ x. (x, drop (suc (length v)) (v ++ b ∷ rest), true)) (take-length v (b ∷ rest))
        ∙ ap (λ x. (v, x, true)) (drop-length v rest b))

pub cut_absent : (v : Str) (b : ℕ) → any_of (λ c. eqb c b) v ≡ false → cut v b ≡ (v, [], false)
unfolding cut
cut_absent v b h = rw (index_byte_absent v b h, cut) refl
