-- ===== src/Redaction/Hidden.antt =====
-- What `redact` (security/redaction.py) leaves of a value.
use placegame_mcp.Prelude.{
  ℕ, zero, suc, ◌≤◌, ◌≡◌, refl, ap, arith, true, [], ◌∷◌, ◌++◌, ltb, length, length-append, inl,
  inr, Bool-cases,
}
use placegame_mcp.Text.{Text, cut, length-cut}
use placegame_mcp.Redaction.{
  Value, string, list, tuple, mapping, atom, Values, nil, cons, Pairs, end, pair,
  max_redacted_string_length, truncated, redacted, is_sensitive_key, redact_string, redact,
  redact_values, redact_pairs,
}

-- At any depth, a text has at most 270 code points, and under a sensitive key stands the marker.
mutual
  pub IsHidden : Value → Type 0
  IsHidden (string s) = length s ≤ 270
  IsHidden (list vs) = AreHidden vs
  IsHidden (tuple vs) = AreHidden vs
  IsHidden (mapping ps) = ArePairsHidden ps
  IsHidden (atom n) = Unit

  pub AreHidden : Values → Type 0
  AreHidden nil = Unit
  AreHidden (cons v vs) = IsHidden v × AreHidden vs

  pub ArePairsHidden : Pairs → Type 0
  ArePairsHidden end = Unit
  ArePairsHidden (pair k v ps) =
      (is_sensitive_key k ≡ true → v ≡ redacted) × IsHidden v × ArePairsHidden ps

-- A text that was cut is cut at the same place again.
cut-cut : (n : ℕ) (s t : Text) → n ≤ length s → cut n (cut n s ++ t) ≡ cut n s
unfolding cut
cut-cut zero s t h = refl
cut-cut (suc n) [] t h = ground arith
cut-cut (suc n) (c ∷ s) t h = ap (◌∷◌ c) (cut-cut n s t (ground arith))

length-cut_full : (n : ℕ) (s : Text) → n ≤ length s → length (cut n s) ≡ n
unfolding cut
length-cut_full zero s h = refl
length-cut_full (suc n) [] h = ground arith
length-cut_full (suc n) (c ∷ s) h = ground (arith, length-cut_full n s (ground arith))

redact_string-Short : (s : Text) → length (redact_string s) ≤ 270
unfolding redact_string
redact_string-Short s = elim (Bool-cases (ltb max_redacted_string_length (length s))) [
  | inl e ↦ rw (e, length-append (cut 256 s) truncated) (omega (arith, length-cut 256 s))
  | inr e ↦ rw e (ground arith)
]

cut_is_long :
    (s : Text)
    → 256 ≤ length s
    → ltb max_redacted_string_length (length (cut max_redacted_string_length s ++ truncated)) ≡ true
cut_is_long s h = rw (length-append (cut 256 s) truncated, length-cut_full 256 s h) refl

redact_string_again : (s : Text) → redact_string (redact_string s) ≡ redact_string s
unfolding redact_string
redact_string_again s = elim (Bool-cases (ltb max_redacted_string_length (length s))) [
  | inl e ↦
      let long : 256 ≤ length s = ground arith in
      rw (e, cut_is_long s long) (ap (λ t. t ++ truncated) (cut-cut 256 s truncated long))
  | inr e ↦ rw (e, e) refl
]

mutual
  unfolding redact IsHidden

  redact_hides : (v : Value) → IsHidden (redact v)
  redact_hides (string s) = redact_string-Short s
  redact_hides (list vs) = redact_values_hides vs
  redact_hides (tuple vs) = redact_values_hides vs
  redact_hides (mapping ps) = redact_pairs_hides ps
  redact_hides (atom n) = tt

  redact_values_hides : (vs : Values) → AreHidden (redact_values vs)
  redact_values_hides nil = tt
  redact_values_hides (cons v vs) = (redact_hides v, redact_values_hides vs)

  redact_pairs_hides : (ps : Pairs) → ArePairsHidden (redact_pairs ps)
  redact_pairs_hides end = tt
  redact_pairs_hides (pair k v ps) = elim (Bool-cases (is_sensitive_key k)) [
    | inl e ↦ rw e ((λ _. refl), omega arith, redact_pairs_hides ps)
    | inr e ↦ rw e ((λ h. absurd (ground arith)), redact_hides v, redact_pairs_hides ps)
  ]

mutual
  unfolding redact

  redact_again : (v : Value) → redact (redact v) ≡ redact v
  redact_again (string s) = ap string (redact_string_again s)
  redact_again (list vs) = ap list (redact_values_again vs)
  redact_again (tuple vs) = ap tuple (redact_values_again vs)
  redact_again (mapping ps) = ap mapping (redact_pairs_again ps)
  redact_again (atom n) = refl

  redact_values_again : (vs : Values) → redact_values (redact_values vs) ≡ redact_values vs
  redact_values_again nil = refl
  redact_values_again (cons v vs) = rw (redact_again v, redact_values_again vs) refl

  redact_pairs_again : (ps : Pairs) → redact_pairs (redact_pairs ps) ≡ redact_pairs ps
  redact_pairs_again end = refl
  redact_pairs_again (pair k v ps) = elim (Bool-cases (is_sensitive_key k)) [
    | inl e ↦ rw (e, redact_pairs_again ps) refl
    | inr e ↦ rw (e, redact_again v, redact_pairs_again ps) refl
  ]

-- What `redact` gives has, at any depth, the marker as the value under every sensitive key, and no
-- value that is a text of more than 270 code points; and to redact it once more changes nothing.
pub redact-IsHidden : (v : Value) → IsHidden (redact v) × redact (redact v) ≡ redact v
redact-IsHidden v = (redact_hides v, redact_again v)
