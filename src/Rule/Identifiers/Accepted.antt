-- ===== src/Rule/Identifiers/Accepted.antt =====
-- Which pipeline keys invalid-pipeline-key accepts.
use otelcol_config_lint.Config.File.{Pipeline}
use otelcol_config_lint.Rule.Context.{Context, Finding}
use otelcol_config_lint.Base.{
  All-iff, for_each-nil, All, ◌↔◌, [], ◌∷◌, ltb, ap, beq→eq, Bool-cases, inl, inr, sym, ◌∙◌, Bool,
  String, arith, false, if◌then◌else◌, leb, nat_eq, not, refl, string_eq, true, ℕ, ◌&&◌, ◌==◌, ◌||◌,
  ◌≡◌,
}
use otelcol_config_lint.Base.Text.{codes, cut, trim_space}
use otelcol_config_lint.Rule.Identifiers.{
  pipeline_findings, is_signal, identifier_error, invalid_pipeline_key, byte_length,
  max_identifier_name_bytes, name_matches, type_matches,
}

-- A type of 1 to 63 word characters that begins with a letter, and, behind a slash, a name of at most
-- 1024 bytes without white space, control characters and symbols.
abbrev pub is_identifier : (ℕ → Bool) → String → Bool
is_identifier plain raw =
    let parts = cut b'/' raw in
    type_matches (codes (trim_space parts.before))
    && leb (byte_length (trim_space parts.after)) max_identifier_name_bytes
    && (not parts.found || name_matches plain (codes (trim_space parts.after)))

empty_type : (s : String) → (s == "") ≡ true → type_matches (codes s) ≡ false
unfolding codes
empty_type s h = ap (λ t. type_matches (codes t)) (beq→eq s "" h)

empty_name :
    (plain : ℕ → Bool) (s : String) → (s == "") ≡ true → name_matches plain (codes s) ≡ false
unfolding codes
empty_name plain s h = ap (λ t. name_matches plain (codes t)) (beq→eq s "" h)

abbrev is_blank : String → Bool
is_blank s = s == ""

switch :
    (a b f c d e : Bool) (r₁ r₂ r₃ r₄ r₅ : String)
    → is_blank r₁ ≡ false
    → is_blank r₂ ≡ false
    → is_blank r₃ ≡ false
    → is_blank r₄ ≡ false
    → is_blank r₅ ≡ false
    → (a ≡ true → b ≡ false)
    → (c ≡ true → e ≡ false)
    → is_blank (
        if a
        then r₁
        else if not b
        then r₂
        else if f && c
        then r₃
        else if d
        then r₄
        else if f && not e
        then r₅
        else "")
      ≡ (b && not d && (not f || e))
switch true true f c d e _ _ _ _ _ _ _ _ _ _ h k = absurd (cc (h refl))
switch true false f c d e _ _ _ _ _ z _ _ _ _ h k = z
switch false false f c d e _ _ _ _ _ _ z _ _ _ h k = z
switch false true true true d true _ _ _ _ _ _ _ _ _ _ h k = absurd (cc (k refl))
switch false true true true true false _ _ _ _ _ _ _ z _ _ h k = z
switch false true true true false false _ _ _ _ _ _ _ z _ _ h k = z
switch false true true false true e _ _ _ _ _ _ _ _ z _ h k = z
switch false true true false false true _ _ _ _ _ _ _ _ _ _ h k = refl
switch false true true false false false _ _ _ _ _ _ _ _ _ z h k = z
switch false true false c true e _ _ _ _ _ _ _ _ z _ h k = z
switch false true false c false e _ _ _ _ _ _ _ _ _ _ h k = refl

not_over : (m n : ℕ) → not (ltb m n) ≡ leb n m
not_over m n = ground arith

identifier_error_lem :
    (plain : ℕ → Bool) (raw : String) → (identifier_error plain raw == "") ≡ is_identifier plain raw
unfolding identifier_error
identifier_error_lem plain raw =
    let parts = cut b'/' raw in
    let type = trim_space parts.before in
    let name = trim_space parts.after in
    switch (type == "") (type_matches (codes type)) parts.found (name == "")
      (ltb max_identifier_name_bytes (byte_length name)) (name_matches plain (codes name)) _ _ _ _ _
      refl refl refl refl refl (empty_type type) (empty_name plain name)
    ∙ ap
        (λ b.
          type_matches (codes type) && b && (not parts.found || name_matches plain (codes name)))
        (not_over max_identifier_name_bytes (byte_length name))

nothing_for :
    (reason : String) (known : Bool) (x y : Finding)
    → ((if not (reason == "") then x ∷ [] else if known then [] else y ∷ []) ≡ [])
      ↔ (((reason == "") ≡ true) × (known ≡ true))
nothing_for reason known x y = elim (Bool-cases (reason == "")) [
  | inl e ↦ rw e (at_known known)
  | inr e ↦ rw e ((λ h. absurd (cc (h))), (λ h. absurd (cc (h.0))))
]
  where
    at_known : (k : Bool) → ((if k then [] else y ∷ []) ≡ []) ↔ ((true ≡ true) × (k ≡ true))
    at_known true = ((λ _. (refl, refl)), (λ _. refl))
    at_known false = ((λ h. absurd (cc (h))), (λ h. absurd (cc (h.1))))

-- invalid-pipeline-key is silent exactly for the configs in which the key of every pipeline is an
-- identifier, whose parts are read without the white space around them, and names a known signal.
pub invalid_pipeline_key-nil :
    (plain : ℕ → Bool) (ctx : Context)
    → (invalid_pipeline_key plain ctx ≡ [])
      ↔ All
          (λ (p : Pipeline). (is_identifier plain p.key ≡ true) × (is_signal p.signal ≡ true))
          ctx.file.service.pipelines
unfolding invalid_pipeline_key
invalid_pipeline_key-nil plain ctx =
    let ps = ctx.file.service.pipelines in
    let loop = for_each-nil ps (pipeline_findings plain) in
    let each =
      All-iff (λ p. pipeline_findings plain p ≡ [])
        (λ (p : Pipeline). (is_identifier plain p.key ≡ true) × (is_signal p.signal ≡ true)) ps
        (λ p.
          let part = nothing_for (identifier_error plain p.key) (is_signal p.signal) _ _ in
          let same = identifier_error_lem plain p.key in
          ((λ h. (sym same ∙ (part.0 h).0, (part.0 h).1)), (λ q. part.1 (same ∙ q.0, q.1)))) in
    ((λ h. each.0 (loop.0 h)), (λ q. loop.1 (each.1 q)))
