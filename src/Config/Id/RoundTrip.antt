-- ===== src/Config/Id/RoundTrip.antt =====
-- `ParseID` and `ID.String` are inverse on the identifiers that `ParseID` makes.
use text.Mathlib.TextLemmas.{nil-append, cons-append}
use otelcol_config_lint.Base.{String, ◌≡◌, refl, sym, inl, inr, ◌==◌, Bool-cases, beq→eq, string_eq}
use otelcol_config_lint.Base.Text.{
  trim_space, cut, Free, Free-trim_space, Free-cut, cut-Free, cut_joined, trim_space_idem,
}
use otelcol_config_lint.Config.Id.{ComponentId, parse_id, id_text}

-- The identifiers that `ParseID` makes: no slash in the type, and no space at an end.
pub record IsCanonical (id : ComponentId) : Type 0 where
  pub no_slash : Free b'/' id.type
  pub type_trimmed : trim_space id.type ≡ id.type
  pub name_trimmed : trim_space id.name ≡ id.name

pub parse_id-IsCanonical : (s : String) → IsCanonical (parse_id s)
unfolding parse_id
parse_id-IsCanonical s = record {
  no_slash = Free-trim_space b'/' (cut b'/' s).before (Free-cut b'/' s);
  type_trimmed = trim_space_idem (cut b'/' s).before;
  name_trimmed = trim_space_idem (cut b'/' s).after;
}

-- An identifier that is canonical is read back from the text that it is printed as.
pub parse_id-id_text : (id : ComponentId) → IsCanonical id → parse_id (id_text id) ≡ id
unfolding parse_id id_text trim_space
parse_id-id_text id c = elim (Bool-cases (id.name == "")) [
  | inl e ↦
      rw (e, cut-Free b'/' id.type c.no_slash)
        (λ i. record { type = c.type_trimmed i; name = sym (beq→eq id.name "" e) i })
  | inr e ↦
      rw (e, cons-append, nil-append, cut_joined b'/' id.type _ id.name c.no_slash refl)
        (λ i. record { type = c.type_trimmed i; name = c.name_trimmed i })
]
