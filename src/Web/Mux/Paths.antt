-- ===== src/Web/Mux/Paths.antt =====
-- The paths of internal/web/routes/routes.go as texts: when two of them differ.
use Prim.Native.String.append
use Prim.Native.String.{◌++◌, len}
use text.Mathlib.Text.{starts_with}
use text.Mathlib.TextPositions.{slice-append_left}
use text.Mathlib.TextLemmas.{append_assoc}
use text.Mathlib.TextEquality.{starts_with_iff}
use go_auth_refresh_template.Base.{
  String, Bool, true, false, ◌≡◌, ◌≢◌, refl, arith, sym, ◌∙◌, ap, inl, inr, Bool-cases, ==_iff,
  ◌==◌, text_key, ◌||◌,
}
use go_auth_refresh_template.Web.Mux.{ends_in_slash}

or_true : (a : Bool) → a || true ≡ true
or_true true = refl
or_true false = refl

ends_in_slash-append : (s : String) → ends_in_slash (s ++ "/") ≡ true
ends_in_slash-append String.[] = refl
ends_in_slash-append (String.◌∷◌ c s) =
    ap ends_in_slash (append.cons c s "/") ∙ rw (ends_in_slash-append s) (or_true _)

-- A text that does not end in a slash is no text with a slash after it.
pub not_with_slash : (s t : String) → ends_in_slash t ≡ false → ((s ++ "/") == t) ≡ false
not_with_slash s t h = elim (Bool-cases ((s ++ "/") == t)) [
  | inl e ↦
      let same : ends_in_slash (s ++ "/") ≡ ends_in_slash t =
        ap ends_in_slash ((==_iff (s ++ "/") t).0 e) in
      let impossible : true ≡ false = sym (ends_in_slash-append s) ∙ same ∙ h in ground arith
  | inr e ↦ e
]

-- Texts that begin with different texts of one length.
heads_differ : (x y s t : String) → len x ≡ len y → x ≢ y → x ++ s ≢ y ++ t
heads_differ x y s t same differ h =
    let left = slice-append_left x s in
    let right = slice-append_left y t in differ (sym left ∙ (rw (h, same) right))

not_equal : (x y s t : String) → len x ≡ len y → x ≢ y → ((x ++ s) == (y ++ t)) ≡ false
not_equal x y s t same differ = elim (Bool-cases ((x ++ s) == (y ++ t))) [
  | inl e ↦ absurd (heads_differ x y s t same differ ((==_iff (x ++ s) (y ++ t)).0 e))
  | inr e ↦ e
]

not_prefix : (x y s t : String) → len x ≡ len y → x ≢ y → starts_with (x ++ s) (y ++ t) ≡ false
not_prefix x y s t same differ = elim (Bool-cases (starts_with (x ++ s) (y ++ t))) [
  | inl e ↦
      let (u, whole) = (starts_with_iff (x ++ s) (y ++ t)).0 e in
      absurd (heads_differ x y s (t ++ u) same differ (sym whole ∙ append_assoc y t u))
  | inr e ↦ e
]

heads : ◌≢◌ {A = String} "/u" "/s"
heads h = let equal : false ≡ true = (==_iff {K = String} "/u" "/s").1 h in ground arith

pub not_swagger :
    (id : String)
    → (("/user/" ++ id == "/swagger") ≡ false)
      × (starts_with ("/user/" ++ id) "/swagger/" ≡ false)
      × (("/user/" ++ id == "/swagger/openapi.yaml") ≡ false)
not_swagger id =
    let whole : "/user/" ++ id ≡ "/u" ++ ("ser/" ++ id) = append_assoc "/u" "ser/" id in
    (
      rw whole (not_equal "/u" "/s" ("ser/" ++ id) "wagger" refl heads),
      rw whole (not_prefix "/u" "/s" ("ser/" ++ id) "wagger/" refl heads),
      rw whole (not_equal "/u" "/s" ("ser/" ++ id) "wagger/openapi.yaml" refl heads),
    )
