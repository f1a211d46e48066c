-- ===== src/Defects/Classify.antt =====
-- The class of a failure: services/defects/classifier.py and infra_health.py. The patterns that are
-- plain texts are searched without regard to case; the other regular expressions are parameters.
pub mod Rules
use febal_automation_script.Prelude.{
  ℕ, ◌-◌, String, Bool, true, false, ◌&&◌, ◌||◌, not, Option, none, some, List, [], ◌∷◌, ◌++◌, any,
  count, if◌then◌else◌,
}
use febal_automation_script.Prelude.Texts.{Text, codes, lower, is_part}
use febal_automation_script.Prelude.Int.{ℤ, pos, negsuc, ◌+ℤ◌, ◌*ℤ◌, clamp_100}
use febal_automation_script.Worker.Classifier.{HealOutcome, quarantine, fail_as_defect}

-- Python's `re` on the three patterns that are no plain texts.
pub record Patterns : Type 0 where
  pub timed_out : Text → Bool
  pub locator : Text → Bool
  pub product : Text → Bool

abbrev pub search_any : List String → Text → Bool
search_any patterns error_text = any (λ p. is_part (lower (codes p)) (lower error_text)) patterns

abbrev pub down_patterns : List String
down_patterns =
    "ERR_CONNECTION_REFUSED" ∷ "ECONNREFUSED" ∷ "net::ERR_NAME_NOT_RESOLVED"
    ∷ "ERR_NAME_NOT_RESOLVED" ∷ "getaddrinfo" ∷ "name or service not known" ∷ "connection refused"
    ∷ "connection reset" ∷ "could not reach" ∷ "could not connect" ∷ "net::ERR_" ∷ []

pub data Health : Type 0 where
  down up unknown : Health

-- `page_loaded` is false when it is not known.
unfoldable pub infra_health : Patterns → Text → Bool → Health
infra_health re [] page_loaded = unknown
infra_health re (c ∷ s) page_loaded =
    if search_any down_patterns (c ∷ s)
    then down
    else if re.timed_out (c ∷ s) && not page_loaded
    then down
    else up

abbrev pub is_down : Health → Bool
is_down down = true
is_down _ = false

-- The page has loaded unless the text shows that it never reached the target.
unfoldable pub page_loaded : Patterns → Text → Bool
page_loaded re error_text = not (is_down (infra_health re error_text false))

abbrev pub infra_patterns : List String
infra_patterns =
    "Target closed" ∷ "browser has been closed" ∷ "crash" ∷ "net::ERR_" ∷ "ERR_CONNECTION_REFUSED"
    ∷ "ECONNREFUSED" ∷ "ERR_NAME_NOT_RESOLVED" ∷ "getaddrinfo" ∷ "connection refused" ∷ []

abbrev pub has_infra_signature : Text → Bool
has_infra_signature error_text = search_any infra_patterns error_text

pub data Class : Type 0 where
  infrastructure automation product_defect : Class

-- A signal that fired; its prefix is its class.
pub data Signal : Type 0 where
  signal : Class → String → Signal

pub record Evidence : Type 0 where
  pub error_text : Text
  pub page_loaded : Bool
  pub heal_outcome : Option HealOutcome
  pub infra_health : Option Health

abbrev pub is_unhealed : Option HealOutcome → Bool
is_unhealed (some fail_as_defect) = true
is_unhealed (some quarantine) = true
is_unhealed _ = false

abbrev pub heal_signal : Option HealOutcome → String
heal_signal (some quarantine) = "heal-quarantine"
heal_signal _ = "heal-fail_as_defect"

abbrev pub if_cited : Bool → Class → String → List Signal
if_cited b cls name = if b then signal cls name ∷ [] else []

unfoldable pub or_default : List Signal → List Signal
or_default [] = signal product_defect "default" ∷ []
or_default (s ∷ cited) = s ∷ cited

abbrev pub health_of : Patterns → Evidence → Health
health_of re e = elim e.infra_health [
  | none ↦ infra_health re e.error_text e.page_loaded
  | some h ↦ h
]

unfoldable pub classify_rules : Patterns → Evidence → Class × List Signal
unfolding or_default
classify_rules re e =
    let is_health_down = is_down (health_of re e) in
    if has_infra_signature e.error_text
    then (
      infrastructure,
      signal infrastructure "error-signature"
          ∷ if_cited is_health_down infrastructure "health-down",
    )
    else if is_health_down
    then (infrastructure, signal infrastructure "health-down" ∷ [])
    else if re.timed_out e.error_text && not e.page_loaded
    then (infrastructure, signal infrastructure "timeout-never-loaded" ∷ [])
    else if is_unhealed e.heal_outcome
    then (
      automation,
      signal automation (heal_signal e.heal_outcome)
            ∷ if_cited (re.locator e.error_text) automation "locator-miss"
          ++ if_cited e.page_loaded automation "page-loaded",
    )
    else (
      product_defect,
      or_default (
          if_cited (re.product e.error_text) product_defect "assertion-or-api"
          ++ if_cited e.page_loaded product_defect "page-loaded"),
    )

pub record ClassifierWeights : Type 0 where
  pub strong_class_signal : ℤ
  pub corroborating_signal : ℤ
  pub weak_or_conflicting : ℤ

abbrev pub default_weights : ClassifierWeights
default_weights = record {
  strong_class_signal = pos 60;
  corroborating_signal = pos 20;
  weak_or_conflicting = negsuc 14;
}

abbrev pub same_class : Class → Class → Bool
same_class infrastructure infrastructure = true
same_class automation automation = true
same_class product_defect product_defect = true
same_class _ _ = false

abbrev pub class_of : Signal → Class
class_of (signal cls name) = cls

unfoldable pub corroboration : Class → List Signal → ℕ
corroboration cls cited = count (λ s. same_class cls (class_of s)) cited - 1

unfoldable pub conflict : Class → List Signal → ℕ
conflict cls cited = count (λ s. not (same_class cls (class_of s))) cited

pub record Classified : Type 0 where
  pub classification : Class
  pub confidence : ℕ
  pub cited : List Signal

unfoldable pub classify : Patterns → Evidence → ClassifierWeights → Classified
classify re e w =
    let (cls, cited) = classify_rules re e in
    record {
      classification = cls;
      confidence = clamp_100 (
          w.strong_class_signal
          +ℤ w.corroborating_signal *ℤ corroboration cls cited
          +ℤ w.weak_or_conflicting *ℤ conflict cls cited);
      cited = cited;
    }
