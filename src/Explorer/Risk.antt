-- ===== src/Explorer/Risk.antt =====
-- The deny-list and the origin allowlist (services/explorer/risk.py). `urlsplit` is Python's, taken
-- as a parameter: it gives a scheme, a network location and a path.
use febal_automation_script.Prelude.{
  Any, here, there, ◌≡◌, refl, sym, ap, Bool, true, false, ◌||◌, not, Option, none, some, List, [],
  ◌∷◌, ◌++◌, arith, any, or-true, inl, inr, if◌then◌else◌,
}
use febal_automation_script.Prelude.Texts.{
  Text, codes, lower, text_eq, text_eq-eq, text_eq_refl, is_part, is_part-split, is_part-append,
}

pub record Url : Type 0 where
  pub scheme : Text
  pub netloc : Text
  pub path : Text

abbrev pub deny_verbs : List Text
deny_verbs =
    codes "delete"
    ∷ codes "remove"
    ∷ codes "destroy"
    ∷ codes "send"
    ∷ codes "pay"
    ∷ codes "purchase"
    ∷ codes "checkout"
    ∷ codes "submit order"
    ∷ codes "place order"
    ∷ codes "logout"
    ∷ codes "sign out"
    ∷ codes "cancel subscription"
    ∷ codes "deactivate"
    ∷ codes "wipe"
    ∷ codes "reset"
    ∷ []

-- `f"{label} {confirm_text}".lower()`
abbrev pub risk_text : Text → Text → Text
risk_text label confirm_text = lower (label ++ (codes " " ++ confirm_text))

unfoldable pub is_destructive : Text → Text → Bool → Bool
is_destructive label confirm_text sandbox =
    if sandbox then false else any (λ verb. is_part verb (risk_text label confirm_text)) deny_verbs

is_empty : Text → Bool
is_empty [] = true
is_empty (c ∷ s) = false

unfoldable pub origin : Url → Option Text
unfolding is_empty
origin u =
    if is_empty u.scheme || is_empty u.netloc
    then none
    else some (lower u.scheme ++ (codes "://" ++ lower u.netloc))

same_text : Text → Option Text → Bool
same_text o none = false
same_text o (some a) = text_eq o a

off_list : Option Text → List (Option Text) → Bool
unfolding same_text
off_list none allowed = true
off_list (some o) allowed = not (any (same_text o) allowed)

origins : (Text → Url) → List Text → List (Option Text)
unfolding origin
origins urlsplit [] = []
origins urlsplit (a ∷ as') = origin (urlsplit a) ∷ origins urlsplit as'

unfoldable pub is_off_origin : (Text → Url) → Text → List Text → Bool
unfolding origin off_list origins
is_off_origin urlsplit url allowlist = off_list (origin (urlsplit url)) (origins urlsplit allowlist)

any-Any : {A : Type 0} (p : A → Bool) (l : List A) → any p l ≡ true → Any (λ a. p a ≡ true) l
any-Any p [] h = cc
any-Any p (a ∷ l) h = elim (or-true (p a) (any p l) h) [
  | inl e ↦ here e
  | inr e ↦ there (any-Any p l e)
]

Any-any : {A : Type 0} (p : A → Bool) (l : List A) → Any (λ a. p a ≡ true) l → any p l ≡ true
Any-any p [] m = elim m [ ]
Any-any p (a ∷ l) (here e) = ground arith
Any-any p (a ∷ l) (there m) = ground (arith, Any-any p l m)

-- The verb stands somewhere in the text.
abbrev pub StandsIn : Text → Text → Type 0
StandsIn text verb = (p s : Text) × (text ≡ p ++ (verb ++ s))

Any-map : {A : Type 0} {P Q : A → Type 0} (f : (a : A) → P a → Q a) (l : List A) → Any P l → Any Q l
Any-map f [] m = elim m [ ]
Any-map f (a ∷ l) (here h) = here (f a h)
Any-map f (a ∷ l) (there m) = there (Any-map f l m)

-- Outside a sandbox an action is refused if and only if a verb of the deny-list stands in its label
-- or its confirmation text, in whatever case and whatever stands around it.
pub is_destructive_iff :
    (label confirm_text : Text)
    → (is_destructive label confirm_text false ≡ true
        → Any (StandsIn (risk_text label confirm_text)) deny_verbs)
      × (Any (StandsIn (risk_text label confirm_text)) deny_verbs
          → is_destructive label confirm_text false ≡ true)
unfolding is_destructive
is_destructive_iff label confirm_text =
    let text = risk_text label confirm_text in
    (
      λ h.
          Any-map {P = λ v. is_part v text ≡ true} (λ v e. is_part-split v text e) deny_verbs
            (any-Any (λ v. is_part v text) deny_verbs h),
      λ m.
          Any-any (λ v. is_part v text) deny_verbs
            (Any-map {P = StandsIn text} {Q = λ v. is_part v text ≡ true}
              (λ v (p, s, e). rw e (is_part-append p v s)) deny_verbs m),
    )

-- The origin of a member of the allowlist.
abbrev pub IsAllowed : (Text → Url) → List Text → Text → Type 0
IsAllowed urlsplit allowlist o = Any (λ a. origin (urlsplit a) ≡ some o) allowlist

same_text-eq : (o : Text) (a : Option Text) → same_text o a ≡ true → a ≡ some o
unfolding same_text
same_text-eq o none h = cc
same_text-eq o (some t) h = ap some (sym (text_eq-eq o t h))

any-IsAllowed :
    (urlsplit : Text → Url) (o : Text) (allowlist : List Text)
    → any (same_text o) (origins urlsplit allowlist) ≡ true
    → IsAllowed urlsplit allowlist o
unfolding origins
any-IsAllowed urlsplit o [] h = cc
any-IsAllowed urlsplit o (a ∷ l) h = elim (or-true (same_text o (origin (urlsplit a))) _ h) [
  | inl e ↦ here (same_text-eq o (origin (urlsplit a)) e)
  | inr e ↦ there (any-IsAllowed urlsplit o l e)
]

IsAllowed-any :
    (urlsplit : Text → Url) (o : Text) (allowlist : List Text)
    → IsAllowed urlsplit allowlist o
    → any (same_text o) (origins urlsplit allowlist) ≡ true
unfolding origins same_text
IsAllowed-any urlsplit o [] m = elim m [ ]
IsAllowed-any urlsplit o (a ∷ l) (here e) = rw (e, text_eq_refl o) refl
IsAllowed-any urlsplit o (a ∷ l) (there m) = ground (arith, IsAllowed-any urlsplit o l m)

off_list-false :
    (o : Option Text) (allowed : List (Option Text))
    → off_list o allowed ≡ false
    → (t : Text) × (o ≡ some t) × (any (same_text t) allowed ≡ true)
unfolding off_list
off_list-false none allowed h = cc
off_list-false (some t) allowed h = (t, refl, ground arith)

-- A URL is in scope if and only if it has an origin, a scheme and a network location in lower case,
-- that is also the origin of an entry of the allowlist.
pub is_off_origin_iff :
    (urlsplit : Text → Url) (url : Text) (allowlist : List Text)
    → (is_off_origin urlsplit url allowlist ≡ false
        → (o : Text) × (origin (urlsplit url) ≡ some o) × IsAllowed urlsplit allowlist o)
      × ((o : Text) × (origin (urlsplit url) ≡ some o) × IsAllowed urlsplit allowlist o
          → is_off_origin urlsplit url allowlist ≡ false)
unfolding is_off_origin
is_off_origin_iff urlsplit url allowlist = (
  λ h.
      let (o, e, m) = off_list-false (origin (urlsplit url)) (origins urlsplit allowlist) h in
      (o, e, any-IsAllowed urlsplit o allowlist m),
  λ (o, e, m). rw e (ap not (IsAllowed-any urlsplit o allowlist m)),
)
