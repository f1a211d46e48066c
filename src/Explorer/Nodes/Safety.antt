-- ===== src/Explorer/Nodes/Safety.antt =====
-- No page is touched and no URL is left to visit before the gates have passed.
use febal_automation_script.Prelude.{
  When, When-of, WhenSome, WhenSome-some, ltb, ℕ, String, ◌≡◌, refl, sym, subst, true, false, ◌||◌,
  ◌∙◌, Option, none, some, List, [], ◌∷◌, arith, All-append, Bool-cases, inl, inr, ◌⊎◌, contains,
}
use febal_automation_script.Prelude.Texts.{Text}
use febal_automation_script.Explorer.Budget.{StopReason}
use febal_automation_script.Explorer.Converge.{FrontierEntry}
use febal_automation_script.Explorer.Risk.{
  is_destructive, is_off_origin, origin, IsAllowed, is_off_origin_iff,
}
use febal_automation_script.Explorer.Actions.{
  Urls, same_origin, Element, MenuEntry, IsHome, enumerate_actions-IsHome,
}
use febal_automation_script.Explorer.Nodes.{
  is_submit_like, Crawl, target_of, goto_of, navigate, push, enumerate_node, keys_of, Acted, act,
  act_on, act_pending, gated, off_scope, next_frontier, target_of_url,
}

-- Both gates let the entry pass.
pub record HasPassed (urls : Urls) (s : Crawl) (a : MenuEntry) : Type 0 where
  pub was_pending : s.pending_action ≡ some a
  pub harmless : is_destructive a.label [] s.sandbox ≡ false
  pub in_scope : off_scope urls s.origin_allowlist a.url ≡ false

-- Whatever act does to the page, it does by the pending entry after both gates.
pub record IsGated (urls : Urls) (s : Crawl) (r : Acted) : Type 0 where
  pub probe : When r.probed ((a : MenuEntry) × HasPassed urls s a)
  pub click : WhenSome (λ i. (a : MenuEntry) × HasPassed urls s a × (a.index ≡ i)) r.clicked
  pub left : WhenSome (HasPassed urls s) r.pending_action

act_on-IsGated :
    (urls : Urls) (handles : ℕ) (s : Crawl) (a : MenuEntry) (url : Text)
    → HasPassed urls s a
    → IsGated urls s (act_on handles a url)
unfolding act_on
act_on-IsGated urls handles s a [] p = record {
  probe = When-of (is_submit_like a) (a, p);
  click = elim (Bool-cases (ltb a.index handles)) [ inl e ↦ rw e (a, p, refl) | inr e ↦ rw e tt ];
  left = tt;
}
act_on-IsGated urls handles s a (c ∷ url) p = record { probe = tt; click = tt; left = p }

nothing-IsGated :
    (urls : Urls) (s : Crawl) (r : Acted)
    → r.probed ≡ false
    → r.clicked ≡ none
    → r.pending_action ≡ none
    → IsGated urls s r
nothing-IsGated urls s r p c l = record { probe = rw p tt; click = rw c tt; left = rw l tt }

gated-IsGated :
    (urls : Urls) (handles : ℕ) (s : Crawl) (a : MenuEntry)
    → s.pending_action ≡ some a
    → IsGated urls s (gated urls handles s.sandbox s.origin_allowlist a)
unfolding gated
gated-IsGated urls handles s a pending = elim (Bool-cases (is_destructive a.label [] s.sandbox)) [
  | inl e ↦ rw e (nothing-IsGated urls s _ refl refl refl)
  | inr e ↦ rw e (elim (Bool-cases (off_scope urls s.origin_allowlist a.url)) [
    | inl f ↦ rw f (nothing-IsGated urls s _ refl refl refl)
    | inr f ↦ rw f (
        act_on-IsGated urls handles s a a.url
          (record { was_pending = pending; harmless = e; in_scope = f }))
  ])
]

-- In a run that goes on, whatever the model has picked: a form is probed, a control is clicked, and
-- an entry with a URL is left for the next navigation, only if it was the pending one and is
-- neither destructive (outside a sandbox) nor, with a URL, outside the allowed origins.
pub act-IsGated :
    (urls : Urls) (handles : ℕ) (s : Crawl)
    → s.stop_reason ≡ none
    → IsGated urls s (act urls handles s)
unfolding act act_pending
act-IsGated urls handles s live = on s.stop_reason s.pending_action live refl
  where
    on :
        (r : Option StopReason) (p : Option MenuEntry)
        → r ≡ none
        → s.pending_action ≡ p
        → IsGated urls s (act_pending urls handles s r p)
    on none none l e = nothing-IsGated urls s _ refl refl refl
    on none (some a) l e = gated-IsGated urls handles s a e
    on (some r) p l e = absurd (cc l)

-- The URL is of the target's own origin, or its origin is on the allowlist.
abbrev pub InScope : Urls → Crawl → Text → Type 0
InScope urls s url =
    (same_origin urls url s.base_url ≡ true)
    ⊎ ((o : Text) × (origin (urls.urlsplit url) ≡ some o)
        × IsAllowed urls.urlsplit s.origin_allowlist o)

goto_of-eq : (u page_url url : Text) → goto_of (some u) page_url ≡ some url → u ≡ url
unfolding goto_of
goto_of-eq [] page_url url e = cc
goto_of-eq (c ∷ u) page_url url e = ground arith

off_scope-goto :
    (urls : Urls) (allowlist : List Text) (u page_url url : Text)
    → goto_of (some u) page_url ≡ some url
    → off_scope urls allowlist u ≡ is_off_origin urls.urlsplit u allowlist
unfolding goto_of off_scope
off_scope-goto urls allowlist [] page_url url e = cc
off_scope-goto urls allowlist (c ∷ u) page_url url e = refl

passed-InScope :
    (urls : Urls) (s : Crawl) (a : MenuEntry) (page_url url : Text)
    → HasPassed urls s a
    → goto_of (some a.url) page_url ≡ some url
    → InScope urls s url
passed-InScope urls s a page_url url p e =
    let inside : is_off_origin urls.urlsplit a.url s.origin_allowlist ≡ false =
      sym (off_scope-goto urls s.origin_allowlist a.url page_url url e) ∙ p.in_scope in
    inr (
      subst
        (λ v.
          (o : Text) × (origin (urls.urlsplit v) ≡ some o)
          × IsAllowed urls.urlsplit s.origin_allowlist o)
        (goto_of-eq a.url page_url url e)
        ((is_off_origin_iff urls.urlsplit a.url s.origin_allowlist).0 inside))

home-InScope :
    (urls : Urls) (s : Crawl) (fs : List FrontierEntry) (page_url url : Text)
    → IsHome urls s.base_url fs
    → goto_of (next_frontier fs).0 page_url ≡ some url
    → InScope urls s url
unfolding next_frontier
home-InScope urls s [] page_url url h e = unfold goto_of in cc
home-InScope urls s (f ∷ fs) page_url url h e =
    inl (subst (λ v. same_origin urls v s.base_url ≡ true) (goto_of-eq f.url page_url url e) h.0)

-- The target is that of the pending entry, if it has a URL, or the head of the frontier.
target-InScope :
    (urls : Urls) (s : Crawl) (p : Option MenuEntry) (page_url url : Text)
    → ((b : MenuEntry) → p ≡ some b → HasPassed urls s b)
    → IsHome urls s.base_url s.frontier
    → goto_of (target_of p s.frontier).0 page_url ≡ some url
    → InScope urls s url
unfolding target_of
target-InScope urls s none page_url url left h e = home-InScope urls s s.frontier page_url url h e
target-InScope urls s (some b) page_url url left h e = on b.url refl e
  where
    on :
        (u : Text)
        → b.url ≡ u
        → goto_of (target_of_url u s.frontier).0 page_url ≡ some url
        → InScope urls s url
    on [] z g = home-InScope urls s s.frontier page_url url h g
    on (c ∷ u) z g = passed-InScope urls s b page_url url (left b refl) (rw z g)

IsHome-target :
    (urls : Urls) (base : Text) (p : Option MenuEntry) (fs : List FrontierEntry)
    → IsHome urls base fs
    → IsHome urls base (target_of p fs).1
unfolding target_of
IsHome-target urls base none [] h = h
IsHome-target urls base none (f ∷ fs) h = h.1
IsHome-target urls base (some b) fs h = on b.url fs h
  where
    on :
        (u : Text) (fs : List FrontierEntry)
        → IsHome urls base fs
        → IsHome urls base (target_of_url u fs).1
    on [] [] k = k
    on [] (f ∷ l) k = k.1
    on (c ∷ u) l k = k

IsHome-push :
    (urls : Urls) (base : Text) (visited : List String) (fs cs : List FrontierEntry)
    → IsHome urls base fs
    → IsHome urls base cs
    → IsHome urls base (push visited fs cs)
unfolding push
IsHome-push urls base visited fs [] h k = h
IsHome-push urls base visited fs (c ∷ cs) h k =
    elim (Bool-cases (contains visited c.key || contains (keys_of fs) c.key)) [
      | inl e ↦ rw e (IsHome-push urls base visited fs cs h k.1)
      | inr e ↦ rw e (IsHome-push urls base visited _ cs (All-append _ fs (c ∷ []) h (k.0, tt)) k.1)
    ]

-- The URL that is visited, if there is one, is in scope.
abbrev pub VisitsInScope : Urls → Crawl → Option Text → Type 0
VisitsInScope urls s none = Unit
VisitsInScope urls s (some url) = InScope urls s url

VisitsInScope-goto :
    (urls : Urls) (s : Crawl) (visit : Option Text)
    → ((url : Text) → visit ≡ some url → InScope urls s url)
    → VisitsInScope urls s visit
VisitsInScope-goto urls s none h = tt
VisitsInScope-goto urls s (some url) h = h url refl

-- From a frontier of the target's own origin, act and the navigation that follows it visit only URLs
-- of that origin or of an origin on the allowlist, whatever the model has picked, and the
-- enumeration of the page, wherever the visit has landed, keeps the frontier within the origin.
pub lap_in_scope :
    (urls : Urls) (land : Text → Text) (page_url landed_url : Text) (handles : ℕ)
    (elements : List (Option Element)) (s : Crawl)
    → s.stop_reason ≡ none
    → IsHome urls s.base_url s.frontier
    → let acted = record s { pending_action = (act urls handles s).pending_action } in
      let (visit, t) = navigate urls land page_url acted in
      VisitsInScope urls s visit
      × IsHome urls s.base_url (enumerate_node urls landed_url elements t).frontier
unfolding navigate enumerate_node
lap_in_scope urls land page_url landed_url handles elements s live h =
    let p = (act urls handles s).pending_action in
    (
      VisitsInScope-goto urls s (goto_of (target_of p s.frontier).0 page_url) (λ url e.
          target-InScope urls s p page_url url
            (WhenSome-some (HasPassed urls s) p (act-IsGated urls handles s live).left) h e),
      IsHome-push urls s.base_url _ _ _ (IsHome-target urls s.base_url p s.frontier h)
          (enumerate_actions-IsHome urls landed_url s.base_url 0 elements),
    )
