-- ===== src/Permissions/Controller/Session.antt =====
-- The rules of the session after the choices of the user.
use mew_code.Prelude.{
  ◌≡◌, ◌≢◌, refl, ap, sym, ◌∙◌, Bool, true, false, Option, none, some, List, [], ◌∷◌, ◌++◌, any, ok,
  arith, Bool-cases, inl, inr, ==_self, Outcome, err, >>=-eq-ok, ok-injective, if_ind,
  if◌then◌else◌,
}
use mathlib.Core.Path.{subst}
use mew_code.Prelude.Text.{text_eq}
use mew_code.Prelude.Dict.Laws.{All, All-snoc}
use mew_code.Glob.{Platform, escape_exact_glob}
use mew_code.Permissions.Models.{
  PermissionChoice, PermissionDecision, PermissionMatch, PermissionMode, PermissionOutcome,
  PermissionRule, PermissionRuleSets, PermissionSource, PermissionTarget,
}
use mew_code.Permissions.Rules.{
  denies, match_rules, match_layers, candidates, winner, same_rule, add_session_allow, RuleFailure,
  persist_project_local_allow,
}
use mew_code.Permissions.Rules.Winner.{winner-Mem, All-Mem}
use mew_code.Permissions.Rules.Exact.{
  IsNamed, ReadsLiterals, AllowsText, exact_allow, exact_rule-parse_permission_rule,
  candidates-AllowsText,
}
use mew_code.Permissions.Controller.{
  decision, matched, evaluate_preflight, apply_choice, choose, choice_raised, is_ask,
}

-- The rules of the session only let texts through.
abbrev pub IsSession : PermissionRuleSets → Type 0
IsSession sets = All AllowsText sets.session

same_rule_self :
    (target : PermissionTarget) → same_rule (exact_allow target) (exact_allow target) ≡ true
unfolding same_rule
same_rule_self target = rw (==_self target.tool_name, ==_self (escape_exact_glob target.value)) refl

any-last :
    (p : PermissionRule → Bool) (rs : List PermissionRule) (r : PermissionRule)
    → p r ≡ true
    → any p (rs ++ r ∷ []) ≡ true
unfolding any
any-last p [] r h = rw h refl
any-last p (x ∷ rs) r h = ground (arith, any-last p rs r h)

-- Adding the rule of a target keeps the rules of the session as they should be, and the target's own
-- is among them.
add_session_allow-IsSession :
    (target : PermissionTarget) (sets : PermissionRuleSets)
    → IsNamed target
    → IsSession sets
    → (added : PermissionRuleSets) × (add_session_allow target sets ≡ ok added)
      × IsSession added
      × (any (same_rule (exact_allow target)) added.session ≡ true)
unfolding add_session_allow
add_session_allow-IsSession target sets named h =
    rw (exact_rule-parse_permission_rule target named)
      (elim (Bool-cases (any (same_rule (exact_allow target)) sets.session)) [
        | inl there ↦ (sets, rw there refl, h, there)
        | inr new ↦ (
          record sets { session = sets.session ++ exact_allow target ∷ [] },
          rw new refl,
          All-snoc AllowsText sets.session (exact_allow target) h (refl, target.value, refl),
          any-last (same_rule (exact_allow target)) sets.session (exact_allow target)
              (same_rule_self target),
        )
      ])

-- With a rule of the session that matches, the session decides.
session_match :
    (platform : Platform) (target : PermissionTarget) (sets : PermissionRuleSets)
    (r : PermissionRule) (rs : List PermissionRule)
    → candidates platform target sets.session ≡ ok (r ∷ rs)
    → match_rules platform target sets
      ≡ ok (some (record { rule = winner r rs; source = PermissionSource.session_rule }))
unfolding match_rules match_layers
session_match platform target sets r rs e = rw e refl

matched_session :
    (mode : PermissionMode) (target : PermissionTarget) (r : PermissionRule)
    → denies r ≡ false
    → matched mode target (record { rule = r; source = PermissionSource.session_rule })
      ≡ decision PermissionOutcome.allow target PermissionSource.session_rule
          (some (record { rule = r; source = PermissionSource.session_rule }))
unfolding matched
matched_session mode target r h = rw h refl

-- With the target's own rule in the session, the target is allowed in every mode.
session_rule_allows :
    (platform : Platform) (mode : PermissionMode) (sets : PermissionRuleSets)
    (target : PermissionTarget)
    → ReadsLiterals platform
    → IsSession sets
    → any (same_rule (exact_allow target)) sets.session ≡ true
    → (m : PermissionMatch) × (evaluate_preflight platform mode sets target
        ≡ ok (decision PermissionOutcome.allow target PermissionSource.session_rule (some m)))
unfolding evaluate_preflight
session_rule_allows platform mode sets target re h there =
    let (found, e, allow, some_rule) = candidates-AllowsText platform target sets.session re h in
    decided found e allow (some_rule there)
  where
    decided :
        (found : List PermissionRule)
        → candidates platform target sets.session ≡ ok found
        → All (λ r. denies r ≡ false) found
        → found ≢ []
        → (m : PermissionMatch) × (evaluate_preflight platform mode sets target
            ≡ ok (decision PermissionOutcome.allow target PermissionSource.session_rule (some m)))
    decided [] e allow first = absurd (first refl)
    decided (r ∷ rs) e allow first =
        let good = All-Mem (λ r. denies r ≡ false) (r ∷ rs) allow (winner-Mem r rs) in
        (
          record { rule = winner r rs; source = PermissionSource.session_rule },
          rw (session_match platform target sets r rs e)
              (ap ok (matched_session mode target (winner r rs) good)),
        )

-- The rules after further asks about targets whose rules can be written, whatever the user chose.
pub data Chosen (sets : PermissionRuleSets) : PermissionRuleSets → Type 0 where
  here : Chosen sets sets
  next :
      {before after : PermissionRuleSets} (persisted : Option (List PermissionRule))
      (d d' : PermissionDecision) (asked : PermissionTarget) (choice : PermissionChoice)
      → Chosen sets before
      → d.target ≡ some asked
      → IsNamed asked
      → apply_choice persisted d choice before ≡ ok (d', after)
      → Chosen sets after

-- The session has the rule, among rules that only let texts through.
abbrev HasRule : PermissionTarget → PermissionRuleSets → Type 0
HasRule target sets = IsSession sets × (any (same_rule (exact_allow target)) sets.session ≡ true)

any-append :
    (p : PermissionRule → Bool) (rs qs : List PermissionRule)
    → any p rs ≡ true
    → any p (rs ++ qs) ≡ true
unfolding any
any-append p [] qs h = absurd cc
any-append p (x ∷ rs) qs h = elim (Bool-cases (p x)) [
  | inl holds ↦ rw holds refl
  | inr fails ↦ ground (arith, any-append p rs qs)
]

add_session_allow-HasRule :
    (target asked : PermissionTarget) (sets added : PermissionRuleSets)
    → IsNamed asked
    → HasRule target sets
    → add_session_allow asked sets ≡ ok added
    → HasRule target added
unfolding add_session_allow
add_session_allow-HasRule target asked sets added named (h, there) e =
    let (kept, e', session, _) = add_session_allow-IsSession asked sets named h in
    let same : kept ≡ added = ok-injective (sym e' ∙ e) in
    let put : (if any (same_rule (exact_allow asked)) sets.session
          then sets
          else record sets { session = sets.session ++ exact_allow asked ∷ [] })
        ≡ added =
      ok-injective (sym (rw (exact_rule-parse_permission_rule asked named) refl) ∙ e) in
    (
      subst IsSession same session,
      subst (λ z. any (same_rule (exact_allow target)) z.session ≡ true) put
          (if_ind {A = PermissionRuleSets}
            (λ z. any (same_rule (exact_allow target)) z.session ≡ true)
            (any (same_rule (exact_allow asked)) sets.session) (λ _. there)
            (λ _. any-append _ sets.session (exact_allow asked ∷ []) there)),
    )

choice_raised-eq-ok :
    {A : Type 0} (m : Outcome RuleFailure A) (a : A) → choice_raised m ≡ ok a → m ≡ ok a
choice_raised-eq-ok (ok b) a h = ap ok (ok-injective h)
choice_raised-eq-ok (err e) a h = absurd cc

choose-HasRule :
    (target asked : PermissionTarget) (persisted : Option (List PermissionRule))
    (match : Option PermissionMatch) (choice : PermissionChoice) (before after : PermissionRuleSets)
    (d' : PermissionDecision)
    → IsNamed asked
    → HasRule target before
    → choose persisted asked match choice before ≡ ok (d', after)
    → HasRule target after
unfolding choose
choose-HasRule target asked p match PermissionChoice.deny before after d' named h e =
    subst (HasRule target) (ap (λ z. z.1) (ok-injective e)) h
choose-HasRule target asked p match PermissionChoice.once before after d' named h e =
    subst (HasRule target) (ap (λ z. z.1) (ok-injective e)) h
choose-HasRule target asked p match PermissionChoice.session before after d' named h e =
    let (added, put, chosen) = >>=-eq-ok (add_session_allow asked before) _ e in
    subst (HasRule target) (ap (λ z. z.1) (ok-injective chosen))
      (add_session_allow-HasRule target asked before added named h put)
choose-HasRule target asked none match PermissionChoice.permanent before after d' named h e =
    subst (HasRule target) (ap (λ z. z.1) (ok-injective e)) h
choose-HasRule target asked (some updated) match PermissionChoice.permanent before after d' named h
      e =
    let stored = persist_project_local_allow updated before in
    let (added, put, chosen) = >>=-eq-ok (add_session_allow asked stored) _ e in
    subst (HasRule target) (ap (λ z. z.1) (ok-injective chosen))
      (add_session_allow-HasRule target asked stored added named h put)

apply_choice-HasRule :
    (target asked : PermissionTarget) (persisted : Option (List PermissionRule))
    (d d' : PermissionDecision) (choice : PermissionChoice) (before after : PermissionRuleSets)
    → d.target ≡ some asked
    → IsNamed asked
    → HasRule target before
    → apply_choice persisted d choice before ≡ ok (d', after)
    → HasRule target after
unfolding apply_choice
apply_choice-HasRule target asked persisted d d' choice before after about named h e =
    elim (Bool-cases (is_ask d.outcome)) [
      | inr other ↦ absurd (ground arith)
      | inl asks ↦
          let chosen : choice_raised (choose persisted asked d.match choice before)
              ≡ ok (d', after) =
            sym (rw (asks, about) refl) ∙ e in
          choose_keeps persisted choice (choice_raised-eq-ok _ _ chosen)
    ]
  where
    choose_keeps :
        (persisted : Option (List PermissionRule)) (choice : PermissionChoice)
        → choose persisted asked d.match choice before ≡ ok (d', after)
        → HasRule target after
    choose_keeps persisted choice q =
        choose-HasRule target asked persisted d.match choice before after d' named h q

Chosen-HasRule :
    (target : PermissionTarget) (sets later : PermissionRuleSets)
    → HasRule target sets
    → Chosen sets later
    → HasRule target later
Chosen-HasRule target sets _ h Chosen.here = h
Chosen-HasRule target sets later h
      (Chosen.next {before} persisted d d' asked choice r about named e) =
    apply_choice-HasRule target asked persisted d d' choice before later about named
      (Chosen-HasRule target sets before h r) e

-- The rules with the target's own among those of the session.
abbrev pub with_session_rule : PermissionTarget → PermissionRuleSets → PermissionRuleSets
with_session_rule target sets =
    if any (same_rule (exact_allow target)) sets.session
    then sets
    else record sets { session = sets.session ++ exact_allow target ∷ [] }

add_session_allow-eq :
    (target : PermissionTarget) (sets : PermissionRuleSets)
    → IsNamed target
    → add_session_allow target sets ≡ ok (with_session_rule target sets)
unfolding add_session_allow
add_session_allow-eq target sets named = rw (exact_rule-parse_permission_rule target named) refl

-- Where the user answers an ask with "for this session", the call is allowed, and the target's rule is
-- added to the rules of the session, if they have it not; from then on, after any further answers to
-- asks about targets whose rules can be written, the same target is allowed in every mode by a rule of
-- the session. The rules of the session only let texts through, the name of the tool has no bracket and
-- no outer space, the value is not empty, and `re` reads escaped texts as they stand.
pub apply_choice_session :
    (platform : Platform) (mode : PermissionMode) (sets later : PermissionRuleSets)
    (persisted : Option (List PermissionRule)) (d : PermissionDecision) (target : PermissionTarget)
    → ReadsLiterals platform
    → IsNamed target
    → IsSession sets
    → d.outcome ≡ PermissionOutcome.ask
    → d.target ≡ some target
    → Chosen (with_session_rule target sets) later
    → (apply_choice persisted d PermissionChoice.session sets
        ≡ ok (
          decision PermissionOutcome.allow target PermissionSource.user_confirmation d.match,
          with_session_rule target sets,
        ))
      × ((m : PermissionMatch) × (evaluate_preflight platform mode later target
            ≡ ok (decision PermissionOutcome.allow target PermissionSource.session_rule (some m))))
unfolding apply_choice choose
apply_choice_session platform mode sets later persisted d target re named h asks about r =
    let (added, e, session, there) = add_session_allow-IsSession target sets named h in
    let put = add_session_allow-eq target sets named in
    let same : added ≡ with_session_rule target sets = ok-injective (sym e ∙ put) in
    let (kept, still) =
      Chosen-HasRule target (with_session_rule target sets) later
        (subst (HasRule target) same (session, there)) r in
    (rw (asks, about, put) refl, session_rule_allows platform mode later target re kept still)
