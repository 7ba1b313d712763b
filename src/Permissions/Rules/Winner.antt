-- ===== src/Permissions/Rules/Winner.antt =====
-- Which rule decides: the greatest matching rule of the first layer that has one.
use mathlib.Core.Path.{subst}
use mathlib.Core.List.{Memᴰ}
use mew_code.Prelude.{
  ◌≡◌, refl, sym, ap, ◌∙◌, Bool, true, false, some, List, [], ◌∷◌, nat_eq, ok, ok-injective,
  if◌then◌else◌, arith, Bool-cases, Outcome-cases, ◌⊎◌, inl, inr,
}
use mew_code.Prelude.Text.{text_eq}
use mew_code.Prelude.Dict.Laws.{All}
use mew_code.Glob.{Platform}
use mew_code.Permissions.Models.{
  PermissionMatch, PermissionRule, PermissionRuleSets, PermissionTarget, RuleScope,
}
use mew_code.Permissions.Rules.{
  rule_matches, candidates, key_less, winner, source_by_scope, Layers, layers, match_layers,
  match_rules,
}

key_less_irrefl : (a : PermissionRule) → key_less a a ≡ false
unfolding key_less
key_less_irrefl a = ground arith

key_less_trans :
    (a b c : PermissionRule) → key_less a b ≡ true → key_less b c ≡ true → key_less a c ≡ true
unfolding key_less
key_less_trans a b c h k = ground arith

key_less_neg :
    (a b c : PermissionRule) → key_less a b ≡ false → key_less b c ≡ false → key_less a c ≡ false
unfolding key_less
key_less_neg a b c h k = ground arith

-- Anything that is not below the winner of a pair is below neither of the two.
key_less-step :
    (w best rule : PermissionRule)
    → key_less w (if key_less best rule then rule else best) ≡ false
    → (key_less w best ≡ false) × (key_less w rule ≡ false)
key_less-step w best rule h = elim (Bool-cases (key_less best rule)) [
  | inl up ↦
      let above : key_less w rule ≡ false = ground arith in
      (ground (arith, key_less_trans w best rule), above)
  | inr stay ↦
      let above : key_less w best ≡ false = ground arith in
      (above, key_less_neg w best rule above stay)
]

-- No rule has a greater key than the winner.
winner-greatest :
    (best : PermissionRule) (rules : List PermissionRule)
    → All (λ r. key_less (winner best rules) r ≡ false) (best ∷ rules)
unfolding winner
winner-greatest best [] = (key_less_irrefl best, tt)
winner-greatest best (rule ∷ rules) =
    let rest = winner-greatest (if key_less best rule then rule else best) rules in
    let (above, under) = key_less-step _ best rule rest.0 in (above, (under, rest.1))

pub winner-Mem :
    (best : PermissionRule) (rules : List PermissionRule) → Memᴰ (winner best rules) (best ∷ rules)
unfolding winner
winner-Mem best [] = Memᴰ.head refl
winner-Mem best (rule ∷ rules) =
    one_of (Bool-cases (key_less best rule))
      (winner-Mem (if key_less best rule then rule else best) rules)
  where
    one_of :
        {w : PermissionRule}
        → (key_less best rule ≡ true) ⊎ (key_less best rule ≡ false)
        → Memᴰ w ((if key_less best rule then rule else best) ∷ rules)
        → Memᴰ w (best ∷ rule ∷ rules)
    one_of (inl up) (Memᴰ.head e) = Memᴰ.tail (Memᴰ.head (ground arith))
    one_of (inr stay) (Memᴰ.head e) = Memᴰ.head (ground arith)
    one_of _ (Memᴰ.tail m) = Memᴰ.tail (Memᴰ.tail m)

pub All-Mem :
    (P : PermissionRule → Type 0) {r : PermissionRule} (rs : List PermissionRule)
    → All P rs
    → Memᴰ r rs
    → P r
All-Mem P [] h m = elim m [ ]
All-Mem P (x ∷ xs) h (Memᴰ.head e) = subst P (sym e) h.0
All-Mem P (x ∷ xs) h (Memᴰ.tail m) = All-Mem P xs h.1 m

module _ (platform : Platform) (target : PermissionTarget) where
  candidates-cons :
      (rule : PermissionRule) (rules found : List PermissionRule)
      → candidates platform target (rule ∷ rules) ≡ ok found
      → (b : Bool) × (rest : List PermissionRule) × (rule_matches platform rule target ≡ ok b)
        × (candidates platform target rules ≡ ok rest)
        × (found ≡ (if b then rule ∷ rest else rest))
  unfolding candidates
  candidates-cons rule rules found h = elim (Outcome-cases (rule_matches platform rule target)) [
    | inr (x, bad) ↦ absurd (ground arith)
    | inl (b, e) ↦ elim (Outcome-cases (candidates platform target rules)) [
      | inr (x, bad) ↦ absurd (ground arith)
      | inl (rest, e') ↦ (b, rest, e, e', ground arith)
    ]
  ]

  -- What `candidates` keeps: rules of the layer that match.
  candidates-Mem :
      (rules found : List PermissionRule)
      → candidates platform target rules ≡ ok found
      → (r : PermissionRule) → Memᴰ r found
      → Memᴰ r rules × (rule_matches platform r target ≡ ok true)
  candidates-Mem [] found h r m =
      let same : [] ≡ found = unfold candidates in ok-injective h in
      elim (subst (Memᴰ r) (sym same) m) [ ]
  candidates-Mem (rule ∷ rules) found h r m =
      let (b, rest, e, e', out) = candidates-cons rule rules found h in
      kept b rest e (candidates-Mem rules rest e' r) (subst (Memᴰ r) out m)
    where
      kept :
          (b : Bool) (rest : List PermissionRule)
          → rule_matches platform rule target ≡ ok b
          → (Memᴰ r rest → Memᴰ r rules × (rule_matches platform r target ≡ ok true))
          → Memᴰ r (if b then rule ∷ rest else rest)
          → Memᴰ r (rule ∷ rules) × (rule_matches platform r target ≡ ok true)
      kept true rest e below (Memᴰ.head x) = (Memᴰ.head x, rw x e)
      kept true rest e below (Memᴰ.tail m) = (Memᴰ.tail (below m).0, (below m).1)
      kept false rest e below m = (Memᴰ.tail (below m).0, (below m).1)

  -- What holds of the candidates holds of every rule of the layer that matches.
  candidates-All :
      (P : PermissionRule → Type 0) (rules found : List PermissionRule)
      → candidates platform target rules ≡ ok found
      → All P found
      → All (λ r. rule_matches platform r target ≡ ok true → P r) rules
  candidates-All P [] found h all = tt
  candidates-All P (rule ∷ rules) found h all =
      let (b, rest, e, e', out) = candidates-cons rule rules found h in
      kept b rest e (candidates-All P rules rest e') (subst (All P) out all)
    where
      kept :
          (b : Bool) (rest : List PermissionRule)
          → rule_matches platform rule target ≡ ok b
          → (All P rest → All (λ r. rule_matches platform r target ≡ ok true → P r) rules)
          → All P (if b then rule ∷ rest else rest)
          → All (λ r. rule_matches platform r target ≡ ok true → P r) (rule ∷ rules)
      kept true rest e below p = (λ _. p.0, below p.1)
      kept false rest e below p = (λ m. absurd cc, below p)

  candidates-none :
      (rules : List PermissionRule)
      → candidates platform target rules ≡ ok []
      → All (λ r. rule_matches platform r target ≡ ok false) rules
  candidates-none [] h = tt
  candidates-none (rule ∷ rules) h =
      let (b, rest, e, e', out) = candidates-cons rule rules [] h in
      nothing b rest e (λ gone. candidates-none rules (e' ∙ ap ok gone)) out
    where
      nothing :
          (b : Bool) (rest : List PermissionRule)
          → rule_matches platform rule target ≡ ok b
          → (rest ≡ [] → All (λ r. rule_matches platform r target ≡ ok false) rules)
          → [] ≡ (if b then rule ∷ rest else rest)
          → All (λ r. rule_matches platform r target ≡ ok false) (rule ∷ rules)
      nothing true rest e below out = absurd cc
      nothing false rest e below out = (e, below (sym out))

  -- The rule that decides: a matching rule of a layer, of the greatest key among the layer's matching
  -- rules, with no matching rule in the layers before.
  pub data IsBest (m : PermissionMatch) : Layers → Type 0 where
    here :
        {scope : RuleScope} {rules : List PermissionRule} {rest : Layers}
        → m.source ≡ source_by_scope scope
        → Memᴰ m.rule rules
        → rule_matches platform m.rule target ≡ ok true
        → All (λ r. rule_matches platform r target ≡ ok true → key_less m.rule r ≡ false) rules
        → IsBest m ((scope, rules) ∷ rest)
    later :
        {scope : RuleScope} {rules : List PermissionRule} {rest : Layers}
        → All (λ r. rule_matches platform r target ≡ ok false) rules
        → IsBest m rest
        → IsBest m ((scope, rules) ∷ rest)

  match_layers-IsBest :
      (ls : Layers) (m : PermissionMatch)
      → match_layers platform target ls ≡ ok (some m)
      → IsBest m ls
  unfolding match_layers
  match_layers-IsBest [] m h = absurd cc
  match_layers-IsBest ((scope, rules) ∷ rest) m h =
      elim (Outcome-cases (candidates platform target rules)) [
        | inr (x, bad) ↦ absurd (ground arith)
        | inl (found, e) ↦ decided found e (match_layers-IsBest rest m)
      ]
    where
      decided :
          (found : List PermissionRule)
          → candidates platform target rules ≡ ok found
          → (match_layers platform target rest ≡ ok (some m) → IsBest m rest)
          → IsBest m ((scope, rules) ∷ rest)
      decided [] e below = later (candidates-none rules e) (below (ground arith))
      decided (rule ∷ others) e below =
          let out : record { rule = winner rule others; source = source_by_scope scope } ≡ m =
            ground arith in
          let (there, matches) =
            candidates-Mem rules (rule ∷ others) e (winner rule others) (winner-Mem rule others) in
          rw (← out) (
            here refl there matches (
              candidates-All (λ r. key_less (winner rule others) r ≡ false) rules _ e
                (winner-greatest rule others)))

-- A match that the matcher returns is a matching rule of the first layer that has one, and no matching
-- rule of that layer is more specific, nor as specific and a denial where it is not.
pub match_rules-IsBest :
    (platform : Platform) (target : PermissionTarget) (sets : PermissionRuleSets)
    (m : PermissionMatch)
    → match_rules platform target sets ≡ ok (some m)
    → IsBest platform target m (layers sets)
unfolding match_rules
match_rules-IsBest platform target sets m h = match_layers-IsBest platform target (layers sets) m h
