-- ===== src/Tools/Registry.antt =====
-- A registry holds its tools under their names, in the order they were given.
use mathlib.Core.List.{append_assoc, append-nil}
use mew_code.Prelude.{
  ◌≡◌, refl, ap, ◌∙◌, Bool, true, false, not, List, [], ◌∷◌, ◌++◌, map, keep, contains, distinct,
  ◌==◌, Bool-cases, ◌↔◌, inl, inr, ok, arith,
}
use mew_code.Prelude.Dict.{insert, has, keys, values}
use mew_code.Prelude.Dict.Laws.{contains-keys, distinct-cons, distinct-map-snoc}
use mew_code.Prelude.Text.{Text, text_eq}
use mew_code.Tools.{Tool, ToolRegistry, add_tools, make_registry, select_names, without_names}

abbrev pub entries : List Tool → ToolRegistry
entries ts = map (λ t. (t.name, t)) ts

abbrev pub names : List Tool → List Text
names ts = map (λ t. t.name) ts

keys-entries : (ts : List Tool) → keys (entries ts) ≡ names ts
keys-entries [] = refl
keys-entries (t ∷ ts) = ap (λ z. t.name ∷ z) (keys-entries ts)

values-entries : (ts : List Tool) → values (entries ts) ≡ ts
values-entries [] = refl
values-entries (t ∷ ts) = ap (λ z. t ∷ z) (values-entries ts)

has-entries : (ts : List Tool) (name : Text) → has name (entries ts) ≡ contains (names ts) name
has-entries ts name = rw (← contains-keys name (entries ts), keys-entries ts) refl

insert-entries :
    (ts : List Tool) (t : Tool)
    → contains (names ts) t.name ≡ false
    → insert t.name t (entries ts) ≡ entries (ts ++ t ∷ [])
unfolding insert contains
insert-entries [] t h = refl
insert-entries (u ∷ ts) t h = ground (arith, insert-entries ts t)

add_tools-entries :
    (ts us : List Tool) (reg : ToolRegistry)
    → distinct (names ts) ≡ true
    → add_tools (entries ts) us ≡ ok reg
    → (reg ≡ entries (ts ++ us)) × (distinct (names (ts ++ us)) ≡ true)
unfolding add_tools
add_tools-entries ts [] reg u h = rw (append-nil ts) (ground arith, u)
add_tools-entries ts (t ∷ us) reg u h =
    rw (← append_assoc ts (t ∷ []) us) (elim (Bool-cases (contains (names ts) t.name)) [
      | inl there ↦ absurd (ground (arith, has-entries ts t.name))
      | inr new ↦
          let placed = insert-entries ts t new in
          add_tools-entries (ts ++ t ∷ []) us reg (distinct-map-snoc (λ t. t.name) ts t u new)
            (ground (arith, has-entries ts t.name))
    ])

contains-append-later :
    (ts us : List Tool) (t : Tool) (n : Text)
    → contains (names (ts ++ (t ∷ us))) n ≡ false
    → (t.name == n) ≡ false
unfolding contains
contains-append-later [] us t n h = ground arith
contains-append-later (u ∷ ts) us t n h = contains-append-later ts us t n (ground arith)

distinct-append-new :
    (ts us : List Tool) (t : Tool)
    → distinct (names (ts ++ (t ∷ us))) ≡ true
    → contains (names ts) t.name ≡ false
unfolding distinct contains
distinct-append-new [] us t h = refl
distinct-append-new (u ∷ ts) us t h =
    let (new, rest) = distinct-cons (λ t. t.name) u (ts ++ (t ∷ us)) h in
    let later = distinct-append-new ts us t rest in
    let other = contains-append-later ts us t u.name new in
    ground (arith, text_eq.beq_iff u.name t.name, text_eq.beq_iff t.name u.name)

add_tools-distinct :
    (ts us : List Tool)
    → distinct (names (ts ++ us)) ≡ true
    → add_tools (entries ts) us ≡ ok (entries (ts ++ us))
unfolding add_tools
add_tools-distinct ts [] h = rw (append-nil ts) refl
add_tools-distinct ts (t ∷ us) h =
    let new = distinct-append-new ts us t h in
    let placed = insert-entries ts t new in
    let h' : distinct (names ((ts ++ t ∷ []) ++ us)) ≡ true = rw (append_assoc ts (t ∷ []) us) h in
    let rest = add_tools-distinct (ts ++ t ∷ []) us h' in
    rw (has-entries ts t.name, new, placed, ← append_assoc ts (t ∷ []) us) rest

-- A registry is made of tools exactly where no two have one name, and it then holds each under its
-- name, in the order given.
pub make_registry_lem :
    (ts : List Tool) (reg : ToolRegistry)
    → (make_registry ts ≡ ok reg) ↔ ((distinct (names ts) ≡ true) × (reg ≡ entries ts))
unfolding make_registry distinct
make_registry_lem ts reg = (
  (λ h. let (same, u) = add_tools-entries [] ts reg refl h in (u, same)),
  (λ h. add_tools-distinct [] ts h.0 ∙ rw (h.1) refl),
)

contains-keep :
    (p : Tool → Bool) (ts : List Tool) (n : Text)
    → contains (names ts) n ≡ false
    → contains (names (keep p ts)) n ≡ false
unfolding contains keep
contains-keep p [] n h = refl
contains-keep p (t ∷ ts) n h = ground (arith, contains-keep p ts n)

distinct-keep :
    (p : Tool → Bool) (ts : List Tool)
    → distinct (names ts) ≡ true
    → distinct (names (keep p ts)) ≡ true
unfolding distinct keep
distinct-keep p [] h = refl
distinct-keep p (t ∷ ts) h = ground (arith, distinct-keep p ts, contains-keep p ts t.name)

make_registry-keep :
    (p : Tool → Bool) (ts : List Tool)
    → distinct (names ts) ≡ true
    → make_registry (keep p (values (entries ts))) ≡ ok (entries (keep p ts))
make_registry-keep p ts h =
    rw (values-entries ts)
      ((make_registry_lem (keep p ts) (entries (keep p ts))).1 (distinct-keep p ts h, refl))

-- To select the tools of some names, or those of no such name, never fails on a registry that was
-- made of tools: it gives the registry of the tools that are, or are not, named, in their order.
pub select_names_lem :
    (ts : List Tool) (reg : ToolRegistry) (ns : List Text)
    → make_registry ts ≡ ok reg
    → (select_names ns reg ≡ ok (entries (keep (λ t. contains ns t.name) ts)))
      × (without_names ns reg ≡ ok (entries (keep (λ t. not (contains ns t.name)) ts)))
unfolding select_names without_names
select_names_lem ts reg ns h =
    let (u, same) = (make_registry_lem ts reg).0 h in
    rw same (
      make_registry-keep (λ t. contains ns t.name) ts u,
      make_registry-keep (λ t. not (contains ns t.name)) ts u,
    )
