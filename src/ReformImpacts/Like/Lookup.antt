-- ===== src/ReformImpacts/Like/Lookup.antt =====
-- services/economy_stored_impacts.py: what the lookup pattern of an options hash finds.
use mathlib.Core.List.{append_assoc}
use policyengine_api.Base.{
  ℕ, [], ◌∷◌, ◌++◌, map, true, false, ◌==◌, ◌≡◌, ◌≢◌, refl, sym, ◌∙◌, ap, ◌↔◌, ◌⊎◌, inl, inr, arith,
  if◌then◌else◌, ℕ_discrete, Bool-cases,
}
use policyengine_api.ReformImpacts.Like.{
  Codes, newline, backslash, star, literal, Expression, expression, accepted, like_matches, replace,
  init, ends_with, escaped, lookup_pattern,
}

-- The texts that end a match of `%`: one line, and perhaps its newline.
abbrev pub IsLine : Codes → Type 0
IsLine [] = Unit
IsLine (c ∷ s) = ((c ≢ newline) × IsLine s) ⊎ ((c ≡ newline) × (s ≡ []))

escape_one : ℕ → Codes
escape_one c =
    if c == backslash
    then backslash ∷ backslash ∷ []
    else if c == b'%'
    then backslash ∷ b'%' ∷ []
    else if c == b'_'
    then backslash ∷ b'_' ∷ []
    else c ∷ []

flat : Codes → Codes
flat [] = []
flat (c ∷ s) = escape_one c ++ flat s

escaped-flat : (s : Codes) → escaped s ≡ flat s
unfolding replace flat escape_one
escaped-flat [] = refl
escaped-flat (c ∷ s) = ground (arith, escaped-flat s)

flat-append : (h t : Codes) → flat (h ++ t) ≡ flat h ++ flat t
unfolding flat
flat-append [] t = refl
flat-append (c ∷ h) t = rw (flat-append h t) (sym (append_assoc (escape_one c) (flat h) (flat t)))

init-append : (s : Codes) (c : ℕ) → init (s ++ c ∷ []) ≡ s
init-append [] c = refl
init-append (d ∷ []) c = refl
init-append (d ∷ e ∷ s) c = ap (λ t. d ∷ t) (init-append (e ∷ s) c)

ends_with-append : (s : Codes) (c : ℕ) → ends_with c (s ++ c ∷ []) ≡ true
ends_with-append [] c = ground arith
ends_with-append (d ∷ []) c = ground arith
ends_with-append (d ∷ e ∷ s) c = ends_with-append (e ∷ s) c

expression-escape_one :
    (c : ℕ) (p : Codes) → expression false (escape_one c ++ p) ≡ literal c ∷ expression false p
unfolding expression escape_one
expression-escape_one c p = ground arith

expression-flat :
    (h p : Codes) → expression false (flat h ++ p) ≡ map literal h ++ expression false p
unfolding flat
expression-flat [] p = refl
expression-flat (c ∷ h) p =
    ap (expression false) (append_assoc (escape_one c) (flat h) p)
    ∙ expression-escape_one c (flat h ++ p)
    ∙ ap (λ e. literal c ∷ e) (expression-flat h p)

-- `value` is `h` and then something of which `P` holds
abbrev pub Extends : (Codes → Type 0) → Codes → Codes → Type 0
Extends P h value = (rest : Codes) × (value ≡ h ++ rest) × P rest

accepted-literals :
    (h : Codes) (p : Expression) (value : Codes)
    → (accepted (map literal h ++ p) value ≡ true) ↔ Extends (λ s. accepted p s ≡ true) h value
unfolding accepted
accepted-literals [] p value = (λ h. (value, refl, h), λ (rest, e, h). rw e h)
accepted-literals (c ∷ h) p [] = (λ e. absurd (cc e), λ (rest, e, k). absurd (cc e))
accepted-literals (c ∷ h) p (d ∷ s) =
    let (into, back) = accepted-literals h p s in
    (
      λ e. let (rest, same, k) = into (ground arith) in (rest, ground arith, k),
      λ (rest, e, k). ground (arith, back (rest, ground arith, k)),
    )

accepted-star : (s : Codes) → (accepted (star ∷ []) s ≡ true) ↔ IsLine s
unfolding accepted
accepted-star [] = (λ h. tt, λ h. refl)
accepted-star (c ∷ []) = (
  λ h. elim (ℕ_discrete c newline) [ yes e ↦ inr (e, refl) | no n ↦ inl (n, tt) ],
  λ h. ground arith,
)
accepted-star (c ∷ d ∷ s) =
    let (into, back) = accepted-star (d ∷ s) in
    (
      λ h. inl (ground arith, into (ground arith)),
      λ line. elim line [
        | inl (n, rest) ↦ ground (arith, back rest)
        | inr (e, empty) ↦ absurd (cc empty)
      ],
    )

-- what a hash that extends another begins with: the last bracket gives way to `&`
abbrev pub stem : Codes → Codes
stem options_hash =
    if ends_with b']' options_hash then init options_hash ++ b'&' ∷ [] else options_hash

init-ends_with : (c : ℕ) (s : Codes) → ends_with c s ≡ true → s ≡ init s ++ c ∷ []
init-ends_with c [] h = cc
init-ends_with c (d ∷ []) h = ground arith
init-ends_with c (d ∷ e ∷ s) h = ap (λ t. d ∷ t) (init-ends_with c (e ∷ s) h)

lookup_pattern-flat :
    (options_hash : Codes) → lookup_pattern options_hash ≡ flat (stem options_hash) ++ b'%' ∷ []
unfolding lookup_pattern
lookup_pattern-flat options_hash = elim (Bool-cases (ends_with b']' options_hash)) [
  | inr other ↦ rw (other, escaped-flat options_hash) refl
  | inl bracket ↦
      let h = init options_hash in
      let closed : flat options_hash ≡ flat h ++ b']' ∷ [] =
        ap flat (init-ends_with b']' options_hash bracket)
        ∙ flat-append h (b']' ∷ [])
        ∙ (unfold flat escape_one in refl) in
      rw (bracket, escaped-flat options_hash, closed, init-append (flat h) b']')
        (rw (flat-append h (b'&' ∷ [])) (
          rw (append_assoc (flat h) (flat (b'&' ∷ [])) (b'%' ∷ []))
            (unfold flat escape_one in refl)))
]

-- The lookup pattern of an options hash matches exactly the one-line texts that extend the hash: a
-- hash in brackets by `&` and more in the place of its last bracket, another one by anything. `%`,
-- `_` and backslashes in the hash stand for themselves, and one newline may end the text.
pub like_matches-lookup_pattern :
    (options_hash value : Codes)
    → (like_matches value (lookup_pattern options_hash) ≡ true)
      ↔ Extends IsLine (stem options_hash) value
unfolding like_matches
like_matches-lookup_pattern options_hash value =
    let h = stem options_hash in
    let compiled =
      ap (λ p. accepted (expression false p) value) (lookup_pattern-flat options_hash)
      ∙ ap (λ e. accepted e value) (expression-flat h (b'%' ∷ []) ∙ unfold expression in refl) in
    let (into, back) = accepted-literals h (star ∷ []) value in
    (
      λ k. let (rest, e, line) = into (sym compiled ∙ k) in (rest, e, (accepted-star rest).0 line),
      λ (rest, e, line). compiled ∙ back (rest, e, (accepted-star rest).1 line),
    )
