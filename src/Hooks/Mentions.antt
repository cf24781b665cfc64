-- ===== src/Hooks/Mentions.antt =====
-- main.go, applyHooks: which entries of an event a merge keeps.
use mathlib.Core.Path.{subst}
use agentflash.Common.{
  ℕ, Bool, true, false, List, [], ◌∷◌, ◌++◌, ◌≡◌, ◌≢◌, ◌↔◌, ◌⊎◌, refl, sym, ap, ◌∙◌, arith, inl,
  inr, Bytes, codes, ◌||◌, contains, has_prefix, has_prefix-append, has_prefix_split, Bool-cases,
  Option, none, some,
}
use agentflash.Json.{
  Value, Values, Fields, null, bool, number, string, array, object, empty, item, get, as_string,
  as_array, as_object, string_or_empty,
}
use agentflash.Hooks.{
  HookEntry, any_references, entry_references_url, keep_unrelated, entry_value, append_entries,
}

-- The URL stands somewhere in a text.
abbrev pub Within : Bytes → Bytes → Type 0
Within url s = (p q : Bytes) × (s ≡ p ++ url ++ q)

-- A hook is an object whose command has the URL in it.
abbrev pub IsPost : Bytes → Value → Type 0
IsPost url v =
    (fs : Fields) × (v ≡ object fs)
    × (s : Bytes) × (get (codes "command") fs ≡ some (string s))
    × Within url s

abbrev pub SomePost : Bytes → Values → Type 0
SomePost url empty = ⊥
SomePost url (item h hs) = IsPost url h ⊎ SomePost url hs

-- An entry mentions the URL if it is an object with an array of hooks, one of which posts to it.
abbrev pub Mentions : Bytes → Value → Type 0
Mentions url v =
    (fs : Fields) × (v ≡ object fs)
    × (hs : Values) × (get (codes "hooks") fs ≡ some (array hs))
    × SomePost url hs

abbrev pub values_of : (HookEntry → Value) → List HookEntry → Values
values_of f [] = empty
values_of f (e ∷ es) = item (f e) (values_of f es)

-- The second list is the entries of the first that do not mention the URL, in their order, and then
-- the entries `ours`.
pub data Merged (url : Bytes) (ours : Values) : Values → Values → Type 0 where
  ended : Merged url ours empty ours
  dropped :
      {v : Value} {old new : Values}
      → Mentions url v
      → Merged url ours old new
      → Merged url ours (item v old) new
  kept :
      {v : Value} {old new : Values}
      → ¬ Mentions url v
      → Merged url ours old new
      → Merged url ours (item v old) (item v new)

contains-Within : (s url : Bytes) → contains s url ≡ true → Within url s
unfolding contains has_prefix
contains-Within [] [] h = ([], [], refl)
contains-Within [] (c ∷ url) h = cc
contains-Within (c ∷ s) url h = elim (Bool-cases (has_prefix (c ∷ s) url)) [
  | inl here ↦ let (r, e) = has_prefix_split (c ∷ s) url here in ([], r, e)
  | inr later ↦
      let (p, q, e) = contains-Within s url (rw later at h) in (c ∷ p, q, ap (λ x. c ∷ x) e)
]

pub contains-append : (p s r : Bytes) → contains (p ++ s ++ r) s ≡ true
unfolding contains
contains-append [] s r = starts (s ++ r) (has_prefix-append s r)
  where
    starts : (t : Bytes) → has_prefix t s ≡ true → contains t s ≡ true
    starts [] h = h
    starts (c ∷ cs) h = rw h
contains-append (c ∷ p) s r = let rest = contains-append p s r in ground (arith, rest)

-- The text of a command that is not a string, or not there, has no URL in it.
text_of : Option Value → Bytes
text_of o = string_or_empty (as_string o)

nowhere :
    {o : Option Value} (url : Bytes)
    → url ≢ []
    → contains [] url ≡ true
    → (s : Bytes) × (o ≡ some (string s)) × Within url s
unfolding contains has_prefix
nowhere [] ne h = absurd (ne refl)
nowhere (c ∷ url) ne h = cc

text_of-Within :
    (o : Option Value) (url : Bytes)
    → url ≢ []
    → contains (text_of o) url ≡ true
    → (s : Bytes) × (o ≡ some (string s)) × Within url s
unfolding text_of string_or_empty as_string
text_of-Within (some (string s)) url ne h = (s, refl, contains-Within s url h)
text_of-Within none url ne h = nowhere url ne h
text_of-Within (some null) url ne h = nowhere url ne h
text_of-Within (some (bool b)) url ne h = nowhere url ne h
text_of-Within (some (number n)) url ne h = nowhere url ne h
text_of-Within (some (array vs)) url ne h = nowhere url ne h
text_of-Within (some (object fs)) url ne h = nowhere url ne h

Within-contains : (s url : Bytes) → Within url s → contains s url ≡ true
Within-contains s url (p, q, e) = rw e (contains-append p url q)

object_inj : {fs gs : Fields} → object fs ≡ object gs → fs ≡ gs
object_inj e = cc

array_inj : {vs ws : Values} → some (array vs) ≡ some (array ws) → vs ≡ ws
array_inj e = cc

as_object-cases :
    (v : Value)
    → ((as_object (some v) ≡ none) × ((fs : Fields) → ¬ (v ≡ object fs)))
      ⊎ ((fs : Fields) × (v ≡ object fs) × (as_object (some v) ≡ some fs))
unfolding as_object
as_object-cases (object fs) = inr (fs, refl, refl)
as_object-cases null = inl (refl, λ fs e. cc)
as_object-cases (bool b) = inl (refl, λ fs e. cc)
as_object-cases (number n) = inl (refl, λ fs e. cc)
as_object-cases (string s) = inl (refl, λ fs e. cc)
as_object-cases (array vs) = inl (refl, λ fs e. cc)

as_array-cases :
    (o : Option Value)
    → ((as_array o ≡ none) × ((hs : Values) → ¬ (o ≡ some (array hs))))
      ⊎ ((hs : Values) × (o ≡ some (array hs)) × (as_array o ≡ some hs))
unfolding as_array
as_array-cases none = inl (refl, λ hs e. cc)
as_array-cases (some (array hs)) = inr (hs, refl, refl)
as_array-cases (some null) = inl (refl, λ hs e. cc)
as_array-cases (some (bool b)) = inl (refl, λ hs e. cc)
as_array-cases (some (number n)) = inl (refl, λ hs e. cc)
as_array-cases (some (string s)) = inl (refl, λ hs e. cc)
as_array-cases (some (object fs)) = inl (refl, λ hs e. cc)

module _ (url : Bytes) (ne : url ≢ []) where
  IsPost-iff :
      (fs : Fields)
      → (contains (text_of (get (codes "command") fs)) url ≡ true) ↔ IsPost url (object fs)
  unfolding text_of as_string string_or_empty
  IsPost-iff fs = (
    λ h. let (s, g, w) = text_of-Within (get (codes "command") fs) url ne h in (fs, refl, s, g, w),
    λ (gs, e, s, g, w). rw (object_inj e, g) (Within-contains s url w),
  )

  or_iff :
      {a b : Bool} {A B : Type 0}
      → ((a ≡ true) ↔ A)
      → ((b ≡ true) ↔ B)
      → ((a || b ≡ true) ↔ (A ⊎ B))
  or_iff {a = true} f g = (λ h. inl (f.0 refl), λ h. refl)
  or_iff {a = false} f g = (λ h. inr (g.0 h), elim [ inl x ↦ cc (f.1 x) | inr y ↦ g.1 y ])

  any_references_iff : (hs : Values) → (any_references url hs ≡ true) ↔ SomePost url hs
  unfolding any_references text_of
  any_references_iff empty = (λ h. cc, λ h. absurd h)
  any_references_iff (item h hs) = elim (as_object-cases h) [
    | inl (n, no_object) ↦
        rw (any_references, n)
          (
            λ e. inr ((any_references_iff hs).0 e),
            elim [
              | inl (fs, e, s, g, w) ↦ absurd (no_object fs e)
              | inr s ↦ (any_references_iff hs).1 s
            ],
          )
    | inr (fs, e, o) ↦ rw (any_references, o, e) (or_iff (IsPost-iff fs) (any_references_iff hs))
  ]

  entry_references_url_iff : (v : Value) → (entry_references_url url v ≡ true) ↔ Mentions url v
  unfolding entry_references_url
  entry_references_url_iff v = elim (as_object-cases v) [
    | inl (n, no_object) ↦
        rw (entry_references_url, n) (λ e. cc, λ (fs, e, hs, g, s). absurd (no_object fs e))
    | inr (fs, e, o) ↦ elim (as_array-cases (get (codes "hooks") fs)) [
      | inl (n, no_array) ↦
          rw (entry_references_url, o, n)
            (λ h. cc, λ (gs, d, hs, g, s). absurd (no_array hs (rw (object_inj (sym e ∙ d)) g)))
      | inr (hs, g, a) ↦
          rw (entry_references_url, o, a)
            (
              λ h. (fs, e, hs, g, (any_references_iff hs).0 h),
              λ (gs, d, ks, g', s). (any_references_iff hs).1 (
                  subst (SomePost url)
                    (array_inj (sym (ap (get (codes "hooks")) (object_inj (sym e ∙ d)) ∙ g') ∙ g))
                    s),
            )
    ]
  ]

  module _ (float64 : ℕ → ℕ) where
    append_entries-values_of :
        (es : List HookEntry) → append_entries float64 empty es ≡ values_of (entry_value float64) es
    unfolding append_entries
    append_entries-values_of [] = refl
    append_entries-values_of (e ∷ es) =
        ap (item (entry_value float64 e)) (append_entries-values_of es)

    pub append_entries-Merged :
        (old : Values) (es : List HookEntry)
        → Merged url
            (values_of (entry_value float64) es)
            old
            (append_entries float64 (keep_unrelated url old) es)
    unfolding append_entries keep_unrelated
    append_entries-Merged empty es = rw (append_entries-values_of es) ended
    append_entries-Merged (item v vs) es = elim (Bool-cases (entry_references_url url v)) [
      | inl ours ↦
          rw ours (dropped ((entry_references_url_iff v).0 ours) (append_entries-Merged vs es))
      | inr other ↦
          rw other
            (kept (λ m. cc (other, (entry_references_url_iff v).1 m)) (append_entries-Merged vs es))
    ]
