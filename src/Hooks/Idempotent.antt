-- ===== src/Hooks/Idempotent.antt =====
-- main.go, applyHooks: a merge after a merge.
use agentflash.Common.{
  ℕ, true, Option, some, List, [], ◌∷◌, ◌≡◌, refl, sym, ap, ◌∙◌, inl, inr, Bytes, codes, eq_bytes,
  contains, Bool-cases, if◌then◌else◌,
}
use agentflash.GoPath.Clean.{All}
use agentflash.Json.{
  Value, Values, Fields, array, object, empty, item, get, put, as_array, as_object, as_string,
  string_or_empty,
}
use agentflash.Json.Maps.{get-put_same, put-get}
use agentflash.Hooks.{
  HookEntry, coerce_utf8, hook_url, hook_command, build_hooks_map, entries_for, any_references,
  entry_references_url, keep_unrelated, entries_or_empty, fields_or_empty, entry_value,
  append_entries, merge_entries, merge_events, merge,
}
use agentflash.Hooks.Mentions.{contains-append}
use agentflash.Hooks.Merge.{Distinct, get-merge_events_other}

module _ (float64 : ℕ → ℕ) (url : Bytes) where
  -- An entry that points at the URL, as all of ours do.
  abbrev pub Refers : HookEntry → Type 0
  Refers e = entry_references_url url (entry_value float64 e) ≡ true

  abbrev pub AllRefer : List (Bytes × List HookEntry) → Type 0
  AllRefer ours = All (λ x. All Refers (x.1)) ours

  keep_unrelated-append :
      (vs : Values) (es : List HookEntry)
      → All Refers es
      → keep_unrelated url (append_entries float64 vs es) ≡ keep_unrelated url vs
  unfolding keep_unrelated append_entries
  keep_unrelated-append empty [] h = refl
  keep_unrelated-append empty (e ∷ es) (r, h) = rw r (keep_unrelated-append empty es h)
  keep_unrelated-append (item v vs) es h =
      ap (λ x. if entry_references_url url v then x else item v x) (keep_unrelated-append vs es h)

  keep_unrelated_twice :
      (vs : Values) → keep_unrelated url (keep_unrelated url vs) ≡ keep_unrelated url vs
  unfolding keep_unrelated
  keep_unrelated_twice empty = refl
  keep_unrelated_twice (item v vs) = elim (Bool-cases (entry_references_url url v)) [
    | inl ours ↦ rw ours (keep_unrelated_twice vs)
    | inr other ↦ rw (other, other) (ap (item v) (keep_unrelated_twice vs))
  ]

  merge_entries_twice :
      (o : Option Value) (es : List HookEntry)
      → All Refers es
      → merge_entries float64 url (some (array (merge_entries float64 url o es))) es
        ≡ merge_entries float64 url o es
  unfolding merge_entries as_array
  merge_entries_twice o es h =
      ap (λ x. append_entries float64 x es)
        (keep_unrelated-append (keep_unrelated url (entries_or_empty (as_array o))) es h
          ∙ keep_unrelated_twice (entries_or_empty (as_array o)))

  abbrev Settled : Fields → Bytes × List HookEntry → Type 0
  Settled hooks (e, es) = get e hooks ≡ some (array (merge_entries float64 url (get e hooks) es))

  merge_events-settles :
      (ours : List (Bytes × List HookEntry)) (hooks : Fields)
      → Distinct ours
      → AllRefer ours
      → All (Settled (merge_events float64 url ours hooks)) ours
  unfolding merge_events
  merge_events-settles [] hooks d h = tt
  merge_events-settles ((e, es) ∷ ours) hooks (n, d) (r, h) =
      let v = merge_entries float64 url (get e hooks) es in
      let there =
        get-merge_events_other float64 url e ours (put e (array v) hooks) n
        ∙ get-put_same e (array v) hooks in
      (
        there
            ∙ ap (λ x. some (array x))
                (sym (merge_entries_twice (get e hooks) es r)
                  ∙ ap (λ x. merge_entries float64 url x es) (sym there)),
        merge_events-settles ours (put e (array v) hooks) d h,
      )

  merge_events-Settled :
      (ours : List (Bytes × List HookEntry)) (hooks : Fields)
      → All (Settled hooks) ours
      → merge_events float64 url ours hooks ≡ hooks
  unfolding merge_events
  merge_events-Settled [] hooks h = refl
  merge_events-Settled ((e, es) ∷ ours) hooks (s, h) =
      ap (merge_events float64 url ours) (put-get e _ hooks s) ∙ merge_events-Settled ours hooks h

  -- Where all of our entries point at the URL, a second merge changes nothing.
  pub merge-merge :
      (ours : List (Bytes × List HookEntry)) (settings : Fields)
      → Distinct ours
      → AllRefer ours
      → merge float64 url ours (merge float64 url ours settings) ≡ merge float64 url ours settings
  unfolding merge as_object
  merge-merge ours settings d h =
      let hooks = fields_or_empty (as_object (get (codes "hooks") settings)) in
      rw (get-put_same (codes "hooks") (object (merge_events float64 url ours hooks)) settings) (
        ap (λ x. put (codes "hooks") (object x) (merge float64 url ours settings))
          (merge_events-Settled ours _ (merge_events-settles ours hooks d h))
        ∙ put-get (codes "hooks") _ (merge float64 url ours settings)
            (get-put_same (codes "hooks") _ settings))

-- A text that is valid UTF-8 comes through marshalling and unmarshalling as it is.
abbrev pub IsValidText : Bytes → Type 0
IsValidText s = coerce_utf8 s ≡ s

contains_url : (addr : Bytes) → contains (hook_command addr) (hook_url addr) ≡ true
unfolding hook_command
contains_url addr = contains-append (codes "curl -fsS -X POST ") (hook_url addr) _

module _ (float64 : ℕ → ℕ) (addr : Bytes) (valid : IsValidText (hook_command addr)) where
  entries-Refers :
      (matcher : Bytes)
      → All (Refers float64 (hook_url addr)) (entries_for (hook_command addr) matcher)
  unfolding entry_references_url any_references get as_object as_array as_string string_or_empty
      eq_bytes
  entries-Refers [] = (rw (valid, contains_url addr), tt)
  entries-Refers (c ∷ m) = (rw (valid, contains_url addr), tt)

  pub build_hooks_map-AllRefer :
      AllRefer float64 (hook_url addr) (build_hooks_map (hook_command addr))
  unfolding build_hooks_map
  build_hooks_map-AllRefer =
      let any = entries-Refers (codes ".*") in
      let bare = entries-Refers [] in (any, (any, (bare, (bare, (bare, (bare, (bare, tt)))))))

pub build_hooks_map-Distinct : (cmd : Bytes) → Distinct (build_hooks_map cmd)
unfolding build_hooks_map eq_bytes
build_hooks_map-Distinct cmd = (
  (refl, (refl, (refl, (refl, (refl, (refl, tt)))))),
  (
    (refl, (refl, (refl, (refl, (refl, tt))))),
    (
      (refl, (refl, (refl, (refl, tt)))),
      ((refl, (refl, (refl, tt))), ((refl, (refl, tt)), ((refl, tt), (tt, tt)))),
    ),
  ),
)

-- The merge that the program makes, at any address that leaves the hook's command valid UTF-8 and
-- whatever the settings: a second one changes nothing.
pub merge_idempotent :
    (float64 : ℕ → ℕ) (addr : Bytes) (settings : Fields)
    → IsValidText (hook_command addr)
    → (let apply = merge float64 (hook_url addr) (build_hooks_map (hook_command addr)) in
        apply (apply settings) ≡ apply settings)
merge_idempotent float64 addr settings valid =
    merge-merge float64 (hook_url addr) (build_hooks_map (hook_command addr)) settings
      (build_hooks_map-Distinct (hook_command addr)) (build_hooks_map-AllRefer float64 addr valid)
