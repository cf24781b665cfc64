-- ===== src/Hooks/Merge.antt =====
-- main.go, applyHooks: the settings and the entries of events after a merge.
use agentflash.Common.{
  ℕ, false, Option, none, some, ◌≢◌, List, [], ◌∷◌, ◌++◌, ◌≡◌, refl, ap, ◌∙◌, Bytes, codes,
  eq_bytes, eq_bytes_comm,
}
use agentflash.GoPath.Clean.{All}
use agentflash.GoPath.Inside.{All-append_right}
use agentflash.Json.{
  Value, Values, Fields, null, bool, number, string, array, object, empty, get, as_array, as_object,
}
use agentflash.Json.Maps.{get-put_same, get-put_other}
use agentflash.Hooks.Mentions.{Merged, values_of, append_entries-Merged}
use agentflash.Hooks.{
  HookEntry, entry_value, keep_unrelated, entries_or_empty, fields_or_empty, append_entries,
  merge_entries, merge_events, merge,
}

-- The map `ours`: no event twice.
abbrev pub IsOther : Bytes → List (Bytes × List HookEntry) → Type 0
IsOther e ours = All (λ x. eq_bytes e (x.0) ≡ false) ours

abbrev pub Distinct : List (Bytes × List HookEntry) → Type 0
Distinct [] = Unit
Distinct ((e, es) ∷ ours) = IsOther e ours × Distinct ours

module _ (float64 : ℕ → ℕ) (url : Bytes) where
  pub get-merge_events_other :
      (e : Bytes) (ours : List (Bytes × List HookEntry)) (hooks : Fields)
      → IsOther e ours
      → get e (merge_events float64 url ours hooks) ≡ get e hooks
  unfolding merge_events
  get-merge_events_other e [] hooks h = refl
  get-merge_events_other e ((f, es) ∷ ours) hooks (n, h) =
      get-merge_events_other e ours _ h ∙ get-put_other e f _ hooks n

  pub get-merge_events :
      (e : Bytes) (es : List HookEntry) (before after : List (Bytes × List HookEntry))
      (hooks : Fields)
      → Distinct (before ++ (e, es) ∷ after)
      → get e (merge_events float64 url (before ++ (e, es) ∷ after) hooks)
        ≡ some (array (merge_entries float64 url (get e hooks) es))
  unfolding merge_events
  get-merge_events e es [] after hooks (h, d) =
      get-merge_events_other e after _ h ∙ get-put_same e _ hooks
  get-merge_events e es ((f, gs) ∷ before) after hooks (h, d) =
      get-merge_events e es before after _ d
      ∙ ap (λ x. some (array (merge_entries float64 url x es)))
          (get-put_other e f _ hooks (
            eq_bytes_comm e f
            ∙ (All-append_right (λ x. eq_bytes f (x.0) ≡ false) before ((e, es) ∷ after) h).0))

  abbrev pub hooks_of : Fields → Fields
  hooks_of settings = fields_or_empty (as_object (get (codes "hooks") settings))

  merge_hooks :
      (ours : List (Bytes × List HookEntry)) (settings : Fields)
      → hooks_of (merge float64 url ours settings)
        ≡ merge_events float64 url ours (hooks_of settings)
  unfolding merge as_object
  merge_hooks ours settings = rw (get-put_same (codes "hooks") _ settings)

  -- What the assertion to an array makes of the value of an event: an array is itself, and anything
  -- else, or no value, is an array without entries.
  abbrev pub HasEntries : Option Value → Values → Type 0
  HasEntries (some (array vs)) old = old ≡ vs
  HasEntries _ old = old ≡ empty

  HasEntries-or_empty : (o : Option Value) → HasEntries o (entries_or_empty (as_array o))
  unfolding as_array
  HasEntries-or_empty none = refl
  HasEntries-or_empty (some (array vs)) = refl
  HasEntries-or_empty (some null) = refl
  HasEntries-or_empty (some (bool b)) = refl
  HasEntries-or_empty (some (number n)) = refl
  HasEntries-or_empty (some (string s)) = refl
  HasEntries-or_empty (some (object fs)) = refl

  -- Let the URL not be empty. The merge leaves each setting but `hooks` as it is, and the hooks of
  -- each event that is not one of ours. Each event of ours then holds an array: the entries that it
  -- held before and that have no hook whose command has the URL in it, in their order, and behind
  -- them our entries for the event.
  pub get-merge :
      (k o e : Bytes) (es : List HookEntry) (before after : List (Bytes × List HookEntry))
      (settings : Fields)
      → url ≢ []
      → eq_bytes k (codes "hooks") ≡ false
      → IsOther o (before ++ (e, es) ∷ after)
      → Distinct (before ++ (e, es) ∷ after)
      → (let merged = merge float64 url (before ++ (e, es) ∷ after) settings in
          (get k merged ≡ get k settings)
          × (get o (hooks_of merged) ≡ get o (hooks_of settings))
          × (old new : Values) × HasEntries (get e (hooks_of settings)) old
          × (get e (hooks_of merged) ≡ some (array new))
          × Merged url (values_of (entry_value float64) es) old new)
  unfolding merge merge_entries
  get-merge k o e es before after settings ne hk ho d =
      let ours = before ++ (e, es) ∷ after in
      let old = entries_or_empty (as_array (get e (hooks_of settings))) in
      (
        get-put_other k (codes "hooks") _ settings hk,
        ap (get o) (merge_hooks ours settings) ∙ get-merge_events_other o ours _ ho,
        old,
        append_entries float64 (keep_unrelated url old) es,
        HasEntries-or_empty (get e (hooks_of settings)),
        ap (get e) (merge_hooks ours settings) ∙ get-merge_events e es before after _ d,
        append_entries-Merged url ne float64 old es,
      )
