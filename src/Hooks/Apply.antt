-- ===== src/Hooks/Apply.antt =====
-- main.go, applyHooks: what is written to the settings file.
use mathlib.Core.Option.{some-injective}
use agentflash.Common.{
  ℕ, Bool, true, false, Option, none, some, List, [], ◌∷◌, ◌++◌, ◌≡◌, refl, sym, ap, ◌∙◌, inl, inr,
  Bytes, eq_bytes, eq_bytes_refl, Option-cases, if◌then◌else◌,
}
use agentflash.Json.{Fields}
use agentflash.Hooks.{
  HookEntry, hook_url, hook_command, build_hooks_map, fields_or_empty, merge, ReadResult, contents,
  not_exist, read_failure, Applied, unchanged, wrote, write_error, newline, save, apply_hooks,
}
use agentflash.Hooks.Idempotent.{IsValidText, merge_idempotent}

-- The last two tests of `save`.
abbrev written : Bool → Bool → Bytes → Applied
written same w out = if same then unchanged else if w then wrote out else write_error

written-wrote : (same w : Bool) (b out : Bytes) → written same w b ≡ wrote out → b ≡ out
written-wrote true w b out e = cc
written-wrote false true b out e = cc
written-wrote false false b out e = cc

append_newline : (b : Bytes) → eq_bytes (b ++ newline) [] ≡ false
unfolding eq_bytes
append_newline [] = refl
append_newline (c ∷ b) = refl

module _ (float64 : ℕ → ℕ) (parse : Bytes → Option (Option Fields))
    (render : Fields → Option Bytes) where
  -- The settings that a file holds, if it can be read as a map; a missing or empty file has none.
  abbrev pub settings_of : ReadResult → Option (Option Fields)
  settings_of (contents []) = some none
  settings_of (contents (c ∷ cs)) = parse (c ∷ cs)
  settings_of not_exist = some none
  settings_of read_failure = none

  -- `out` is the text of the merged settings.
  abbrev pub IsMerge : Bytes → List (Bytes × List HookEntry) → Option Fields → Bytes → Type 0
  IsMerge url ours s out =
      (b : Bytes) × (render (merge float64 url ours (fields_or_empty s)) ≡ some b)
      × (out ≡ b ++ newline)

  save-wrote :
      (url : Bytes) (ours : List (Bytes × List HookEntry)) (old : Bytes) (w : Bool)
      (s : Option Fields) (out : Bytes)
      → save float64 parse render url ours old w s ≡ wrote out
      → IsMerge url ours s out
  unfolding save
  save-wrote url ours old w s out e =
      elim (Option-cases (render (merge float64 url ours (fields_or_empty s)))) [
        | inl bad ↦ cc (rw (save, bad) at e)
        | inr (b, r) ↦ (b, r, sym (written-wrote _ w (b ++ newline) out (rw (save, r) at e)))
      ]

  -- Whatever is written to the settings file is the text of its own settings, merged: a file that
  -- is there but cannot be read or decoded is never overwritten.
  pub apply_hooks-wrote :
      (url : Bytes) (ours : List (Bytes × List HookEntry)) (dir_ok : Bool) (file : ReadResult)
      (w : Bool) (out : Bytes)
      → apply_hooks float64 parse render url ours dir_ok file w ≡ wrote out
      → (s : Option Fields) × (settings_of file ≡ some s) × IsMerge url ours s out
  unfolding apply_hooks
  apply_hooks-wrote url ours false file w out e = cc
  apply_hooks-wrote url ours true (contents []) w out e =
      (none, refl, save-wrote url ours [] w none out e)
  apply_hooks-wrote url ours true (contents (c ∷ cs)) w out e =
      elim (Option-cases (parse (c ∷ cs))) [
        | inl bad ↦ cc (rw (apply_hooks, bad) at e)
        | inr (s, p) ↦ (s, p, save-wrote url ours (c ∷ cs) w s out (rw (apply_hooks, p) at e))
      ]
  apply_hooks-wrote url ours true not_exist w out e =
      (none, refl, save-wrote url ours [] w none out e)
  apply_hooks-wrote url ours true read_failure w out e = cc

  save_same :
      (url : Bytes) (ours : List (Bytes × List HookEntry)) (b : Bytes) (w : Bool) (s : Fields)
      → render (merge float64 url ours s) ≡ some b
      → save float64 parse render url ours (b ++ newline) w (some s) ≡ unchanged
  unfolding save
  save_same url ours b w s r = rw (r, save, append_newline b, eq_bytes_refl (b ++ newline))

  apply_hooks-parsed :
      (url : Bytes) (ours : List (Bytes × List HookEntry)) (file : Bytes) (w : Bool)
      (s : Option Fields)
      → eq_bytes file [] ≡ false
      → parse file ≡ some s
      → apply_hooks float64 parse render url ours true (contents file) w
        ≡ save float64 parse render url ours file w s
  unfolding apply_hooks eq_bytes
  apply_hooks-parsed url ours [] w s n p = cc
  apply_hooks-parsed url ours (c ∷ cs) w s n p = rw (p, apply_hooks)

  abbrev pub our_hooks : Bytes → List (Bytes × List HookEntry)
  our_hooks addr = build_hooks_map (hook_command addr)

  -- Once the program's hooks are written for an address that leaves their command valid UTF-8, and
  -- the text written decodes to the settings that were merged, applying them again finds nothing to
  -- change.
  pub apply_hooks_twice :
      (addr : Bytes) (file : ReadResult) (dir_ok w again : Bool) (s : Option Fields) (out : Bytes)
      → IsValidText (hook_command addr)
      → settings_of file ≡ some s
      → apply_hooks float64 parse render (hook_url addr) (our_hooks addr) dir_ok file w ≡ wrote out
      → parse out ≡ some (some (merge float64 (hook_url addr) (our_hooks addr) (fields_or_empty s)))
      → apply_hooks float64 parse render (hook_url addr) (our_hooks addr) true (contents out) again
        ≡ unchanged
  apply_hooks_twice addr file dir_ok w again s out valid read e decoded =
      let (t, read', (b, r, o)) =
        apply_hooks-wrote (hook_url addr) (our_hooks addr) dir_ok file w out e in
      let same = some-injective _ _ (sym read' ∙ read) in
      let r' =
        ap render (merge_idempotent float64 addr (fields_or_empty s) valid) ∙ (rw same at r) in
      ap
        (λ x.
          apply_hooks float64 parse render (hook_url addr) (our_hooks addr) true (contents x) again)
        o
      ∙ apply_hooks-parsed (hook_url addr) (our_hooks addr) (b ++ newline) again _
          (append_newline b) (ap parse (sym o) ∙ decoded)
      ∙ save_same (hook_url addr) (our_hooks addr) b again _ r'
