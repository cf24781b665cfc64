-- ===== src/Claude/Info.antt =====
-- What the handler keeps of a payload: how long its texts get, and which phases there are.
use mathlib.Core.Option.{some-injective}
use agentflash.Common.{
  ℕ, ◌+◌, ◌≤◌, not, some, [], ◌∷◌, ◌++◌, ◌≡◌, refl, sym, arith, inl, inr, Bytes, codes, eq_bytes,
  leb, leb→le, if_both, Bool-cases, Option-cases, if◌then◌else◌, length, take, length-append,
  length-take,
}
use agentflash.Event.{ClaudeInfo}
use agentflash.Claude.{
  Payload, map_phase, truncate, ellipsis, string_field, is_one_of, tool_info, fill_info, bare_info,
  build_claude_info,
}

-- A text cut at n bytes is the text itself where it fits, and otherwise its first n bytes with
-- the three bytes of the ellipsis; it is never longer than n + 3 bytes.
truncate-bounded : (s : Bytes) (n : ℕ) → length (truncate s n) ≤ n + 3
unfolding truncate
truncate-bounded s n = elim (Bool-cases (leb (length s) n)) [
  | inl fits ↦ rw fits (as_is (leb→le _ _ fits))
  | inr long ↦ rw long cut
]
  where
    as_is : length s ≤ n → length s ≤ n + 3
    as_is h = omega arith

    cut : length (take n s ++ ellipsis) ≤ n + 3
    cut = rw (length-append (take n s) ellipsis, length-take n s) (omega arith)

record Kept (p : Payload) (i : ClaudeInfo) : Type 0 where
  session : i.session_id ≡ p.session_id
  dir : i.cwd ≡ p.cwd
  prompt_fits : length i.prompt ≤ 243

tool_info-Kept : (p : Payload) (phase : Bytes) → Kept p (tool_info p (bare_info phase p))
unfolding tool_info
tool_info-Kept p phase = record { session = refl; dir = refl; prompt_fits = fits }
  where
    sub : Bytes
    sub = string_field p.tool_input (codes "prompt")

    fits : length (if not (eq_bytes sub []) then truncate sub 240 else []) ≤ 243
    fits =
        if_both (λ t. length t ≤ 243) (not (eq_bytes sub [])) {b = []} (truncate-bounded sub 240)
          (omega arith)

bare-Kept :
    (p : Payload) (phase : Bytes) (s : Bytes) → Kept p (record (bare_info phase p) { summary = s })
bare-Kept p phase s = record { session = refl; dir = refl; prompt_fits = omega arith }

prompt-Kept :
    (p : Payload) (phase : Bytes) (s : Bytes)
    → Kept p (record (bare_info phase p) { prompt = truncate p.prompt 240; summary = s })
prompt-Kept p phase s = record {
  session = refl;
  dir = refl;
  prompt_fits = truncate-bounded p.prompt 240;
}

fill_info-Kept : (p : Payload) (phase : Bytes) → Kept p (fill_info phase p (bare_info phase p))
unfolding fill_info
fill_info-Kept p phase =
    if_both (Kept p) (eq_bytes phase (codes "user_prompt")) (prompt-Kept p phase _) (
      if_both (Kept p) (is_one_of phase (codes "pre" ∷ codes "post" ∷ [])) (tool_info-Kept p phase)
        (if_both (Kept p) (eq_bytes phase (codes "session_start")) (bare-Kept p phase _) (
          if_both (Kept p) (eq_bytes phase (codes "stop")) (bare-Kept p phase _) (
            if_both (Kept p) (eq_bytes phase (codes "subagent_stop")) (bare-Kept p phase _) (
              if_both (Kept p) (eq_bytes phase (codes "notification")) (bare-Kept p phase _)
                (bare-Kept p phase []))))))

-- Whatever the payload, an info that is built from it has its session and working directory
-- unchanged, and its prompt, which may come from a tool's input, is at most 243 bytes long.
build_claude_info-bounded :
    (p : Payload) {i : ClaudeInfo}
    → build_claude_info p ≡ some i
    → (i.session_id ≡ p.session_id) × (i.cwd ≡ p.cwd) × (length i.prompt ≤ 243)
unfolding build_claude_info
build_claude_info-bounded p {i} e = elim (Option-cases (map_phase p.hook_event_name)) [
  | inl unknown ↦ cc (rw (build_claude_info, unknown) at e)
  | inr (phase, known) ↦
      let built = some-injective _ _ (rw (build_claude_info, known) at e) in
      let k = fill_info-Kept p phase in rw (sym built) (k.session, k.dir, k.prompt_fits)
]
