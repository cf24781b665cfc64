-- ===== src/Watcher/Dedupe.antt =====
-- The map of recent events as a finite map: reading after writing and after deleting.
use agentflash.Common.{
  ℕ, ◌-◌, Bool, true, false, Option, none, some, [], ◌∷◌, ◌≡◌, ◌↔◌, ◌⊎◌, refl, sym, ap, ap₂, ◌∙◌,
  arith, inl, inr, ltb, eq_bytes_iff, Bool-cases, if_both, if◌then◌else◌, length,
}
use agentflash.TreeWatch.{EventKind, create, write, remove, rename}
use agentflash.Watcher.{
  DedupeKey, eq_kind, eq_key, Recent, last_seen, see, delete_old, prune, prune_age, prune_above,
}

eq_kind_iff : (a b : EventKind) → (eq_kind a b ≡ true) ↔ (a ≡ b)
eq_kind_iff create create = ground arith
eq_kind_iff create write = ground arith
eq_kind_iff create remove = ground arith
eq_kind_iff create rename = ground arith
eq_kind_iff write create = ground arith
eq_kind_iff write write = ground arith
eq_kind_iff write remove = ground arith
eq_kind_iff write rename = ground arith
eq_kind_iff remove create = ground arith
eq_kind_iff remove write = ground arith
eq_kind_iff remove remove = ground arith
eq_kind_iff remove rename = ground arith
eq_kind_iff rename create = ground arith
eq_kind_iff rename write = ground arith
eq_kind_iff rename remove = ground arith
eq_kind_iff rename rename = ground arith

pub eq_key_iff : (a b : DedupeKey) → (eq_key a b ≡ true) ↔ (a ≡ b)
eq_key_iff a b = (
  λ e.
      both ((eq_bytes_iff a.path b.path).0 (ground arith))
        ((eq_kind_iff a.kind b.kind).0 (ground arith)),
  λ e.
      let p = (eq_bytes_iff a.path b.path).1 (ap (λ x. x.path) e) in
      let k = (eq_kind_iff a.kind b.kind).1 (ap (λ x. x.kind) e) in rw (p, k),
)
  where
    both : a.path ≡ b.path → a.kind ≡ b.kind → a ≡ b
    both p k = ap₂ (λ x y. record { path = x; kind = y }) p k

pub eq_key_refl : (a : DedupeKey) → eq_key a a ≡ true
eq_key_refl a = (eq_key_iff a a).1 refl

if_same :
    (c : Bool) (t : Option ℕ) {o p : Option ℕ} → o ≡ p → (if c then t else o) ≡ (if c then t else p)
if_same c t e = ap (λ x. if c then t else x) e

-- No key twice.
abbrev pub Distinct : Recent → Type 0
Distinct [] = Unit
Distinct ((k, t) ∷ r) = (last_seen k r ≡ none) × Distinct r

pub last_seen-see_same :
    (k : DedupeKey) (now : ℕ) (r : Recent) → last_seen k (see k now r) ≡ some now
unfolding last_seen see
last_seen-see_same k now [] = rw (eq_key_refl k)
last_seen-see_same k now ((j, t) ∷ r) = elim (Bool-cases (eq_key k j)) [
  | inl same ↦ rw (same, same)
  | inr other ↦ rw (other, other) (last_seen-see_same k now r)
]

pub last_seen-see_other :
    (k j : DedupeKey) (now : ℕ) (r : Recent)
    → eq_key k j ≡ false
    → last_seen k (see j now r) ≡ last_seen k r
unfolding last_seen see
last_seen-see_other k j now [] h = rw h
last_seen-see_other k j now ((i, t) ∷ r) h = elim (Bool-cases (eq_key j i)) [
  | inl same ↦ rw (same, sym ((eq_key_iff j i).0 same), h)
  | inr other ↦ rw other (if_same (eq_key k i) (some t) (last_seen-see_other k j now r h))
]

eq_key_comm : (a b : DedupeKey) → eq_key a b ≡ false → eq_key b a ≡ false
eq_key_comm a b h = elim (Bool-cases (eq_key b a)) [
  | inl same ↦ cc (sym ((eq_key_iff a b).1 (sym ((eq_key_iff b a).0 same))) ∙ h)
  | inr other ↦ other
]

pub see-Distinct : (k : DedupeKey) (now : ℕ) (r : Recent) → Distinct r → Distinct (see k now r)
unfolding last_seen see
see-Distinct k now [] d = (refl, tt)
see-Distinct k now ((j, t) ∷ r) (new, d) = elim (Bool-cases (eq_key k j)) [
  | inl same ↦ rw same (new, d)
  | inr other ↦
      rw other (last_seen-see_other j k now r (eq_key_comm k j other) ∙ new, see-Distinct k now r d)
]

-- What is left of a time by the loop that deletes old entries.
abbrev pub young : ℕ → Option ℕ → Option ℕ
young now none = none
young now (some t) = if ltb prune_age (now - t) then none else some t

last_seen-delete_old :
    (k : DedupeKey) (now : ℕ) (r : Recent)
    → Distinct r
    → last_seen k (delete_old now r) ≡ young now (last_seen k r)
unfolding last_seen delete_old
last_seen-delete_old k now [] d = refl
last_seen-delete_old k now ((j, t) ∷ r) (new, d) = elim (Bool-cases (ltb prune_age (now - t))) [
  | inl old ↦ elim (Bool-cases (eq_key k j)) [
    | inl same ↦
        rw (old, same, old)
          (last_seen-delete_old k now r d
            ∙ ap (young now) (rw (sym ((eq_key_iff k j).0 same)) at new))
    | inr other ↦ rw (old, other) (last_seen-delete_old k now r d)
  ]
  | inr recent ↦ elim (Bool-cases (eq_key k j)) [
    | inl same ↦ rw (recent, same, recent)
    | inr other ↦ rw (recent, other) (last_seen-delete_old k now r d)
  ]
]

delete_old-Distinct : (now : ℕ) (r : Recent) → Distinct r → Distinct (delete_old now r)
unfolding delete_old
delete_old-Distinct now [] d = tt
delete_old-Distinct now ((j, t) ∷ r) (new, d) = elim (Bool-cases (ltb prune_age (now - t))) [
  | inl old ↦ rw old (delete_old-Distinct now r d)
  | inr recent ↦
      rw recent (last_seen-delete_old j now r d ∙ ap (young now) new, delete_old-Distinct now r d)
]

pub prune-Distinct : (now : ℕ) (r : Recent) → Distinct r → Distinct (prune now r)
unfolding prune
prune-Distinct now r d =
    if_both Distinct (ltb prune_above (length r)) (delete_old-Distinct now r d) d

-- Pruning leaves of every key's time either all or, if it is old, nothing.
pub last_seen-prune :
    (k : DedupeKey) (now : ℕ) (r : Recent)
    → Distinct r
    → (last_seen k (prune now r) ≡ last_seen k r)
      ⊎ (last_seen k (prune now r) ≡ young now (last_seen k r))
unfolding prune
last_seen-prune k now r d =
    if_both (λ q. (last_seen k q ≡ last_seen k r) ⊎ (last_seen k q ≡ young now (last_seen k r)))
      (ltb prune_above (length r)) (inr (last_seen-delete_old k now r d)) (inl refl)
