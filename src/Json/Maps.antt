-- ===== src/Json/Maps.antt =====
-- Reading a map after writing it.
use mathlib.Core.Option.{some-injective}
use agentflash.Common.{
  false, some, ◌≡◌, sym, ap, inl, inr, Bytes, eq_bytes, eq_bytes_iff, eq_bytes_refl, Bool-cases,
  if◌then◌else◌,
}
use agentflash.Json.{Value, Fields, field, no_fields, get, put}

pub get-put_same : (k : Bytes) (v : Value) (fs : Fields) → get k (put k v fs) ≡ some v
unfolding get put
get-put_same k v no_fields = rw (eq_bytes_refl k)
get-put_same k v (field j w fs) = elim (Bool-cases (eq_bytes k j)) [
  | inl same ↦ rw (same, same)
  | inr other ↦ rw (other, other) (get-put_same k v fs)
]

pub get-put_other :
    (k j : Bytes) (v : Value) (fs : Fields) → eq_bytes k j ≡ false → get k (put j v fs) ≡ get k fs
unfolding get put
get-put_other k j v no_fields h = rw h
get-put_other k j v (field i w fs) h = elim (Bool-cases (eq_bytes j i)) [
  | inl same ↦ rw (same, sym ((eq_bytes_iff j i).0 same), h)
  | inr other ↦ rw other (ap (λ x. if eq_bytes k i then some w else x) (get-put_other k j v fs h))
]

-- Writing what is there changes nothing.
pub put-get : (k : Bytes) (v : Value) (fs : Fields) → get k fs ≡ some v → put k v fs ≡ fs
unfolding get put
put-get k v no_fields h = cc
put-get k v (field j w fs) h = elim (Bool-cases (eq_bytes k j)) [
  | inl same ↦ rw same (ap (λ x. field j x fs) (sym (some-injective _ _ (rw same at h))))
  | inr other ↦ rw other (ap (field j w) (put-get k v fs (rw other at h)))
]
