-- ===== src/Config/Brokers.antt =====
-- The list of brokers and the validation in internal/config/config.go.
use mathlib.Core.List.{cons-ne-nil}
use llmwatch.Base.{
  Bytes, codes, List, [], ◌∷◌, ◌++◌, append_assoc, append-nil, ◌==◌, nat_eq, bytes_eq, bytes_beq,
  bytes_beq_iff, nat_beq_iff, ℤ, All, All-append, Option, ok, ◌≡◌, ◌≢◌, ◌↔◌, sym, ap, ◌∙◌, arith,
  Bool-cases, inl, inr,
}
use llmwatch.Config.{comma, add_part, split_parts, get_env_slice, load, validate}

abbrev pub LacksComma : Bytes → Type 0
LacksComma = All (λ c. c ≢ comma)

-- The parts with a comma between any two.
abbrev pub join : List Bytes → Bytes
join [] = []
join (p ∷ []) = p
join (p ∷ q ∷ ps) = p ++ comma ∷ join (q ∷ ps)

abbrev pub IsPart : Bytes → Type 0
IsPart p = (p ≢ []) × LacksComma p

split_parts_run :
    (p rest part : Bytes) (result : List Bytes)
    → LacksComma p
    → split_parts (p ++ rest) part result ≡ split_parts rest (part ++ p) result
unfolding split_parts
split_parts_run [] rest part result h = rw append-nil
split_parts_run (c ∷ p) rest part result (h, hs) = ground (
  arith,
  nat_beq_iff c comma,
  split_parts_run p rest (part ++ c ∷ []) result hs,
  append_assoc part (c ∷ []) p,
)

add_part_given : (result : List Bytes) (p : Bytes) → p ≢ [] → add_part result p ≡ result ++ p ∷ []
add_part_given result p h = ground (arith, bytes_beq_iff p [])

split_parts-join :
    (ps : List Bytes) (result : List Bytes)
    → All IsPart ps
    → split_parts (join ps) [] result ≡ result ++ ps
unfolding split_parts bytes_beq
split_parts-join [] result h = sym (append-nil result)
split_parts-join (p ∷ []) result ((given, plain), _) =
    ap (λ s. split_parts s [] result) (sym (append-nil p))
    ∙ split_parts_run p [] [] result plain
    ∙ add_part_given result p given
split_parts-join (p ∷ q ∷ ps) result ((given, plain), rest) =
    split_parts_run p (comma ∷ join (q ∷ ps)) [] result plain
    ∙ split_parts-join (q ∷ ps) (add_part result p) rest
    ∙ ap (λ r. r ++ q ∷ ps) (add_part_given result p given)
    ∙ append_assoc result (p ∷ []) (q ∷ ps)

join-ne-nil : (p : Bytes) (ps : List Bytes) → p ≢ [] → join (p ∷ ps) ≢ []
join-ne-nil p [] h = h
join-ne-nil p (q ∷ ps) h = ground arith

add_part-All :
    (result : List Bytes) (part : Bytes)
    → LacksComma part
    → All IsPart result
    → All IsPart (add_part result part)
add_part-All result part plain parts = elim (Bool-cases (part == [])) [
  | inl empty ↦ rw empty parts
  | inr given ↦ rw given (
      All-append IsPart result (part ∷ []) parts
        (((λ e. cc (given, (bytes_beq_iff part []).1 e)), plain), tt))
]

split_parts-All :
    (s part : Bytes) (result : List Bytes)
    → LacksComma part
    → All IsPart result
    → All IsPart (split_parts s part result)
unfolding split_parts
split_parts-All [] part result plain parts = add_part-All result part plain parts
split_parts-All (c ∷ s) part result plain parts = elim (Bool-cases (c == comma)) [
  | inl sep ↦
      rw (sep, split_parts)
        (split_parts-All s [] (add_part result part) tt (add_part-All result part plain parts))
  | inr other ↦
      rw (other, split_parts)
        (split_parts-All s (part ++ c ∷ []) result
          (All-append _ part (c ∷ []) plain ((λ e. cc (other, (nat_beq_iff c comma).1 e)), tt))
          parts)
]

or_default :
    (found default : List Bytes)
    → All IsPart found
    → default ≢ []
    → All IsPart default
    → let parts : List Bytes = elim found [ [] ↦ default | p ∷ ps ↦ p ∷ ps ] in
      (parts ≢ []) × All IsPart parts
or_default [] default h some_default parts = (some_default, parts)
or_default (p ∷ ps) default h some_default parts = (cons-ne-nil p ps, h)

module _ (getenv : Bytes → Bytes) (parse_duration : Bytes → Option ℤ) where
  -- Any list of one part or more, each not empty and without a comma, is read back from a
  -- variable that holds the parts joined by commas.
  pub get_env_slice-join :
      (key p : Bytes) (ps default : List Bytes)
      → All IsPart (p ∷ ps)
      → getenv key ≡ join (p ∷ ps)
      → get_env_slice getenv parse_duration key default ≡ p ∷ ps
  unfolding get_env_slice
  get_env_slice-join key p ps default parts set = ground (
    arith,
    bytes_beq_iff (getenv key) [],
    join-ne-nil p ps parts.0.0,
    split_parts-join (p ∷ ps) [] parts,
  )

  -- Whatever the variable holds, the list is not empty if the default is not, and its parts are
  -- not empty and hold no comma if those of the default do.
  pub get_env_slice-All :
      (key : Bytes) (default : List Bytes)
      → default ≢ []
      → All IsPart default
      → let parts = get_env_slice getenv parse_duration key default in
        (parts ≢ []) × All IsPart parts
  unfolding get_env_slice
  get_env_slice-All key default some_default parts = elim (Bool-cases (getenv key == [])) [
    | inl unset ↦ rw unset (some_default, parts)
    | inr set ↦
        rw set (or_default _ default (split_parts-All (getenv key) [] [] tt tt) some_default parts)
  ]

  -- After Load the brokers are never missing, so that Validate refuses a configuration exactly
  -- when DATABASE_URL is unset or empty.
  pub validate-load_iff :
      (validate (load getenv parse_duration) ≡ ok tt) ↔ (getenv (codes "DATABASE_URL") ≢ [])
  unfolding validate load
  validate-load_iff = ground (
    arith,
    bytes_beq_iff (getenv (codes "DATABASE_URL")) [],
    (get_env_slice-All (codes "KAFKA_BROKERS") (codes "kafka:9092" ∷ []) (cc)
        (((cc), omega arith), tt)).0,
  )
