-- ===== src/Merkle/Redaction/Laws.antt =====
-- merkle/redaction.go: what the two parts of a content hold.
use gomatrixcrypto.Base.{
  ℕ, ◌≡◌, refl, sym, ap, ◌∙◌, Bool, true, false, ◌||◌, List, [], ◌∷◌, Option, none, some, list_eq,
  list_eq→eq, if◌then◌else◌, Option-cases, Bool-cases, inl, inr, arith,
}
use gomatrixcrypto.MatrixJson.{Value, Items, Fields, array, end, field}
use gomatrixcrypto.MatrixJson.Object.{lookup, lookup-put}
use gomatrixcrypto.Merkle.Redaction.{
  RedactionRule, redaction_preserved_keys, split_dotted_path, preserve_key, preserve, preserve_all,
  redact_content, deep_equal, remainder_of, keep, ephemeral_remainder, split_redaction_content,
  interface_equal,
}

-- Whether a rule lists a key.
unfoldable pub is_listed : List ℕ → List (List ℕ) → Bool
is_listed k [] = false
is_listed k (path ∷ paths) = if list_eq path k then true else is_listed k paths

-- No path of the list is a dotted one.
unfoldable pub is_plain : List (List ℕ) → Bool
is_plain [] = true
is_plain (path ∷ paths) = elim (split_dotted_path path) [
  | none ↦ is_plain paths
  | some parts ↦ false
]

abbrev or_else : Option Value → Option Value → Option Value
or_else none other_value = other_value
or_else (some v) other_value = some v

or_else_twice : (a b : Option Value) → or_else a (or_else a b) ≡ or_else a b
or_else_twice none b = refl
or_else_twice (some v) b = refl

or_else-none : (a : Option Value) → or_else a none ≡ a
or_else-none none = refl
or_else-none (some v) = refl

lookup-preserve :
    (content : Fields) (path : List ℕ) (out : Fields) (k : List ℕ)
    → split_dotted_path path ≡ none
    → lookup k (preserve content path out)
      ≡ (if list_eq path k then or_else (lookup k content) (lookup k out) else lookup k out)
unfolding preserve preserve_key
lookup-preserve content path out k e = elim (Option-cases (lookup path content)) [
  | inl f ↦ ground (arith, list_eq→eq path k)
  | inr (v, f) ↦ ground (arith, list_eq→eq path k, lookup-put k path v out)
]

lookup-preserve_all :
    (content : Fields) (paths : List (List ℕ)) (out : Fields) (k : List ℕ)
    → is_plain paths ≡ true
    → lookup k (preserve_all content paths out)
      ≡ (if is_listed k paths then or_else (lookup k content) (lookup k out) else lookup k out)
unfolding preserve_all is_listed is_plain
lookup-preserve_all content [] out k plain = refl
lookup-preserve_all content (path ∷ paths) out k plain =
    elim (Option-cases (split_dotted_path path)) [
      | inr (parts, e) ↦ absurd (ground arith)
      | inl e ↦
          let front = lookup-preserve content path out k e in
          let rest =
            lookup-preserve_all content paths (preserve content path out) k (ground arith) in
          let both : or_else (lookup k content) (or_else (lookup k content) (lookup k out))
              ≡ or_else (lookup k content) (lookup k out) =
            or_else_twice (lookup k content) (lookup k out) in
          ground arith
    ]

-- Where no key of the rule is a dotted path, a redacted content has the values of the content at the
-- keys that the rule lists, or at all keys where it preserves all, and no others.
pub lookup-redact_content :
    (content : Fields) (rule : RedactionRule) (k : List ℕ)
    → is_plain rule.keys ≡ true
    → lookup k (redact_content content rule)
      ≡ (if rule.all || is_listed k rule.keys then lookup k content else none)
unfolding redact_content
lookup-redact_content content rule k plain =
    let rest = lookup-preserve_all content rule.keys end k plain in
    let nothing : or_else (lookup k content) none ≡ lookup k content =
      or_else-none (lookup k content) in
    unfold lookup in ground arith

lookup-keep :
    (k l : List ℕ) (left_over : Option Value) (rest : Fields)
    → list_eq l k ≡ false
    → lookup k (keep l left_over rest) ≡ lookup k rest
unfolding lookup
lookup-keep k l none rest differ = refl
lookup-keep k l (some v) rest differ = rw differ refl

module _ (equal_other : ℕ → ℕ → Option Bool) where
  ephemeral_remainder-array :
      (content redacted : Fields) (k : List ℕ) (vs ws : Items)
      → lookup k redacted ≡ some (array ws)
      → lookup k content ≡ some (array vs)
      → ephemeral_remainder equal_other content redacted ≡ none
  unfolding lookup ephemeral_remainder
  ephemeral_remainder-array end redacted k vs ws e f = absurd (ground arith)
  ephemeral_remainder-array (field l v content) redacted k vs ws e f =
      elim (Bool-cases (list_eq l k)) [
        | inl same ↦
            let at : l ≡ k = list_eq→eq l k same in
            let value : v ≡ array vs = ground arith in
            let stuck : remainder_of equal_other (lookup l redacted) v ≡ none =
              rw (at, e, value) (unfold remainder_of deep_equal interface_equal in refl) in
            rw (stuck, ephemeral_remainder) refl
        | inr differ ↦
            let rest : ephemeral_remainder equal_other content redacted ≡ none =
              ephemeral_remainder-array content redacted k vs ws e (ground arith) in
            elim (Option-cases (remainder_of equal_other (lookup l redacted) v)) [
              | inl g ↦ rw (g, ephemeral_remainder) refl
              | inr (left_over, g) ↦ rw (g, rest, ephemeral_remainder) refl
            ]
      ]

  -- Where redaction preserves a key of a content whose value is a list, the split of the content panics.
  pub split_redaction_content-array :
      (content : Fields) (event_type k : List ℕ) (vs : Items)
      → lookup k content ≡ some (array vs)
      → lookup k (redact_content content (redaction_preserved_keys event_type)) ≡ some (array vs)
      → split_redaction_content equal_other content event_type ≡ none
  unfolding split_redaction_content
  split_redaction_content-array content event_type k vs e f =
      rw
        (
          split_redaction_content,
          ephemeral_remainder-array content
              (redact_content content (redaction_preserved_keys event_type)) k vs vs f e,
        )
        refl

  lookup-ephemeral_remainder :
      (content redacted ephemeral : Fields) (k : List ℕ)
      → ephemeral_remainder equal_other content redacted ≡ some ephemeral
      → lookup k redacted ≡ none
      → lookup k ephemeral ≡ lookup k content
  unfolding lookup ephemeral_remainder
  lookup-ephemeral_remainder end redacted ephemeral k e f =
      let nothing : ephemeral ≡ end = ground arith in rw nothing refl
  lookup-ephemeral_remainder (field l v content) redacted ephemeral k e f =
      elim (Option-cases (remainder_of equal_other (lookup l redacted) v)) [
        | inl g ↦ absurd (ground arith)
        | inr (left_over, g) ↦
            elim (Option-cases (ephemeral_remainder equal_other content redacted)) [
              | inl h ↦ absurd (ground arith)
              | inr (rest, h) ↦
                  let ih = lookup-ephemeral_remainder content redacted rest k h f in
                  let is : ephemeral ≡ keep l left_over rest = ground arith in
                  elim (Bool-cases (list_eq l k)) [
                    | inl same ↦
                        let at : l ≡ k = list_eq→eq l k same in
                        let whole : left_over ≡ some v =
                          let none_preserved : lookup l redacted ≡ none =
                            ap (λ (x : List ℕ). lookup x redacted) at ∙ f in
                          unfold remainder_of in ground arith in
                        rw (is, whole, same) refl
                    | inr differ ↦ rw (is, differ) (lookup-keep k l left_over rest differ ∙ ih)
                  ]
            ]
      ]

  -- Where a split of a content succeeds, the ephemeral part has the content's value, or none, at each
  -- key that the redacted part lacks.
  pub lookup-split_redaction_content :
      (content redacted ephemeral : Fields) (event_type k : List ℕ)
      → split_redaction_content equal_other content event_type ≡ some (redacted, ephemeral)
      → lookup k redacted ≡ none
      → lookup k ephemeral ≡ lookup k content
  lookup-split_redaction_content content redacted ephemeral event_type k e f =
      let kept : Fields = redact_content content (redaction_preserved_keys event_type) in
      elim (Option-cases (ephemeral_remainder equal_other content kept)) [
        | inl g ↦ absurd (unfold split_redaction_content in ground arith)
        | inr (rest, g) ↦
            let first : kept ≡ redacted = unfold split_redaction_content in ground arith in
            let second : rest ≡ ephemeral = unfold split_redaction_content in ground arith in
            ap (lookup k) (sym second)
            ∙ lookup-ephemeral_remainder content kept rest k g (ap (lookup k) first ∙ f)
      ]
