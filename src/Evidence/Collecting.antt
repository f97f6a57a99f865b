-- ===== src/Evidence/Collecting.antt =====
-- What the loop over the results collects (backend/control/evidence_completion.py).
use mathlib.Core.Path.{subst}
use ai_control_center.Base.{
  ℕ, ◌≡◌, refl, ap, ◌∙◌, String, Bool, true, false, ◌&&◌, ◌||◌, not, Option, none, some, List, [],
  ◌∷◌, arith, ◌==◌, eq_iff, all, any, is_empty_list, Bool-cases, Option-cases, inl, inr,
}
use ai_control_center.Base.Keyed.{Keyed, contains, insert}
use ai_control_center.Runs.{RunIntent}
use ai_control_center.Evidence.Completion.{
  adapt_reason, has_key, is_satisfied, adapt, collect, collect_all,
}
use ai_control_center.Evidence.Records.{
  DayCriterion, DayContract, EvidenceResult, Adapted, turned_down, validated, Collected,
  nothing_collected,
}

abbrev pub is_none_text : Option String → Bool
is_none_text none = true
is_none_text (some reason) = false

-- The result is of the type, and no check turns it down.
abbrev pub proves : RunIntent → DayCriterion → String → Option EvidenceResult → Bool
proves intent criterion t none = false
proves intent criterion t (some result) =
    (result.evidence_type == t) && is_none_text (adapt_reason intent criterion result)

-- Every required type, of which there is one, has a result that proves it.
abbrev pub is_proven : RunIntent → DayCriterion → List (Option EvidenceResult) → Bool
is_proven intent criterion results =
    not (is_empty_list criterion.required_evidence)
    && all (λ t. any (proves intent criterion t) results) criterion.required_evidence

has_key-insert {ℓ} :
    {V : Type ℓ} (k j : String) (v : V) (d : Keyed V)
    → has_key j (insert k v d) ≡ ((k == j) || has_key j d)
unfolding insert
has_key-insert k j v [] = refl
has_key-insert k j v ((i, w) ∷ d) = ground (arith, eq_iff i k, eq_iff k j, has_key-insert k j v d)

-- The keys are among some texts.
abbrev all_keys {ℓ} : {V : Type ℓ} → List String → Keyed V → Bool
all_keys required [] = true
all_keys required ((k, v) ∷ d) = contains required k && all_keys required d

all_keys-insert {ℓ} :
    {V : Type ℓ} (required : List String) (k : String) (v : V) (d : Keyed V)
    → contains required k ≡ true
    → all_keys required d ≡ true
    → all_keys required (insert k v d) ≡ true
unfolding insert
all_keys-insert required k v [] c h = ground arith
all_keys-insert required k v ((i, w) ∷ d) c h = ground (arith, all_keys-insert required k v d c)

has_key_same {ℓ} :
    {V : Type ℓ} (k j : String) (d : Keyed V)
    → (k == j) ≡ true
    → has_key k d ≡ true
    → has_key j d ≡ true
has_key_same k j d e h = subst (λ x. has_key x d ≡ true) ((eq_iff k j).0 e) h

adapt_reason-required :
    (intent : RunIntent) (criterion : DayCriterion) (result : EvidenceResult)
    → adapt_reason intent criterion result ≡ none
    → contains criterion.required_evidence result.evidence_type ≡ true
unfolding adapt_reason
adapt_reason-required intent criterion result e = ground arith

-- What an outcome adds: its type, when it is accepted.
abbrev is_of_type : String → Adapted → Bool
is_of_type t (turned_down reason type) = false
is_of_type t (validated r) = r.evidence_type == t

collect-has_key :
    (t : String) (a : Adapted) (c : Collected)
    → has_key t (collect a c).accepted_types ≡ (has_key t c.accepted_types || is_of_type t a)
unfolding collect
collect-has_key t (turned_down reason type) c = ground arith
collect-has_key t (validated r) c = elim (Bool-cases (has_key r.evidence_type c.accepted_types)) [
  | inl old ↦ rw old (ground (arith, has_key_same r.evidence_type t c.accepted_types, old))
  | inr new ↦
      rw new (rw (has_key-insert r.evidence_type t r.record_id c.accepted_types) (ground arith))
]

and_true : (b : Bool) → (b && true) ≡ b
and_true b = ground arith

any_or : (a b c : Bool) → ((a || b) || c) ≡ (a || (b || c))
any_or a b c = ground arith

all_same {ℓ} :
    {A : Type ℓ} (f g : A → Bool) (xs : List A) → ((x : A) → f x ≡ g x) → all f xs ≡ all g xs
all_same f g [] h = refl
all_same f g (x ∷ xs) h = rw (h x) (rw (all_same f g xs h) refl)

all_keys-all :
    (required : List String) (d : Keyed String)
    → all_keys required d ≡ true
    → all (λ (entry : String × String). contains required entry.0) d ≡ true
all_keys-all required [] h = refl
all_keys-all required ((k, v) ∷ d) h = ground (arith, all_keys-all required d)

module _ (digest : RunIntent → DayCriterion → EvidenceResult → String) (now : ℕ)
    (intent : RunIntent) (contract : DayContract) (criterion : DayCriterion) where
  adapt-is_of_type :
      (t : String) (result : Option EvidenceResult)
      → is_of_type t (adapt digest now intent contract criterion result)
        ≡ proves intent criterion t result
  unfolding adapt
  adapt-is_of_type t none = refl
  adapt-is_of_type t (some result) = elim (Option-cases (adapt_reason intent criterion result)) [
    | inl none_given ↦ rw none_given (ground arith)
    | inr (reason, given) ↦ rw given (ground arith)
  ]

  collect_all-has_key :
      (t : String) (results : List (Option EvidenceResult)) (c : Collected)
      → has_key t (collect_all digest now intent contract criterion results c).accepted_types
        ≡ (has_key t c.accepted_types || any (proves intent criterion t) results)
  unfolding collect_all
  collect_all-has_key t [] c = ground arith
  collect_all-has_key t (result ∷ results) c =
      collect_all-has_key t results (collect (adapt digest now intent contract criterion result) c)
      ∙ (rw (collect-has_key t (adapt digest now intent contract criterion result) c) (
          rw (adapt-is_of_type t result) (
            any_or (has_key t c.accepted_types) (proves intent criterion t result)
              (any (proves intent criterion t) results))))

  collect-all_keys :
      (result : Option EvidenceResult) (c : Collected)
      → all_keys criterion.required_evidence c.accepted_types ≡ true
      → all_keys criterion.required_evidence
          (collect (adapt digest now intent contract criterion result) c).accepted_types
        ≡ true
  unfolding collect adapt
  collect-all_keys none c h = h
  collect-all_keys (some result) c h = elim (Option-cases (adapt_reason intent criterion result)) [
    | inr (reason, given) ↦ rw given h
    | inl none_given ↦
        rw none_given (elim (Bool-cases (has_key result.evidence_type c.accepted_types)) [
          | inl old ↦ rw old h
          | inr new ↦ rw new (
              all_keys-insert criterion.required_evidence result.evidence_type _ c.accepted_types
                (adapt_reason-required intent criterion result none_given) h)
        ])
  ]

  collect_all-all_keys :
      (results : List (Option EvidenceResult)) (c : Collected)
      → all_keys criterion.required_evidence c.accepted_types ≡ true
      → all_keys criterion.required_evidence
          (collect_all digest now intent contract criterion results c).accepted_types
        ≡ true
  unfolding collect_all
  collect_all-all_keys [] c h = h
  collect_all-all_keys (result ∷ results) c h =
      collect_all-all_keys results (collect (adapt digest now intent contract criterion result) c)
        (collect-all_keys result c h)

  -- The loop satisfies a criterion exactly when the results prove it.
  pub collect_all-is_satisfied :
      (results : List (Option EvidenceResult))
      → is_satisfied criterion.required_evidence
          (collect_all digest now intent contract criterion results
            nothing_collected).accepted_types
        ≡ is_proven intent criterion results
  unfolding is_satisfied
  collect_all-is_satisfied results =
      rw
        (all_keys-all criterion.required_evidence _
          (collect_all-all_keys results nothing_collected refl))
        (and_true _
          ∙ ap (λ b. not (is_empty_list criterion.required_evidence) && b)
              (all_same
                (λ t.
                  has_key t
                    (collect_all digest now intent contract criterion results
                      nothing_collected).accepted_types)
                (λ t. any (proves intent criterion t) results) criterion.required_evidence
                (λ t. collect_all-has_key t results nothing_collected)))
