-- ===== src/Events/Observation.antt =====
-- service_protocol.cpp, `EncodeEgressProbeObservation`: an observation as the text that the service
-- adds to a failure.
use pokrov_app.Events.LineLaws.{split, split-append, split-lacks}
use pokrov_app.Events.Words.{
  IsWord, egress_probe_error_domain_name-IsWord, egress_probe_outcome_name-IsWord,
  egress_probe_stage_name-IsWord, egress_probe_target_name-IsWord,
  first_owned_dns_state_name-IsWord, is_plain_char,
}
use pokrov_app.Events.Types.{EgressProbeObservation}
use pokrov_app.Protocol.Decimal.{to_string-lacks, to_string}
use pokrov_app.Events.Names.{
  egress_probe_error_domain_name, egress_probe_outcome_name, egress_probe_stage_name,
  egress_probe_target_name, first_owned_dns_state_name,
}
use pokrov_app.Base.{
  append_assoc, &&-left, &&-right, all_of-append, all_of-lacks, ap, append-nil, arith, refl, ◌∙◌,
  Bool, List, Option, Option-cases, [], all_of, contains, false, inl, inr, none, not, some, text,
  true, ◌++◌, ◌∷◌, ◌≡◌, ℕ,
}

unfoldable pub optional_number : Option ℕ → List ℕ
optional_number none = text "unknown"
optional_number (some n) = to_string n

unfoldable pub optional_flag : Option Bool → List ℕ
optional_flag none = text "unknown"
optional_flag (some true) = text "1"
optional_flag (some false) = text "0"

-- The part that is written if the observation has a target.
unfoldable pub target_part : EgressProbeObservation → List ℕ
target_part o = elim o.target [
  | none ↦ []
  | some target ↦
      text ";egress_probe_target="
      ++ (egress_probe_target_name target
          ++ (text ";egress_owner_remaining_ms_at_entry="
              ++ (optional_number o.owner_remaining_ms_at_entry
                  ++ (text ";egress_dns_a_accepted=" ++ optional_flag o.dns_a_accepted))))
]

unfoldable pub encode_egress_probe_observation : EgressProbeObservation → List ℕ
encode_egress_probe_observation o =
    text ";egress_probe_stage="
    ++ (egress_probe_stage_name o.stage
        ++ (text ";egress_probe_outcome="
            ++ (egress_probe_outcome_name o.outcome
                ++ (text ";egress_error_domain="
                    ++ (egress_probe_error_domain_name o.error_domain
                        ++ (text ";egress_error_code="
                            ++ (to_string o.error_code
                                ++ (text ";egress_elapsed_ms="
                                    ++ (to_string o.elapsed_ms
                                        ++ (text ";first_owned_dns_state="
                                            ++ (first_owned_dns_state_name o.first_owned_dns_state
                                                ++ (target_part o
                                                    ++ (text ";egress_http_local_is_tun="
                                                        ++ optional_flag
                                                            o.http_local_is_tun)))))))))))))

-- The fields by name, for an observation with and without a target.
abbrev pub target_fields : EgressProbeObservation → List (List ℕ)
target_fields o = elim o.target [
  | none ↦ []
  | some target ↦
      (text "egress_probe_target=" ++ egress_probe_target_name target)
      ∷ (text "egress_owner_remaining_ms_at_entry="
          ++ optional_number o.owner_remaining_ms_at_entry)
      ∷ (text "egress_dns_a_accepted=" ++ optional_flag o.dns_a_accepted)
      ∷ []
]

abbrev pub observation_fields : EgressProbeObservation → List (List ℕ)
observation_fields o =
    (text "egress_probe_stage=" ++ egress_probe_stage_name o.stage)
    ∷ (text "egress_probe_outcome=" ++ egress_probe_outcome_name o.outcome)
    ∷ (text "egress_error_domain=" ++ egress_probe_error_domain_name o.error_domain)
    ∷ (text "egress_error_code=" ++ to_string o.error_code)
    ∷ (text "egress_elapsed_ms=" ++ to_string o.elapsed_ms)
    ∷ (text "first_owned_dns_state=" ++ first_owned_dns_state_name o.first_owned_dns_state)
    ∷ (target_fields o
        ++ (text "egress_http_local_is_tun=" ++ optional_flag o.http_local_is_tun) ∷ [])

abbrev no_separator : List ℕ → Bool
no_separator s = not (contains b';' s)

word_lacks : (s : List ℕ) → IsWord s → no_separator s ≡ true
word_lacks s h =
    ap not (all_of-lacks is_plain_char b';' s refl (&&-left (all_of is_plain_char s) _ h))

number_lacks : (n : ℕ) → no_separator (to_string n) ≡ true
number_lacks n = ap not (to_string-lacks b';' n refl)

optional_number-lacks : (n : Option ℕ) → no_separator (optional_number n) ≡ true
unfolding optional_number
optional_number-lacks none = refl
optional_number-lacks (some n) = number_lacks n

optional_flag-lacks : (b : Option Bool) → no_separator (optional_flag b) ≡ true
unfolding optional_flag
optional_flag-lacks none = refl
optional_flag-lacks (some true) = refl
optional_flag-lacks (some false) = refl

target_fields-lacks : (o : EgressProbeObservation) → all_of no_separator (target_fields o) ≡ true
target_fields-lacks o = elim (Option-cases o.target) [
  | inl n ↦ rw n refl
  | inr (t, e) ↦
      rw
        (
          e,
          word_lacks (egress_probe_target_name t) (egress_probe_target_name-IsWord t),
          optional_number-lacks o.owner_remaining_ms_at_entry,
          optional_flag-lacks o.dns_a_accepted,
        )
        refl
]

observation_fields-lacks :
    (o : EgressProbeObservation) → all_of no_separator (observation_fields o) ≡ true
observation_fields-lacks o =
    rw
      (
        word_lacks (egress_probe_stage_name o.stage) (egress_probe_stage_name-IsWord o.stage),
        word_lacks (egress_probe_outcome_name o.outcome)
            (egress_probe_outcome_name-IsWord o.outcome),
        word_lacks (egress_probe_error_domain_name o.error_domain)
            (egress_probe_error_domain_name-IsWord o.error_domain),
        number_lacks o.error_code,
        number_lacks o.elapsed_ms,
        word_lacks (first_owned_dns_state_name o.first_owned_dns_state)
            (first_owned_dns_state_name-IsWord o.first_owned_dns_state),
        all_of-append no_separator (target_fields o),
        target_fields-lacks o,
        optional_flag-lacks o.http_local_is_tun,
      )
      refl

-- The text is made of a `;` in front of each field.
joined : List (List ℕ) → List ℕ
joined [] = []
joined (f ∷ fs) = b';' ∷ (f ++ joined fs)

encode-joined :
    (o : EgressProbeObservation) → encode_egress_probe_observation o ≡ joined (observation_fields o)
unfolding encode_egress_probe_observation target_part joined
encode-joined o = elim (Option-cases o.target) [
  | inl n ↦ rw (n, append-nil (optional_flag o.http_local_is_tun)) refl
  | inr (t, e) ↦
      rw
        (
          e,
          append_assoc (egress_probe_target_name t),
          append_assoc (optional_number o.owner_remaining_ms_at_entry),
          append-nil (optional_flag o.http_local_is_tun),
        )
        refl
]

split-joined :
    (f : List ℕ) (fs : List (List ℕ))
    → no_separator f ≡ true
    → all_of no_separator fs ≡ true
    → split b';' (f ++ joined fs) ≡ f ∷ fs
unfolding joined
split-joined f [] h a = rw (append-nil f) (split-lacks b';' f (ground arith))
split-joined f (g ∷ fs) h a =
    split-append b';' f (g ++ joined fs) (ground arith)
    ∙ ap (◌∷◌ f) (split-joined g fs (&&-left (no_separator g) _ a) (&&-right (no_separator g) _ a))

-- The text of an observation falls apart at the separators into an empty text and its named
-- fields: those of the probe, those of its target if it has one, and the local address's.
pub encode_egress_probe_observation-fields :
    (o : EgressProbeObservation)
    → split b';' (encode_egress_probe_observation o) ≡ [] ∷ observation_fields o
encode_egress_probe_observation-fields o =
    ap (split b';') (encode-joined o)
    ∙ split-joined [] (observation_fields o) refl (observation_fields-lacks o)
