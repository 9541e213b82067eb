-- ===== src/Worker/Partial.antt =====
-- The worker of a partially reliable feature, and its traces.
use sctp_conformance.Base.{
  ℕ, ◌≡◌, ◌≢◌, ◌↔◌, ◌⊎◌, inl, inr, refl, arith, Bool, true, false, List, [], ◌∷◌, Option, none,
  some, Bytes, bytes_eq, bytes_eq_iff, All, Bool-cases,
}
use sctp_conformance.Feature.{MessageSpec}
use sctp_conformance.Payload.{materialize_payload}
use sctp_conformance.Socket.{Platform}
use sctp_conformance.Worker.{
  Received, recv_error, notification, message, completes, is_timeout, last_of, pr_loop,
  run_pr_receive,
}

-- The payloads before the first error, and that error.
abbrev pub payloads : List Received → List Bytes
payloads [] = []
payloads (recv_error e ∷ events) = []
payloads (notification ∷ events) = payloads events
payloads (message r ∷ events) = r.payload ∷ payloads events

abbrev pub ends_in : List Received → Option ℕ
ends_in [] = none
ends_in (recv_error e ∷ events) = some e
ends_in (notification ∷ events) = ends_in events
ends_in (message r ∷ events) = ends_in events

abbrev pub OnlyFinal : Bytes → Bytes → List Bytes → Type 0
OnlyFinal skipped final = All (λ p. (p ≡ final) × (p ≢ skipped))

module _ (platform : Platform) (skipped final : Bytes) where
  pr_loop_sound :
      (events : List Received) (saw_skipped saw_final : Bool)
      → pr_loop platform skipped final saw_skipped saw_final events ≡ completes
      → (saw_skipped ≡ false)
        × ((saw_final ≡ true) ⊎ (payloads events ≢ []))
        × OnlyFinal skipped final (payloads events)
        × ((e : ℕ) × (ends_in events ≡ some e) × (is_timeout platform e ≡ true))
  unfolding pr_loop
  pr_loop_sound [] sk fin h = absurd (ground arith)
  pr_loop_sound (recv_error e ∷ events) sk fin h =
      (ground arith, inl (ground arith), tt, (e, refl, ground arith))
  pr_loop_sound (notification ∷ events) sk fin h = pr_loop_sound events sk fin h
  pr_loop_sound (message r ∷ events) sk fin h = elim (Bool-cases (bytes_eq r.payload skipped)) [
    | inl hit ↦ absurd (ground (arith, (pr_loop_sound events true fin (rw hit at h)).0))
    | inr miss ↦ elim (Bool-cases (bytes_eq r.payload final)) [
      | inl last ↦
          let (a, b, c, d) = pr_loop_sound events sk true (rw (miss, last) at h) in
          (
            a,
            inr (λ e. cc),
            (
              (
                (bytes_eq_iff r.payload final).0 last,
                ground (arith, bytes_eq_iff r.payload skipped),
              ),
              c,
            ),
            d,
          )
      | inr other ↦ absurd (ground arith)
    ]
  ]

  pr_loop_complete :
      (events : List Received) (saw_final : Bool) (e : ℕ)
      → ((saw_final ≡ true) ⊎ (payloads events ≢ []))
      → OnlyFinal skipped final (payloads events)
      → ends_in events ≡ some e
      → is_timeout platform e ≡ true
      → pr_loop platform skipped final false saw_final events ≡ completes
  unfolding pr_loop
  pr_loop_complete [] fin e s o d t = absurd (ground arith)
  pr_loop_complete (recv_error c ∷ events) fin e s o d t = ground arith
  pr_loop_complete (notification ∷ events) fin e s o d t = pr_loop_complete events fin e s o d t
  pr_loop_complete (message r ∷ events) fin e s o d t = ground (
    arith,
    bytes_eq_iff r.payload skipped,
    bytes_eq_iff r.payload final,
    pr_loop_complete events true e,
  )

-- `run_pr_receive_worker` completes exactly if the trace ends in a timeout of the receive, at
-- least one message came before it, and every such message was the final one and none the message
-- that the client should have abandoned.
pub run_pr_receive_completes_iff :
    (platform : Platform) (m n : MessageSpec) (ms : List MessageSpec) (events : List Received)
    → (run_pr_receive platform (m ∷ n ∷ ms) events ≡ completes) ↔ (
        (payloads events ≢ [])
        × OnlyFinal (materialize_payload m) (materialize_payload (last_of n ms)) (payloads events)
        × ((e : ℕ) × (ends_in events ≡ some e) × (is_timeout platform e ≡ true)))
unfolding run_pr_receive
run_pr_receive_completes_iff platform m n ms events = (
  λ h.
      let (_, some_came, only, ended) = pr_loop_sound platform _ _ events false false h in
      (ground arith, only, ended),
  λ h. pr_loop_complete platform _ _ events false h.2.0 (inr h.0) h.1 h.2.1 h.2.2,
)
