-- ===== src/Api/Alone.antt =====
-- The blocks of one mark, report or declaration of server/freebsd_ref/main.cpp without another call
-- between them.
use sctp_conformance.Base.{
  Bytes, Option-cases, not, ◌&&◌, ℕ, zero, suc, ◌≡◌, refl, sym, ap, ◌∙◌, Bool, true, false, List,
  [], ◌∷◌, ◌++◌, length, append-nil, append_assoc, ltb, if◌then◌else◌, Bool-cases, inl, inr,
}
use sctp_conformance.Base.Int.{ℤ, is_nonneg}
use sctp_conformance.Session.{
  FeatureExecution, Slot, is_active, is_passed, is_pending, is_server_observed, closable,
  clear_active_feature, close_active_fds, release, mark_failed, mark_network_complete,
  maybe_timeout,
}
use sctp_conformance.Json.Value.{Members, Params}
use sctp_conformance.Api.Report.{requires_ids, check_assoc_ids, accept_report, report_ids, give_up}
use sctp_conformance.Api.Blocks.{
  Mark, failing, observing, timing_out, reporting, declining, accept, report, decline, run_mark,
  Place, deciding, taking, closing, returned, decide, block, run_alone,
}

alone_returned : (fuel : ℕ) (s : Slot) → run_alone fuel returned s ≡ (s, returned)
unfolding run_alone block
alone_returned zero s = refl
alone_returned (suc fuel) s = alone_returned fuel s

-- The last block of a call that has finished its execution.
unfoldable finish : Bool → Slot → Slot
finish true s = clear_active_feature (s.execution.definition.id) s
finish false s = s

-- A call that has taken some descriptors closes them.
alone_closing :
    (finished : Bool) (fds : List ℤ) (s : Slot)
    → run_alone (suc (suc (length fds))) (closing finished fds) s
      ≡ (finish finished (record s { closed = s.closed ++ closable fds }), returned)
unfolding run_alone block closable
alone_closing true [] s =
    unfold finish in
    ap
      (λ (cs : List ℤ).
        (clear_active_feature (s.execution.definition.id) (record s { closed = cs }), returned))
      (sym (append-nil s.closed))
alone_closing false [] s =
    unfold finish in
    ap (λ (cs : List ℤ). let t : Slot = record s { closed = cs } in (t, returned))
      (sym (append-nil s.closed))
alone_closing finished (fd ∷ fds) s = elim (Bool-cases (is_nonneg fd)) [
  | inl holds ↦
      rw (holds, run_alone, block)
        (alone_closing finished fds (record s { closed = s.closed ++ fd ∷ [] })
          ∙ ap (λ (cs : List ℤ). (finish finished (record s { closed = cs }), returned))
              (append_assoc s.closed (fd ∷ []) (closable fds)))
  | inr fails ↦ rw (fails, run_alone, block) (alone_closing finished fds s)
]

alone_taking :
    (finished : Bool) (s : Slot)
    → run_alone (suc (suc (suc (length (s.execution.active_fds))))) (taking finished) s
      ≡ ((if finished then release s else close_active_fds s), returned)
unfolding run_alone block release close_active_fds finish
alone_taking true s =
    alone_closing true (s.execution.active_fds)
      (record s { execution = record (s.execution) { active_fds = [] } })
alone_taking false s =
    alone_closing false (s.execution.active_fds)
      (record s { execution = record (s.execution) { active_fds = [] } })

-- What a block decides, whichever branch it takes.
alone-if :
    (fuel : ℕ) (b : Bool) (x y : FeatureExecution × Place) (s r t : Slot)
    → run_alone fuel x.1 (record s { execution = x.0 }) ≡ (r, returned)
    → run_alone fuel y.1 (record s { execution = y.0 }) ≡ (t, returned)
    → let z = if b then x else y in
      run_alone fuel z.1 (record s { execution = z.0 }) ≡ ((if b then r else t), returned)
alone-if fuel true x y s r t h g = h
alone-if fuel false x y s r t h g = g

alone_accept :
    (now : ℕ) (root : Members) (s : Slot)
    → run_alone
        (suc (suc (suc (length (s.execution.active_fds)))))
        (accept now root s.execution).1
        (record s { execution = (accept now root s.execution).0 })
      ≡ (accept_report now root s, returned)
unfolding accept accept_report
alone_accept now root s =
    let n = length (s.execution.active_fds) in
    alone-if (suc (suc (suc n))) _ _ _ s _ _ (alone_taking true _)
      (alone_returned (suc (suc (suc n))) _)

-- What the handler of a report does with a body that it could read.
alone_reporting :
    (utc : ℕ → Bytes) (root : Members) (ids : List Bytes) (now : ℕ) (s : Slot)
    → run_alone
        (suc (suc (suc (suc (length (s.execution.active_fds))))))
        (deciding (reporting root ids) now)
        s
      ≡ ((report_ids utc now root ids s).0, returned)
unfolding run_alone block decide report report_ids
alone_reporting utc root ids now s = elim (Bool-cases (is_active (s.execution.state))) [
  | inr off ↦ rw (off, run_alone, block, decide, report, report_ids) (alone_returned fuel s)
  | inl on ↦ elim (Bool-cases (is_server_observed (s.execution.definition.completion_mode))) [
    | inl server ↦
        rw (on, server, run_alone, block, decide, report, report_ids) (alone_returned fuel s)
    | inr agent ↦ elim (Option-cases (requires_ids (s.execution.definition.one_to_many))) [
      | inl free ↦
          rw (on, agent, free, run_alone, block, decide, report, report_ids)
            (alone_accept now root s)
      | inr (contract, asked) ↦ elim (Option-cases (check_assoc_ids contract ids)) [
        | inl good ↦
            rw (on, agent, asked, good, run_alone, block, decide, report, report_ids)
              (alone_accept now root
                (record s { execution = record (s.execution) { assoc_ids = ids } }))
        | inr (text, bad) ↦
            rw (on, agent, asked, bad, run_alone, block, decide, report, report_ids)
              (alone_returned fuel s)
      ]
    ]
  ]
]
  where
    fuel : ℕ
    fuel = suc (suc (suc (length (s.execution.active_fds))))

alone_declining :
    (utc : ℕ → Bytes) (params : Params) (now : ℕ) (s : Slot)
    → run_alone
        (suc (suc (suc (suc (length (s.execution.active_fds))))))
        (deciding (declining params) now)
        s
      ≡ ((give_up utc now params s).0, returned)
unfolding run_alone block decide decline give_up
alone_declining utc params now s =
    let fuel = suc (suc (suc (length (s.execution.active_fds)))) in
    let e = s.execution in
    elim (Bool-cases (is_passed e.state)) [
      | inl done ↦ rw (done, run_alone, block, decide, decline, give_up) (alone_returned fuel s)
      | inr unpassed ↦ elim (Bool-cases (not (is_pending e.state) && not (is_active e.state))) [
        | inl over ↦
            rw (unpassed, over, run_alone, block, decide, decline, give_up) (alone_returned fuel s)
        | inr running ↦
            rw (unpassed, running, run_alone, block, decide, decline, give_up) (alone_taking true _)
      ]
    ]

-- With nothing in between, the blocks of a call make up its function.
pub run_alone_as_run_mark :
    (utc : ℕ → Bytes) (mark : Mark) (now : ℕ) (s : Slot)
    → run_alone (suc (suc (suc (suc (length (s.execution.active_fds)))))) (deciding mark now) s
      ≡ (run_mark utc mark now s, returned)
unfolding run_alone block decide mark_failed mark_network_complete maybe_timeout
run_alone_as_run_mark utc mark now s = go mark
  where
    fuel : ℕ
    fuel = suc (suc (suc (length (s.execution.active_fds))))

    go :
        (mark : Mark)
        → run_alone (suc fuel) (deciding mark now) s ≡ (run_mark utc mark now s, returned)
    go (failing text) =
        alone-if fuel (is_active (s.execution.state)) _ _ s _ s (alone_taking true _)
          (alone_returned fuel s)
    go observing =
        alone-if fuel (is_active (s.execution.state)) _ _ s _ s
          (alone-if fuel _ _ _ s _ _ (alone_taking true _) (alone_taking false _))
          (alone_returned fuel s)
    go timing_out =
        alone-if fuel (is_active (s.execution.state)) _ _ s _ s
          (alone-if fuel (ltb now (s.execution.deadline_at)) _ _ s s _ (alone_returned fuel s)
            (alone_taking true _))
          (alone_returned fuel s)
    go (reporting root ids) = alone_reporting utc root ids now s
    go (declining params) = alone_declining utc params now s
