-- ===== src/Governance/Api/Ownership.antt =====
-- Aggregate types that another mechanism owns (backend/governance/ownership.py): what the guard of
-- `_run_command` keeps out, and what it lets in.
use torq_pro.Prelude.{
  String, ◌≡◌, ◌≢◌, refl, sym, ◌∙◌, ap, subst, Bool, true, false, List, [], ◌∷◌, ◌++◌, append-nil,
  arith, ok, err, All, Bool-cases, inl, inr,
}
use torq_pro.Governance.Errors.{Outcome}
use torq_pro.Governance.Events.{Metadata, Event}
use torq_pro.Governance.Contract.{EventStore}
use torq_pro.Governance.Service.{new_event}
use torq_pro.Governance.Service.Permits.{rank, last_rank}
use torq_pro.Governance.Service.Plan.{status_on}
use torq_pro.Governance.Service.Outcomes.{IsNew, After}
use torq_pro.Governance.Service.Log.{status_on-snoc}
use torq_pro.Governance.Service.Log.Histories.{Follows-terminal, concerns-of_eq}
use torq_pro.Governance.Api.{
  Command, arguments, is_externally_owned, run, run_command, done, reply_of,
}
use torq_pro.Governance.Api.Engine.{transition_of, validator_of, type-transition_of}
use torq_pro.Governance.Api.Runs.{IsNew-Follows, run-After}
use torq_pro.Governance.Api.Lifecycles.{is_terminal, rank-terminal}

module _ {M : Type 0} where
  abbrev IsUnowned : Event M → Type 0
  IsUnowned e = is_externally_owned e.aggregate_type ≡ false

module _ {M : Type 0} ⦃meta : Metadata M⦄ (store : EventStore M) where
  open store use {State, all_events}

  After-IsUnowned :
      (c : Command M) (fresh : String) (events : List (Event M))
      (p : Outcome (Event M × Bool) × State)
      → is_externally_owned (transition_of c).aggregate_type ≡ false
      → After (transition_of c) (validator_of c) fresh events store p
      → (more : List (Event M)) × (all_events p.1 ≡ ok (events ++ more)) × All IsUnowned more
  unfolding new_event
  After-IsUnowned c fresh events (err x, s) free h = ([], h ∙ ap ok (sym (append-nil events)), tt)
  After-IsUnowned c fresh events (ok (e, false), s) free (old, h) =
      ([], h ∙ ap ok (sym (append-nil events)), tt)
  After-IsUnowned c fresh events (ok (e, true), s) free (new, h) =
      (e ∷ [], h, (subst IsUnowned (sym new.built) free, tt))

  -- A command that follows an event which made its lifecycle terminal appends nothing.
  After-not-IsNew :
      (w : Command M) (fresh : String) (events : List (Event M)) (f : Event M)
      (p : Outcome (Event M × Bool) × State)
      → rank
          (transition_of w).lifecycle_group
          (status_on (transition_of w).aggregate_id (transition_of w).lifecycle_group events)
        ≡ last_rank (transition_of w).lifecycle_group
      → After (transition_of w) (validator_of w) fresh events store p
      → p.0 ≢ ok (f, true)
  unfolding new_event
  After-not-IsNew w fresh events f (err x, s) top h = λ e. cc
  After-not-IsNew w fresh events f (ok (x, false), s) top h = λ e. cc
  After-not-IsNew w fresh events f (ok (x, true), s) top (new, h) = λ e.
      let t = transition_of w in
      cc (
        Follows-terminal t.aggregate_id t.lifecycle_group events x
            (IsNew-Follows w fresh events x new) top,
        concerns-of_eq t.aggregate_id t.lifecycle_group x (ap (λ v. v.aggregate_id) new.built)
            (ap (λ v. v.lifecycle_group) new.built),
      )

  After-IsNew :
      (c : Command M) (fresh : String) (events : List (Event M)) (e : Event M)
      (p : Outcome (Event M × Bool) × State)
      → p.0 ≡ ok (e, true)
      → After (transition_of c) (validator_of c) fresh events store p
      → (all_events p.1 ≡ ok (events ++ e ∷ []))
        × IsNew (transition_of c) (validator_of c) fresh events e
  After-IsNew c fresh events e (err x, s) same h = cc
  After-IsNew c fresh events e (ok (x, false), s) same h = cc
  After-IsNew c fresh events e (ok (x, true), s) same (new, h) =
      let x_is_e : x ≡ e = cc in
      subst
        (λ y.
          (all_events s ≡ ok (events ++ y ∷ []))
          × IsNew (transition_of c) (validator_of c) fresh events y)
        x_is_e (h, new)

  -- Whatever the HTTP surface is sent, no event of an externally owned type is written through it.
  pub run_command-IsUnowned :
      (c : Command M) (fresh : String) (s : State) (events : List (Event M))
      → all_events s ≡ ok events
      → (more : List (Event M)) × (all_events (run_command store c fresh s).1 ≡ ok (events ++ more))
        × All IsUnowned more
  unfolding run_command
  run_command-IsUnowned c fresh s events h =
      elim (Bool-cases (is_externally_owned (arguments c).aggregate_type)) [
        | inl owned ↦ rw owned ([], h ∙ ap ok (sym (append-nil events)), tt)
        | inr free ↦ rw free (
            After-IsUnowned c fresh events (run store c fresh s)
              (ap is_externally_owned (type-transition_of c) ∙ free)
              (run-After store c fresh events s h))
      ]

  reply_of-done :
      (r : Outcome (Event M × Bool)) (e : Event M) → reply_of r ≡ done e true → r ≡ ok (e, true)
  unfolding reply_of
  reply_of-done (ok (x, created)) e h = ground arith
  reply_of-done (err y) e h = ground arith

  -- What a request that recorded an event has left in the store.
  pub run_command-records :
      (c : Command M) (fresh : String) (s : State) (events : List (Event M)) (e : Event M)
      → all_events s ≡ ok events
      → (run_command store c fresh s).0 ≡ done e true
      → (all_events (run_command store c fresh s).1 ≡ ok (events ++ e ∷ []))
        × IsNew (transition_of c) (validator_of c) fresh events e
  unfolding run_command
  run_command-records c fresh s events e h answer =
      elim (Bool-cases (is_externally_owned (arguments c).aggregate_type)) [
        | inl owned ↦ cc (rw owned at answer)
        | inr free ↦ rw free (
            After-IsNew c fresh events e (run store c fresh s)
              (reply_of-done (run store c fresh s).0 e (rw free at answer))
              (run-After store c fresh events s h))
      ]

  -- The guard looks at the type, the effective status at the id: after the HTTP surface has taken an
  -- aggregate id to a terminal status, under whatever type it let in, no writer of the same id and
  -- group, one with an owned type included, can record an event.
  pub owner_locked_out :
      (c w : Command M) (fresh fresh' : String) (s : State) (events : List (Event M))
      (e f : Event M)
      → all_events s ≡ ok events
      → (run_command store c fresh s).0 ≡ done e true
      → is_terminal e.lifecycle_group e.new_status ≡ true
      → (transition_of w).aggregate_id ≡ e.aggregate_id
      → (transition_of w).lifecycle_group ≡ e.lifecycle_group
      → (run store w fresh' (run_command store c fresh s).1).0 ≢ ok (f, true)
  owner_locked_out c w fresh fresh' s events e f h answer last same_id same_group =
      let (read, new) = run_command-records c fresh s events e h answer in
      After-not-IsNew w fresh' (events ++ e ∷ []) f
        (run store w fresh' (run_command store c fresh s).1)
        (rw
          (
            same_id,
            same_group,
            status_on-snoc e.aggregate_id e.lifecycle_group events e,
            concerns-of_eq e.aggregate_id e.lifecycle_group e refl refl,
          )
          (rank-terminal e.lifecycle_group e.new_status last))
        (run-After store w fresh' (events ++ e ∷ []) (run_command store c fresh s).1 read)
