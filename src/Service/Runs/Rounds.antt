-- ===== src/Service/Runs/Rounds.antt =====
-- The automatic rounds (internal/app/service.go).
use ctf_agent.Base.{
  ℕ, zero, suc, ◌≡◌, ◌≤◌, refl, ap, ◌⊎◌, inl, inr, Bool, true, false, not, ◌&&◌, none, some,
  is_some, if◌then◌else◌, Bool-cases, Option-cases, arith,
}
use ctf_agent.Docker.{DockerResult}
use ctf_agent.Service.{World, Supply, later, Service, append_log}
use ctf_agent.Service.Finish.{task_was_stopped}
use ctf_agent.Service.Runs.{
  Outcome, HintRunner, outcome, continue_docker_run, auto_continue_prompt, round_log, is_final,
  attach, can_continue, one_round, rounds_over, continue_rounds, run_until_solved,
}
use ctf_agent.Store.{get}
use ctf_agent.Task.{Task}
use ctf_agent.Text.{Text}

-- The outcome of one round for the task.
abbrev pub round_outcome :
    World → World → HintRunner → Text → ℕ → DockerResult → Task → Service → Outcome
round_outcome w0 w1 run id round r t s =
    continue_docker_run w1 run (attach r t) (auto_continue_prompt round)
      (append_log w0 id (round_log round) s)

-- A number of rounds, from a round on, from a result and a service to a result and a service. A
-- round is run only after a result that is not final, for a task that is there, that its user has
-- not stopped, and that can be continued; and it ended without an error.
pub data Rounds (run : HintRunner) (id : Text)
    : ℕ → ℕ → DockerResult → Service → DockerResult → Service → Type 0 where
  no_round : {round : ℕ} {r : DockerResult} {s : Service} → Rounds run id 0 round r s r s
  one_more :
      {n round : ℕ} {r r' : DockerResult} {s s' : Service} (w0 w1 : World) (t : Task)
      → is_final r ≡ false
      → get id s.store ≡ some t
      → task_was_stopped id s ≡ false
      → can_continue (attach r t) ≡ true
      → (round_outcome w0 w1 run id round r t s).error ≡ none
      → Rounds run id n
          (suc round)
          (round_outcome w0 w1 run id round r t s).result
          (round_outcome w0 w1 run id round r t s).service
          r'
          s'
      → Rounds run id (suc n) round r s r' s'

-- The rounds end with the outcome, for one of the three reasons.
pub record Ends (run : HintRunner) (id : Text) (limit round : ℕ) (r : DockerResult) (s : Service)
    (o : Outcome) : Type 0 where
  pub number : ℕ
  pub last_service : Service
  pub rounds : Rounds run id number round r s o.result last_service
  pub at_most : number ≤ limit
  pub reason :
      (is_final o.result ≡ true) ⊎ ((task_was_stopped id o.service ≡ true) ⊎ (number ≡ limit))

module _ (run : HintRunner) (id : Text) where
  at_end :
      (limit round : ℕ) (r : DockerResult) (s : Service)
      → (is_final r ≡ true) ⊎ ((task_was_stopped id s ≡ true) ⊎ (0 ≡ limit))
      → Ends run id limit round r s (outcome s r none)
  at_end limit round r s why = record {
    number = 0;
    last_service = s;
    rounds = no_round;
    at_most = ground arith;
    reason = why;
  }

  rounds_over-Ends :
      (w : World) (round : ℕ) (r : DockerResult) (s : Service)
      → Ends run id 0 round r s (rounds_over w id r s)
  unfolding rounds_over
  rounds_over-Ends w round r s = record {
    number = 0;
    last_service = s;
    rounds = no_round;
    at_most = ground arith;
    reason = inr (inr refl);
  }

  more_reason :
      (n limit : ℕ) (o : Outcome)
      → (is_final o.result ≡ true) ⊎ ((task_was_stopped id o.service ≡ true) ⊎ (n ≡ limit))
      → (is_final o.result ≡ true) ⊎ ((task_was_stopped id o.service ≡ true) ⊎ (suc n ≡ suc limit))
  more_reason n limit o (inl e) = inl e
  more_reason n limit o (inr (inl e)) = inr (inl e)
  more_reason n limit o (inr (inr e)) = inr (inr (ap suc e))

  more :
      (w0 w1 : World) (limit round : ℕ) (r : DockerResult) (t : Task) (s : Service) (o : Outcome)
      → is_final r ≡ false
      → get id s.store ≡ some t
      → task_was_stopped id s ≡ false
      → can_continue (attach r t) ≡ true
      → let next = round_outcome w0 w1 run id round r t s in
        (next.error ≡ none)
        → Ends run id limit (suc round) next.result next.service o
        → Ends run id (suc limit) round r s o
  more w0 w1 limit round r t s o fresh there going able fine ends = record {
    number = suc ends.number;
    last_service = ends.last_service;
    rounds = one_more w0 w1 t fresh there going able fine ends.rounds;
    at_most = (let k = ends.at_most in omega arith);
    reason = more_reason ends.number limit o ends.reason;
  }

  unfoldable goes_on : Outcome → Bool
  goes_on o = not (is_some o.error) && not (is_final o.result)

  goes_on_cases :
      (o : Outcome)
      → (goes_on o ≡ true → (o.error ≡ none) × (is_final o.result ≡ false))
        × (goes_on o ≡ false → o.error ≡ none → is_final o.result ≡ true)
  unfolding goes_on
  goes_on_cases o = (λ h. ground arith, λ h e. ground arith)

  choose-Ends :
      (w0 w1 : World) (limit round : ℕ) (r : DockerResult) (t : Task) (s : Service) (rest : Outcome)
      → is_final r ≡ false
      → get id s.store ≡ some t
      → task_was_stopped id s ≡ false
      → can_continue (attach r t) ≡ true
      → let next = round_outcome w0 w1 run id round r t s in
        (is_final next.result ≡ false
          → rest.error ≡ none
          → Ends run id limit (suc round) next.result next.service rest)
        → (b : Bool) → goes_on next ≡ b
        → (if b then rest else next).error ≡ none
        → Ends run id (suc limit) round r s (if b then rest else next)
  choose-Ends w0 w1 limit round r t s rest fresh there going able k true b done =
      let next = round_outcome w0 w1 run id round r t s in
      let (e, f) = (goes_on_cases next).0 b in
      more w0 w1 limit round r t s rest fresh there going able e (k f done)
  choose-Ends w0 w1 limit round r t s rest fresh there going able k false b done =
      let next = round_outcome w0 w1 run id round r t s in
      more w0 w1 limit round r t s next fresh there going able done (record {
        number = 0;
        last_service = next.service;
        rounds = no_round;
        at_most = ground arith;
        reason = inl ((goes_on_cases next).1 b done);
      })

  round-Ends :
      (w : Supply) (limit round : ℕ) (r : DockerResult) (s : Service)
      → is_final r ≡ false
      → ((r' : DockerResult) (s' : Service)
          → is_final r' ≡ false
          → (continue_rounds (later 2 w) run id limit (suc round) r' s').error ≡ none
          → Ends run id limit
              (suc round)
              r'
              s'
              (continue_rounds (later 2 w) run id limit (suc round) r' s'))
      → (continue_rounds w run id (suc limit) round r s).error ≡ none
      → Ends run id (suc limit) round r s (continue_rounds w run id (suc limit) round r s)
  unfolding continue_rounds one_round goes_on
  round-Ends w limit round r s fresh ih = elim (Option-cases (w 0).ctx) [
    | inr (x, e) ↦ rw (continue_rounds, e) (λ done. absurd (ground arith))
    | inl e ↦ elim (Option-cases (get id s.store)) [
      | inl g ↦ rw (continue_rounds, e, g) (λ done. absurd (ground arith))
      | inr (t, g) ↦ elim (Bool-cases (task_was_stopped id s)) [
        | inl h ↦
            rw (continue_rounds, e, g, one_round, h)
              (λ done. at_end (suc limit) round r s (inr (inl h)))
        | inr h ↦ elim (Bool-cases (can_continue (attach r t))) [
          | inr k ↦ rw (continue_rounds, e, g, one_round, h, k) (λ done. absurd (ground arith))
          | inl k ↦
              rw (continue_rounds, e, g, one_round, h, k)
                (choose-Ends (w 0) (w 1) limit round r t s _ fresh g h k (ih _ _) _ refl)
        ]
      ]
    ]
  ]

  continue_rounds-Ends :
      (w : Supply) (limit round : ℕ) (r : DockerResult) (s : Service)
      → is_final r ≡ false
      → (continue_rounds w run id limit round r s).error ≡ none
      → Ends run id limit round r s (continue_rounds w run id limit round r s)
  unfolding continue_rounds
  continue_rounds-Ends w zero round r s fresh done = rounds_over-Ends (w 0) round r s
  continue_rounds-Ends w (suc limit) round r s fresh done =
      round-Ends w limit round r s fresh (continue_rounds-Ends (later 2 w) limit (suc round)) done

-- Where runUntilSolved returns no error, its result is that of a number of automatic rounds, at most
-- AutoContinueRounds of them, each run after an unsolved round that exited with 0 for a task that
-- was not stopped and could be continued; and it ended there because the result solves the task or
-- has another exit code, because the user stopped the task, or because all the rounds were run.
pub run_until_solved-Ends :
    (w : Supply) (run : HintRunner) (id : Text) (r : DockerResult) (s : Service)
    → (run_until_solved w run id r s).error ≡ none
    → Ends run id s.cfg.auto_continue_rounds 1 r s (run_until_solved w run id r s)
unfolding run_until_solved
run_until_solved-Ends w run id r s = elim (Bool-cases (is_final r)) [
  | inl f ↦
      rw (run_until_solved, f) (λ done. at_end run id s.cfg.auto_continue_rounds 1 r s (inl f))
  | inr f ↦
      rw (run_until_solved, f) (continue_rounds-Ends run id w s.cfg.auto_continue_rounds 1 r s f)
]
