-- ===== src/Solve/Agent/Engine/Calls.antt =====
-- The calls that reach the backend, as one sequence that stops at the first refusal.
use themelios.Prelude.{
  ◌≡◌, refl, ap, ap₂, fun_ext, sym, ◌∙◌, Bool, true, false, if◌then◌else◌, List, [], ◌∷◌, ◌++◌, map,
  Option, none, some, Bool-cases, inl, inr,
}
use themelios.Program.Symbol.{Symbol}
use themelios.Solve.Contract.{Vocabulary, Fault, Capability, declares, unsupported_fault}
use themelios.Solve.Agent.Engine.{
  TruthValue, Backend, Agent, require, Step, then_call, ground_each, assign_each, bring_level,
  grounded_after, past_gate, ground_parts, assigned_after, assign_truth,
}

pub data Call (P G : Type 0) : Type 0 where
  resets : Call P G
  lowers : P → Call P G
  grounds : G → Call P G
  assigns : Symbol → TruthValue → Call P G

module _ {V : Vocabulary} {P G : Type 0} (b : Backend V P G) where
  abbrev pub call : Call P G → b.State → Step b
  call resets s = b.reset s
  call (lowers p) s = b.lower p s
  call (grounds g) s = b.ground g s
  call (assigns e v) s = b.assign_external e v s

  unfoldable pub calls : List (Call P G) → b.State → Step b
  calls [] s = (s, none)
  calls (c ∷ cs) s = then_call b (call c s) (calls cs)

  -- What the agent holds, put to a fresh engine: the program, the grounded parts in their order, the
  -- assigned externals in theirs.
  abbrev pub replay : Agent b.State P G → List (Call P G)
  replay a =
      resets ∷ lowers a.knowledge ∷ map grounds a.grounded ++ map (λ e. assigns e.0 e.1) a.assigned

  -- A call after a pair of steps, by what the first answers.
  after_two :
      (r : Step b) (f g h : b.State → Step b)
      → ((s : b.State) → h s ≡ then_call b (f s) g)
      → then_call b r h ≡ then_call b (then_call b r f) g
  after_two (s, none) f g h e = e s
  after_two (s, some x) f g h e = refl

  then_done : (r : Step b) → then_call b r (calls []) ≡ r
  unfolding calls
  then_done (s, none) = refl
  then_done (s, some f) = refl

  calls-append :
      (cs ds : List (Call P G)) (s : b.State)
      → calls (cs ++ ds) s ≡ then_call b (calls cs s) (calls ds)
  unfolding calls
  calls-append [] ds s = refl
  calls-append (c ∷ cs) ds s =
      after_two (call c s) (calls cs) (calls ds) (calls (cs ++ ds)) (calls-append cs ds)

  calls-grounds : (gs : List G) (s : b.State) → calls (map grounds gs) s ≡ ground_each b gs s
  unfolding calls ground_each
  calls-grounds [] s = refl
  calls-grounds (g ∷ gs) s = ap (then_call b (b.ground g s)) (fun_ext (calls-grounds gs))

  calls-assigns :
      (es : List (Symbol × TruthValue)) (s : b.State)
      → calls (map (λ e. assigns e.0 e.1) es) s ≡ assign_each b es s
  unfolding calls assign_each
  calls-assigns [] s = refl
  calls-assigns (e ∷ es) s =
      ap (then_call b (b.assign_external e.0 e.1 s)) (fun_ext (calls-assigns es))

  replayed :
      (a : Agent b.State P G)
      → then_call b
          (then_call b
            (then_call b (b.reset a.backend) (b.lower a.knowledge))
            (ground_each b a.grounded))
          (assign_each b a.assigned)
        ≡ calls (replay a) a.backend
  unfolding calls
  replayed a =
      let gs : List (Call P G) = map grounds a.grounded in
      let es : List (Call P G) = map (λ e. assigns e.0 e.1) a.assigned in
      let grounded_ : calls gs ≡ ground_each b a.grounded = fun_ext (calls-grounds a.grounded) in
      let assigned_ : calls es ≡ assign_each b a.assigned = fun_ext (calls-assigns a.assigned) in
      sym (
        after_two (b.reset a.backend) (b.lower a.knowledge) (calls (gs ++ es))
          (calls (lowers a.knowledge ∷ gs ++ es)) (λ s. refl)
        ∙ after_two (then_call b (b.reset a.backend) (b.lower a.knowledge)) (calls gs) (calls es)
            (calls (gs ++ es)) (calls-append gs es)
        ∙ ap₂
            (λ x y.
              then_call b (then_call b (then_call b (b.reset a.backend) (b.lower a.knowledge)) x) y)
            grounded_ assigned_)

  levelled :
      (a : Agent b.State P G)
      → declares (b.capabilities a.backend) Capability.multi_shot ≡ true
      → bring_level b a ≡ calls (replay a) a.backend
  unfolding bring_level
  levelled a multi = rw multi (replayed a)

  and_then :
      (a : Agent b.State P G) (c : Call P G)
      → declares (b.capabilities a.backend) Capability.multi_shot ≡ true
      → then_call b (bring_level b a) (call c) ≡ calls (replay a ++ c ∷ []) a.backend
  unfolding calls
  and_then a c multi =
      ap (λ r. then_call b r (call c)) (levelled a multi)
      ∙ ap (then_call b (calls (replay a) a.backend)) (fun_ext (λ s. sym (then_done (call c s))))
      ∙ sym (calls-append (replay a) (c ∷ []) a.backend)

  gated :
      (a : Agent b.State P G) (r : Agent b.State P G × Option (Fault V)) (t : Bool)
      → declares (b.capabilities a.backend) Capability.multi_shot ≡ t
      → past_gate b a (require (b.capabilities a.backend) Capability.multi_shot) r
        ≡ (if t then r else (a, some (unsupported_fault Capability.multi_shot)))
  unfolding require
  gated a r true h =
      ap (λ z. past_gate b a (if z then none else some (unsupported_fault Capability.multi_shot)) r)
        h
  gated a r false h =
      ap (λ z. past_gate b a (if z then none else some (unsupported_fault Capability.multi_shot)) r)
        h

  -- A gated step, by what it comes to where the gate is passed.
  by_gate :
      (a : Agent b.State P G) (r r' : Agent b.State P G × Option (Fault V))
      → (declares (b.capabilities a.backend) Capability.multi_shot ≡ true → r ≡ r')
      → past_gate b a (require (b.capabilities a.backend) Capability.multi_shot) r ≡ (
          if declares (b.capabilities a.backend) Capability.multi_shot
          then r'
          else (a, some (unsupported_fault Capability.multi_shot)))
  by_gate a r r' e = elim (Bool-cases (declares (b.capabilities a.backend) Capability.multi_shot)) [
    | inl multi ↦
        gated a r true multi
        ∙ e multi
        ∙ ap (λ t. if t then r' else (a, some (unsupported_fault Capability.multi_shot)))
            (sym multi)
    | inr single ↦
        gated a r false single
        ∙ ap (λ t. if t then r' else (a, some (unsupported_fault Capability.multi_shot)))
            (sym single)
  ]

  -- A request to ground parts is refused, the backend untouched, where the backend declares no
  -- multi-shot solving. Otherwise the backend is put one sequence of calls, up to the first it
  -- refuses: a reset, the program, the grounded parts and the assigned externals in order, and the
  -- parts; these are retained where nothing was refused, and the agent holds nothing else new.
  pub ground_parts-eq-calls :
      (a : Agent b.State P G) (parts : G)
      → ground_parts b a parts ≡ (
          if declares (b.capabilities a.backend) Capability.multi_shot
          then grounded_after b a parts (calls (replay a ++ grounds parts ∷ []) a.backend)
          else (a, some (unsupported_fault Capability.multi_shot)))
  unfolding ground_parts
  ground_parts-eq-calls a parts =
      by_gate a _ _ (λ multi. ap (grounded_after b a parts) (and_then a (grounds parts) multi))

  -- A request to assign an external a truth value is refused, the backend untouched, where the
  -- backend declares no multi-shot solving. Otherwise the backend is put one sequence of calls, up to
  -- the first it refuses: a reset, the program, the grounded parts and the assigned externals in
  -- order, and the assignment; its value is retained as the external's where nothing was refused.
  pub assign_truth-eq-calls :
      (a : Agent b.State P G) (external : Symbol) (value : TruthValue)
      → assign_truth b a external value ≡ (
          if declares (b.capabilities a.backend) Capability.multi_shot
          then assigned_after b a external value
              (calls (replay a ++ assigns external value ∷ []) a.backend)
          else (a, some (unsupported_fault Capability.multi_shot)))
  unfolding assign_truth
  assign_truth-eq-calls a external value =
      by_gate a _ _ (λ multi.
        ap (assigned_after b a external value) (and_then a (assigns external value) multi))
