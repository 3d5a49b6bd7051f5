-- ===== src/Swarm/Tokens.antt =====
-- swarm.go: the tokens of a node over sequences of calls.
use thrive.Prelude.{
  ℕ, ◌≡◌, refl, sym, ap, inl, inr, Bool, true, false, not, ◌&&◌, none, some, List, [], ◌∷◌, ◌++◌,
  arith, Text, text, ◌=ᵗ◌, ltb, Bool-cases, if◌then◌else◌,
}
use thrive.Swarm.{
  State, File, Answer, token, worker_prefix, manager_prefix, is_initialised, init, leave, rotated,
  token_of, join_token, Call, init_call, leave_call, join_token_call, join_call, run, run_all,
}

-- A manager in swarm mode, whose tokens tell their roles.
pub record IsManager (st : State) : Type 0 where
  pub initialized : st.initialized ≡ true
  pub manager : st.manager ≡ true
  pub worker_token : (digits : Text) × (st.worker_token ≡ worker_prefix ++ digits)
  pub manager_token : (digits : Text) × (st.manager_token ≡ manager_prefix ++ digits)

-- A file that is there is that of a manager.
abbrev pub IsMember : File → Type 0
IsMember none = Unit
IsMember (some st) = IsManager st

init-IsMember :
    (addr host node worker manager : Text) (now : ℕ) (f : File)
    → IsMember f
    → IsMember (init addr host node worker manager now f).0
unfolding init
init-IsMember addr host node worker manager now f h = elim (Bool-cases (is_initialised f)) [
  | inl e ↦ rw e h
  | inr e ↦ rw e (record {
    initialized = refl;
    manager = refl;
    worker_token = (worker, refl);
    manager_token = (manager, refl);
  })
]

leave-IsMember :
    (force : Bool) (services : ℕ) (f : File) → IsMember f → IsMember (leave force services f).0
unfolding leave
leave-IsMember force services f h = elim (Bool-cases (is_initialised f)) [
  | inr e ↦ rw e h
  | inl e ↦ elim (Bool-cases (not force && ltb 0 services)) [
    | inl r ↦ rw (e, r) h
    | inr r ↦ rw (e, r) tt
  ]
]

rotated-IsManager :
    (role digits : Text) (st : State) → IsManager st → IsManager (rotated role digits st)
rotated-IsManager role digits st h = elim (Bool-cases (role =ᵗ text "worker")) [
  | inl e ↦ rw e (record {
    initialized = h.initialized;
    manager = h.manager;
    worker_token = (digits, refl);
    manager_token = h.manager_token;
  })
  | inr e ↦ rw e (record {
    initialized = h.initialized;
    manager = h.manager;
    worker_token = h.worker_token;
    manager_token = (digits, refl);
  })
]

join_token-IsMember :
    (role : Text) (rotate : Bool) (digits : Text) (f : File)
    → IsMember f
    → IsMember (join_token role rotate digits f).0
unfolding join_token
join_token-IsMember role rotate digits none h = tt
join_token-IsMember role rotate digits (some st) h =
    elim (Bool-cases (not (role =ᵗ text "worker") && not (role =ᵗ text "manager"))) [
      | inl e ↦ rw e h
      | inr e ↦ rw e (elim rotate as (λ b. IsManager (if b then rotated role digits st else st)) [
        | true ↦ rotated-IsManager role digits st h
        | false ↦ h
      ])
    ]

-- Whatever calls are made, in whichever order, a state file that is there is always that of an
-- initialised manager whose worker and manager tokens begin as those of their roles do.
pub run_all-IsMember : (calls : List Call) (f : File) → IsMember f → IsMember (run_all calls f)
unfolding run_all run
run_all-IsMember [] f h = h
run_all-IsMember (init_call addr host node worker manager now ∷ calls) f h =
    run_all-IsMember calls _ (init-IsMember addr host node worker manager now f h)
run_all-IsMember (leave_call force services ∷ calls) f h =
    run_all-IsMember calls _ (leave-IsMember force services f h)
run_all-IsMember (join_token_call role rotate digits ∷ calls) f h =
    run_all-IsMember calls _ (join_token-IsMember role rotate digits f h)
run_all-IsMember (join_call addr given ∷ calls) f h = run_all-IsMember calls f h

-- What a token that is issued means: the state in the file gives it again, and differs from the
-- state before in this token at most.
pub record IsIssued (role : Text) (st : State) (g : File) (t : Text) : Type 0 where
  pub next : State
  pub stored : g ≡ some next
  pub again : (digits : Text) → join_token role false digits g ≡ (g, token t)
  pub rest : rotated role [] next ≡ rotated role [] st

rotated-rotated :
    (role a b : Text) (st : State) → rotated role a (rotated role b st) ≡ rotated role a st
rotated-rotated role a b st = elim (Bool-cases (role =ᵗ text "worker")) [
  | inl e ↦ rw e refl
  | inr e ↦ rw e refl
]

abbrev token_text : Answer → Text
token_text (token t) = t
token_text _ = []

-- A token that `JoinToken` issues, rotated or not, is the token of its role from then on: asked for
-- again without a rotation it is the same, and nothing else in the state is changed by it, the token
-- of the other role included.
pub join_token-IsIssued :
    (role : Text) (rotate : Bool) (digits : Text) (st : State) (g : File) (t : Text)
    → join_token role rotate digits (some st) ≡ (g, token t)
    → IsIssued role st g t
unfolding join_token
join_token-IsIssued role rotate digits st g t e =
    elim (Bool-cases (not (role =ᵗ text "worker") && not (role =ᵗ text "manager"))) [
      | inl r ↦ ground (arith, r)
      | inr r ↦
          let next = if rotate then rotated role digits st else st in
          let both = rw r at e in
          let file : g ≡ some next = sym (ap (λ (p : File × Answer). p.0) both) in
          let value : t ≡ token_of role next =
            sym (ap (λ (p : File × Answer). token_text p.1) both) in
          record {
            next = next;
            stored = file;
            again = λ d. rw (file, value, r) refl;
            rest =
                elim rotate
                  as (λ b.
                    rotated role [] (if b then rotated role digits st else st)
                    ≡ rotated role [] st) [
                      | true ↦ rotated-rotated role [] digits st
                      | false ↦ refl
                    ];
          }
    ]
