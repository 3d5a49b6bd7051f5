-- ===== src/Swarm.antt =====
-- internal/swarm/swarm.go: the membership of the single node, and the names of service.go. The state is the content of the file
-- state.json, if there is one; the file can be read and written. The random digits that a call draws
-- are its arguments, as are the host's name, the time, and the number of services that `ListServices` finds.
pub mod Tokens
pub mod Tests
use thrive.Prelude.{
  leb, ◌==◌, length, every, ℕ, Bool, true, false, not, ◌&&◌, ◌||◌, Option, none, some, List, [],
  ◌∷◌, ◌++◌, Text, text, ◌=ᵗ◌, is_empty, ltb, if◌then◌else◌,
}

-- `validServiceName` of service.go, the check of the names of services.
unfoldable pub valid_service_name : Text → Bool
valid_service_name name =
    let allowed = λ (c : ℕ).
      (leb b'a' c && leb c b'z')
      || (leb b'A' c && leb c b'Z')
      || (leb b'0' c && leb c b'9')
      || (c == b'_')
      || (c == b'.')
      || (c == b'-') in
    if is_empty name || ltb 64 (length name) then false else every allowed name

-- `containerPrefix` of service.go.
abbrev pub container_prefix : Text → Text
container_prefix name = text "swarm-" ++ name ++ text "-"

pub record State : Type 0 where
  pub initialized : Bool
  pub node_id : Text
  pub manager : Bool
  pub manager_addr : Text
  pub created : ℕ
  pub worker_token : Text
  pub manager_token : Text

pub data SwarmError : Type 0 where
  already_initialised : SwarmError
  not_initialised : SwarmError
  services_running : ℕ → SwarmError
  bad_role : SwarmError
  not_supported : SwarmError

pub data Answer : Type 0 where
  left : Answer
  token : Text → Answer
  started : State → Answer
  refused : SwarmError → Answer

-- The content of state.json.
abbrev pub File : Type 0
File = Option State

-- `RequireInitialised`, and the test of `Init` and `Leave`.
unfoldable pub is_initialised : File → Bool
is_initialised none = false
is_initialised (some st) = st.initialized

abbrev pub worker_prefix : Text
worker_prefix = text "THRIVE-worker-"

abbrev pub manager_prefix : Text
manager_prefix = text "THRIVE-manager-"

-- The state of a node that starts a swarm.
abbrev pub new_state : Text → Text → Text → Text → Text → ℕ → State
new_state addr host node worker manager now = record {
  initialized = true;
  node_id = (if is_empty host then text "thrive-node" else host) ++ b'-' ∷ node;
  manager = true;
  manager_addr = addr;
  created = now;
  worker_token = worker_prefix ++ worker;
  manager_token = manager_prefix ++ manager;
}

unfoldable pub init : Text → Text → Text → Text → Text → ℕ → File → File × Answer
unfolding is_initialised
init addr host node worker manager now f =
    let st = new_state addr host node worker manager now in
    if is_initialised f then (f, refused already_initialised) else (some st, started st)

unfoldable pub leave : Bool → ℕ → File → File × Answer
unfolding is_initialised
leave force services f =
    if not (is_initialised f)
    then (f, refused not_initialised)
    else if not force && ltb 0 services
    then (f, refused (services_running services))
    else (none, left)

abbrev pub rotated : Text → Text → State → State
rotated role digits st =
    if role =ᵗ text "worker"
    then record st { worker_token = worker_prefix ++ digits }
    else record st { manager_token = manager_prefix ++ digits }

abbrev pub token_of : Text → State → Text
token_of role st = if role =ᵗ text "worker" then st.worker_token else st.manager_token

unfoldable pub join_token : Text → Bool → Text → File → File × Answer
join_token role rotate digits none = (none, refused not_initialised)
join_token role rotate digits (some st) =
    let next = if rotate then rotated role digits st else st in
    if not (role =ᵗ text "worker") && not (role =ᵗ text "manager")
    then (some st, refused bad_role)
    else (some next, token (token_of role next))

-- `Join` refuses every address and token.
abbrev pub join : Text → Text → File → File × Answer
join addr given f = (f, refused not_supported)

-- The calls of the package that touch the file.
pub data Call : Type 0 where
  init_call : (addr host node worker manager : Text) (now : ℕ) → Call
  leave_call : (force : Bool) (services : ℕ) → Call
  join_token_call : (role : Text) (rotate : Bool) (digits : Text) → Call
  join_call : (addr given : Text) → Call

unfoldable pub run : Call → File → File × Answer
unfolding init leave join_token
run (init_call addr host node worker manager now) f = init addr host node worker manager now f
run (leave_call force services) f = leave force services f
run (join_token_call role rotate digits) f = join_token role rotate digits f
run (join_call addr given) f = join addr given f

-- The file after a sequence of calls.
unfoldable pub run_all : List Call → File → File
unfolding run
run_all [] f = f
run_all (c ∷ calls) f = run_all calls (run c f).0
