-- ===== src/AuthStore.antt =====
-- frontend/src/store/authStore.ts: the token, in memory and in the browser's storage. `available` says
-- whether the storage may be used; where it may not, its calls throw and the code goes on.
use langgraph_agent.Base.{
  ℕ, String, Bool, true, false, Option, none, some, ◌≡◌, refl, if◌then◌else◌,
}
use langgraph_agent.FailureStates.Lists.{LoginOutcome, logged_in, login_outcome}

pub record AuthState : Type 0 where
  pub token : Option String
  pub auth_enabled : Option Bool
  pub stored : Option String

pub record LoginData : Type 0 where
  pub ok : Bool
  pub token : String

-- What `loginAttempt` answers.
pub record LoginAttempt : Type 0 where
  pub status : ℕ
  pub body : Option LoginData

-- `attempt.data?.ok === true`
abbrev pub says_ok : Option LoginData → Bool
says_ok none = false
says_ok (some d) = d.ok

abbrev written : Bool → Option String → AuthState → AuthState
written available value s = if available then record s { stored = value } else s

unfoldable pub initial_auth : Bool → Option String → AuthState
initial_auth available stored = record {
  token = if available then stored else none;
  auth_enabled = none;
  stored = stored;
}

unfoldable pub set_auth_enabled : Bool → AuthState → AuthState
set_auth_enabled v s = record s { auth_enabled = some v }

-- The token of an attempt that succeeded.
unfoldable pub granted : LoginAttempt → Option String
granted attempt = elim (login_outcome attempt.status (says_ok attempt.body)) [
  | logged_in ↦ elim attempt.body [ none ↦ none | some d ↦ some d.token ]
  | _ ↦ none
]

unfoldable pub login : Bool → LoginAttempt → AuthState → LoginOutcome × AuthState
unfolding granted
login available attempt s = (
  login_outcome attempt.status (says_ok attempt.body),
  elim (granted attempt) [
    | none ↦ s
    | some token ↦ record (written available (some token) s) { token = some token }
  ],
)

unfoldable pub logout : Bool → AuthState → AuthState
logout available s = record (written available none s) { token = none }

-- After a login that succeeds, or a logout, the token in memory is the one stored, if the storage may be
-- used; a login that fails changes neither.
pub login_lem :
    (attempt : LoginAttempt) (s : AuthState)
    → ((logout true s).token ≡ (logout true s).stored)
      × ((token : String)
          → granted attempt ≡ some token
          → (login true attempt s).1.token ≡ (login true attempt s).1.stored)
      × (granted attempt ≡ none → (login true attempt s).1 ≡ s)
unfolding login logout
login_lem attempt s = (refl, λ token h. rw (h, login) refl, λ h. rw (h, login) refl)
