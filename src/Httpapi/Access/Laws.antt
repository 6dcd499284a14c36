-- ===== src/Httpapi/Access/Laws.antt =====
-- mcp.go: who reaches the MCP server, and how the others are refused.
use booknow_mcp_service.Base.{
  ℤ, String, Option, none, some, Bool, true, false, ◌≡◌, refl, ◌⊎◌, inl, inr, arith, Result, ok,
  err,
}
use booknow_mcp_service.Tenant.{Identity, Access, Answer, granted, refused}
use booknow_mcp_service.Auth.{bearer_token}
use booknow_mcp_service.Httpapi.Access.{
  Rejection, Outcome, rejected, preflight, passed, Request, GateState, Gate, limited, policy,
  usage_policy, refusal, resolved, identified, tokened, require_mcp_access,
}
use booknow_mcp_service.Httpapi.Denials.{DenialText, denial_for}

-- The limiter lets a connection through, if there is one.
abbrev pub IsAllowed : {L : Type 0} → Option (L → String → (Bool × ℤ) × L) → L → String → Type 0
IsAllowed none l id = Unit
IsAllowed (some allow) l id = (allow l id).0.0 ≡ true

-- What a request that reaches the next handler has shown.
pub record IsAdmitted {L : Type 0} (g : Gate L) (r : Request) (st : GateState L) (a : Access)
    : Type 0 where
  pub token : String
  pub bears : bearer_token r.authorization ≡ some token
  pub identity : Identity
  pub verified : g.verify token ≡ ok identity
  pub allowed : g.resolve identity ≡ granted a
  pub in_rate : IsAllowed g.rate_limit st.limiter a.connection_id

pub not_passed : {A : Type 0} {x : Rejection} {a : A} → rejected x ≡ passed a → ⊥
not_passed h = cc

pub passed-injective : {A : Type 0} {a b : A} → passed a ≡ passed b → a ≡ b
passed-injective h = cc

module _ {L : Type 0} (g : Gate L) (now : ℤ) (r : Request) (st : GateState L) (a : Access) where
  limited-IsAllowed :
      (b : Access) (answer : (Bool × ℤ) × L)
      → (limited g now b answer st).0 ≡ passed a
      → (answer.0.0 ≡ true) × (b ≡ a)
  limited-IsAllowed b ((true, wait), l) h = (refl, passed-injective h)
  limited-IsAllowed b ((false, wait), l) h = absurd (not_passed h)

  policy-IsAllowed :
      (b : Access) (allow : Option (L → String → (Bool × ℤ) × L))
      → g.rate_limit ≡ allow
      → (policy g now b allow st).0 ≡ passed a
      → IsAllowed g.rate_limit st.limiter b.connection_id × (b ≡ a)
  policy-IsAllowed b none e h = (rw e tt, passed-injective h)
  policy-IsAllowed b (some allow) e h =
      rw e (limited-IsAllowed b (allow st.limiter b.connection_id) h)

  resolved-IsAdmitted :
      (token : String) (id : Identity) (answer : Answer Access)
      → bearer_token r.authorization ≡ some token
      → g.verify token ≡ ok id
      → g.resolve id ≡ answer
      → (resolved g now answer st).0 ≡ passed a
      → IsAdmitted g r st a
  unfolding usage_policy
  resolved-IsAdmitted token id (granted b) bears verified allowed h =
      let (in_rate, same) = policy-IsAllowed b g.rate_limit refl h in
      record {
        token = token;
        bears = bears;
        identity = id;
        verified = verified;
        allowed = rw (← same) allowed;
        in_rate = rw (← same) in_rate;
      }
  resolved-IsAdmitted token id (refused e) bears verified allowed h = absurd (not_passed h)

  identified-IsAdmitted :
      (token : String) (answer : Result Identity)
      → bearer_token r.authorization ≡ some token
      → g.verify token ≡ answer
      → (identified g now answer st).0 ≡ passed a
      → IsAdmitted g r st a
  identified-IsAdmitted token (ok id) bears verified h =
      resolved-IsAdmitted token id (g.resolve id) bears verified refl h
  identified-IsAdmitted token (err e) bears verified h = absurd (not_passed h)

  tokened-IsAdmitted :
      (answer : Option String)
      → bearer_token r.authorization ≡ answer
      → (tokened g now answer st).0 ≡ passed a
      → IsAdmitted g r st a
  tokened-IsAdmitted (some token) bears h =
      identified-IsAdmitted token (g.verify token) bears refl h
  tokened-IsAdmitted none bears h = absurd (not_passed h)

-- Only an admitted request reaches the MCP server: its single Authorization header bears a token, the
-- token is verified, the access it runs with is the one resolved for the token's identity, and the
-- limiter lets the connection through.
pub require_mcp_access-IsAdmitted :
    {L : Type 0} (g : Gate L) (now : ℤ) (r : Request) (st : GateState L) (a : Access)
    → (require_mcp_access g now r st).0 ≡ passed a
    → IsAdmitted g r st a
unfolding require_mcp_access
require_mcp_access-IsAdmitted g now r st a h =
    tokened-IsAdmitted g now r st a (bearer_token r.authorization) refl h

-- What a rejection leaves: the uses and the throttle as they were, and a status of those of the gate.
abbrev pub IsRejection : {L : Type 0} → GateState L → Outcome Access × GateState L → Type 0
IsRejection st (rejected x, after) =
    ((x.status ≡ 401) ⊎ (x.status ≡ 403) ⊎ (x.status ≡ 429) ⊎ (x.status ≡ 500))
    × (after.recorded ≡ st.recorded)
    × (after.last ≡ st.last)
IsRejection st (preflight, after) = ⊥
IsRejection st (passed a, after) = Unit

module _ {L : Type 0} (g : Gate L) (now : ℤ) (st : GateState L) where
  limited-IsRejection :
      (b : Access) (answer : (Bool × ℤ) × L) → IsRejection st (limited g now b answer st)
  limited-IsRejection b ((true, wait), l) = tt
  limited-IsRejection b ((false, wait), l) = (inr (inr (inl refl)), refl, refl)

  policy-IsRejection :
      (b : Access) (allow : Option (L → String → (Bool × ℤ) × L))
      → IsRejection st (policy g now b allow st)
  policy-IsRejection b none = tt
  policy-IsRejection b (some allow) = limited-IsRejection b (allow st.limiter b.connection_id)

  refusal-status : (d : Option DenialText) → ((refusal d).status ≡ 403) ⊎ ((refusal d).status ≡ 500)
  refusal-status none = inr refl
  refusal-status (some d) = inl refl

  resolved-IsRejection : (answer : Answer Access) → IsRejection st (resolved g now answer st)
  unfolding usage_policy
  resolved-IsRejection (granted b) = policy-IsRejection b g.rate_limit
  resolved-IsRejection (refused e) = ground (arith, refusal-status (denial_for e))

  identified-IsRejection : (answer : Result Identity) → IsRejection st (identified g now answer st)
  identified-IsRejection (ok id) = resolved-IsRejection (g.resolve id)
  identified-IsRejection (err e) = (inl refl, refl, refl)

  tokened-IsRejection : (answer : Option String) → IsRejection st (tokened g now answer st)
  tokened-IsRejection (some token) = identified-IsRejection (g.verify token)
  tokened-IsRejection none = (inl refl, refl, refl)

-- A request that the gate rejects gets 401, 403, 429 or 500, and leaves the recorded uses and the
-- throttle as they were; the gate answers no preflight.
pub require_mcp_access-IsRejection :
    {L : Type 0} (g : Gate L) (now : ℤ) (r : Request) (st : GateState L)
    → IsRejection st (require_mcp_access g now r st)
unfolding require_mcp_access
require_mcp_access-IsRejection g now r st =
    tokened-IsRejection g now st (bearer_token r.authorization)
