-- ===== src/Run/World.antt =====
-- What the state machine takes from Python, from the host and from the files around it. Nothing here
-- is modelled: the fields are parameters, and a theorem names the laws that it needs of them.
use my_org.Common.{ℕ, String, Bool, Option}
use my_org.Audit.{Host, Risk}
use my_org.Run.{Payload}

pub record Actor : Type 0 where
  pub actor_type : String
  pub status : String

-- The store that `attribution` consults: no file, one that cannot be read, or one that finds or does
-- not find an actor of an organization.
pub data Registry : Type 0 where
  no_store broken : Registry
  store : (String → String → Option Actor) → Registry

-- MYORG_RUN_CEILING_USD: not set, a number (millionths, not negative), or text that is no number.
pub data CeilingEnv : Type 0 where
  unset not_a_number : CeilingEnv
  amount : ℕ → CeilingEnv

pub record World : Type 0 where
  -- the run's lock file was acquired in time
  pub lock_acquired : Bool
  -- the readings of the clock within one mutation: by `claim_is_live`, by `stamp` or a time that a
  -- change writes, and for the event
  pub checked_at : ℕ
  pub stamped_at : ℕ
  pub logged_at : ℕ
  -- CLAIM_SECONDS
  pub claim_seconds : ℕ
  -- str of an integer, str.strip, str.replace with count 1
  pub str : ℕ → String
  pub strip : String → String
  pub replace_first : String → String → String → String
  -- revision(payload): sha256 of the canonical JSON
  pub revision : Payload → String
  -- (ROOT/value).resolve() relative to ROOT, the bytes of a file there, and their sha256
  pub relative : String → Option String
  pub read_file : String → Option String
  pub sha256 : String → String
  -- the path of a run's file as audit evidence
  pub run_file : String → String
  -- the loaded policy file, none if it is invalid
  pub policy : Option (String → Option Risk)
  pub agent_exists : String → Bool
  pub registry : Registry
  pub ceiling_env : CeilingEnv
  pub audit : Host
  -- MYORG_ORG_ID
  pub default_org : String
