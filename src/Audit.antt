-- ===== src/Audit.antt =====
-- runtime/audit.py: the hash-chained accountability log. A file is the list of its non-blank lines;
-- a line is a record that carries an `entry_hash`, or any other text. Times are seconds.
pub mod Chain
use my_org.Common.{
  ℕ, String, Bool, true, false, not, ◌||◌, Option, none, some, List, [], ◌∷◌, ◌++◌, if◌then◌else◌,
  ◌==◌, last?,
}
use my_org.Result.{
  Result, ok, err, ◌>>=◌, ◌>>◌, require, refuse, audit_evidence_missing, audit_field_missing,
  bad_audit_category, audit_not_writable,
}

-- The risk word of the policy. The categories of the log are the first three.
pub data Risk : Type 0 where
  green yellow red : Risk
  other : String → Risk

-- APPROVALS and OUTCOMES: the callers pass literals of these sets.
pub data Approval : Type 0 where
  not_required pending granted denied : Approval

pub data Outcome : Type 0 where
  success awaiting_approval blocked breach_flagged refused attempted executed failed unresolved :
      Outcome

-- What a caller hands to `append`.
pub record Entry : Type 0 where
  pub actor : String
  pub action : String
  pub category : Risk
  pub target : String
  pub approval : Approval
  pub evidence : String
  pub outcome : Outcome
  pub note : String

-- A chained line: the entry with its time and the two hashes.
pub record Sealed : Type 0 where
  pub entry : Entry
  pub open entry use *
  pub ts : ℕ
  pub prev_hash : Option String
  pub entry_hash : String

pub data Line : Type 0 where
  plain : String → Line
  sealed : Sealed → Line

abbrev pub Log : Type 0
Log = List Line

-- What the module takes from Python and from the host: `json.dumps` with `sha256` over an entry
-- (without its own hash) and over the lines before the chain, `str.strip`, `Path.exists`, the match
-- of EVIDENCE_DIGEST_RE, the clock, and whether the log can be opened, locked and written.
pub record Host : Type 0 where
  pub digest : Entry → ℕ → Option String → String
  pub digest_lines : List String → String
  pub strip : String → String
  pub path_exists : String → Bool
  pub is_digest : String → Bool
  pub now : ℕ
  pub writable : Bool

abbrev pub is_blank : Host → String → Bool
is_blank h s = h.strip s == ""

unfoldable pub resolve_evidence : Host → String → Result String
resolve_evidence h value =
    if h.is_digest value || h.path_exists value then ok value else err audit_evidence_missing

-- (legacy, chained): the lines before the first record with an `entry_hash`, and all from it on.
unfoldable pub split_chain : Log → List String × Log
split_chain [] = ([], [])
split_chain (plain s ∷ ls) = let (legacy, chained) = split_chain ls in (s ∷ legacy, chained)
split_chain (sealed e ∷ ls) = ([], sealed e ∷ ls)

unfoldable pub anchor : Host → List String → Option String
anchor h [] = none
anchor h (l ∷ ls) = some (h.digest_lines (l ∷ ls))

-- `record.get("entry_hash")`: a line that is no record of the chain has none.
abbrev pub entry_hash_of : Line → Option String
entry_hash_of (plain s) = none
entry_hash_of (sealed e) = some e.entry_hash

abbrev pub hash_or : Option String → Option Line → Option String
hash_or default none = default
hash_or default (some l) = entry_hash_of l

abbrev pub is_category : Risk → Bool
is_category (other word) = false
is_category _ = true

-- The time, the approval and the outcome are never blank; the note may be.
unfoldable pub validate : Host → Entry → Result (Unit {0})
validate h e = do
  refuse (is_blank h e.actor || is_blank h e.action || is_blank h e.target || is_blank h e.evidence)
      audit_field_missing
  require (is_category e.category) bad_audit_category

-- The hash of the last chained line, or the seal of what stood before the chain.
unfoldable pub head_hash : Host → Log → Option String
unfolding split_chain anchor
head_hash h log =
    let (legacy, chained) = split_chain log in hash_or (anchor h legacy) (last? chained)

unfoldable pub seal : Host → Entry → Log → Line
seal h e log =
    let prev = head_hash h log in
    sealed (record { entry = e; ts = h.now; prev_hash = prev; entry_hash = h.digest e h.now prev })

unfoldable pub append : Host → Entry → Log → Result Log
unfolding resolve_evidence validate seal
append h e log = do
  evidence ← resolve_evidence h e.evidence
  validate h e
  require h.writable audit_not_writable
  ok (log ++ seal h e log ∷ [])

-- The problems of `verify`, each with what it is found on.
pub data Problem : Type 0 where
  unchained_line previous_mismatch hash_mismatch : Problem

abbrev pub same_hash : Option String → Option String → Bool
same_hash none none = true
same_hash (some a) (some b) = a == b
same_hash _ _ = false

abbrev pub problem_if : Bool → Problem → List Problem
problem_if true p = p ∷ []
problem_if false p = []

-- The loop of `verify`, from the hash that the next line must name.
unfoldable pub problems_from : Host → Option String → Log → List Problem
problems_from h previous [] = []
problems_from h previous (plain s ∷ ls) = unchained_line ∷ problems_from h previous ls
problems_from h previous (sealed e ∷ ls) =
    problem_if (not (same_hash e.prev_hash previous)) previous_mismatch
    ++ (problem_if (not (e.entry_hash == h.digest e.entry e.ts e.prev_hash)) hash_mismatch
        ++ problems_from h (some e.entry_hash) ls)

unfoldable pub verify : Host → Log → List Problem
unfolding split_chain anchor problems_from
verify h log = let (legacy, chained) = split_chain log in problems_from h (anchor h legacy) chained
