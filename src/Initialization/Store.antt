-- ===== src/Initialization/Store.antt =====
-- `SqliteCheckpointStore` of src/vibe/workflows/checkpoints.py. The table is a dictionary by its
-- primary key, `run_id`; a method returns its result and the table. An exception inside the `with`
-- block rolls the statement back. The schema's creation and its added columns are not modelled.
pub mod Laws
use local_skill_orchestrator.Prelude.{
  ℕ, String, Bool, Option, none, some, List, [], nat_eq, if◌then◌else◌, any, ◌&&◌, ◌||◌, not, Dict,
  ◌==◌, string_Eq, lookup, insert, sorted_set, string_Ord, is_some,
}
use local_skill_orchestrator.Prelude.Json.{Json, encode}
use local_skill_orchestrator.Initialization.State.{
  InitStage, InitStatus, InitCheckpoint, InitError, not_found, conflict, integrity_error, Result,
  ok, err,
}

-- A row of `vibe_init_checkpoints`, without its key. The columns of JSON text hold their trees.
pub record Row : Type 0 where
  pub checkpoint_id : String
  pub repository_digest : String
  pub stage : InitStage
  pub status : InitStatus
  pub confirmed_json : Dict Json
  pub attempt : ℕ
  pub revision : ℕ
  pub error : Option String
  pub cancellation_reason : Option String
  pub codex_thread_id : Option String
  pub interview_answers_json : Dict Json
  pub interview_provenance_json : Dict Json
  pub interview_locked_json : List String

abbrev pub Table : Type 0
Table = Dict Row

pub record InterviewProgress : Type 0 where
  pub thread_id : Option String
  pub answers : Dict Json
  pub provenance : Dict Json
  pub locked_questions : List String

abbrev pub has_checkpoint_id : String → Table → Bool
has_checkpoint_id i t = any (λ p. p.1.checkpoint_id == i) t

-- Another run holds the identifier, which the column's UNIQUE constraint refuses.
abbrev pub taken_by_other : String → String → Table → Bool
taken_by_other run_id i t = any (λ p. not (p.0 == run_id) && p.1.checkpoint_id == i) t

-- `_values`, with the defaults of the columns that the INSERT does not name
unfoldable pub values : InitCheckpoint → Row
values c = record {
  checkpoint_id = c.checkpoint_id;
  repository_digest = c.repository_digest;
  stage = c.stage;
  status = c.status;
  confirmed_json = encode c.confirmed;
  attempt = c.attempt;
  revision = c.revision;
  error = c.error;
  cancellation_reason = c.cancellation_reason;
  codex_thread_id = none;
  interview_answers_json = [];
  interview_provenance_json = [];
  interview_locked_json = [];
}

unfoldable pub create : InitCheckpoint → Table → Result (Unit {0}) × Table
unfolding values
create c t =
    if is_some (lookup c.run_id t) || has_checkpoint_id c.checkpoint_id t
    then (err (conflict c.run_id), t)
    else (ok tt, insert c.run_id (values c) t)

abbrev pub from_row : String → Row → InitCheckpoint
from_row run_id r = record {
  checkpoint_id = r.checkpoint_id;
  run_id = run_id;
  repository_digest = r.repository_digest;
  stage = r.stage;
  status = r.status;
  confirmed = r.confirmed_json;
  attempt = r.attempt;
  revision = r.revision;
  error = r.error;
  cancellation_reason = r.cancellation_reason;
}

unfoldable pub load : String → Table → Result InitCheckpoint
load run_id t = elim (lookup run_id t) [
  | none ↦ err (not_found run_id)
  | some r ↦ ok (from_row run_id r)
]

-- The UPDATE's SET clause: the interview columns stay.
abbrev pub overwrite : Row → InitCheckpoint → Row
overwrite r c = record r {
  checkpoint_id = c.checkpoint_id;
  repository_digest = c.repository_digest;
  stage = c.stage;
  status = c.status;
  confirmed_json = encode c.confirmed;
  attempt = c.attempt;
  revision = c.revision;
  error = c.error;
  cancellation_reason = c.cancellation_reason;
}

-- UPDATE … WHERE run_id = ? AND revision = ?, and the test on `rowcount`
replace_row : Option Row → InitCheckpoint → InitCheckpoint → Table → Result (Unit {0}) × Table
replace_row none previous current t = (err (conflict current.run_id), t)
replace_row (some r) previous current t =
    if nat_eq r.revision previous.revision
    then if taken_by_other current.run_id current.checkpoint_id t
      then (err integrity_error, t)
      else (ok tt, insert current.run_id (overwrite r current) t)
    else (err (conflict current.run_id), t)

unfoldable pub replace : InitCheckpoint → InitCheckpoint → Table → Result (Unit {0}) × Table
unfolding replace_row
replace previous current t = replace_row (lookup current.run_id t) previous current t

-- The other UPDATE's SET clause: the checkpoint's columns stay.
abbrev pub with_progress : Row → InterviewProgress → Row
with_progress r p = record r {
  codex_thread_id = p.thread_id;
  interview_answers_json = encode p.answers;
  interview_provenance_json = encode p.provenance;
  interview_locked_json = sorted_set p.locked_questions;
}

unfoldable pub save_interview_progress :
    String → InterviewProgress → Table → Result (Unit {0}) × Table
save_interview_progress run_id p t = elim (lookup run_id t) [
  | none ↦ (err (not_found run_id), t)
  | some r ↦ (ok tt, insert run_id (with_progress r p) t)
]

unfoldable pub load_interview_progress : String → Table → Result InterviewProgress
load_interview_progress run_id t = elim (lookup run_id t) [
  | none ↦ err (not_found run_id)
  | some r ↦ ok (record {
    thread_id = r.codex_thread_id;
    answers = r.interview_answers_json;
    provenance = r.interview_provenance_json;
    locked_questions = r.interview_locked_json;
  })
]
