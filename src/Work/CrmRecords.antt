-- ===== src/Work/CrmRecords.antt =====
-- What the CRM proposals of an Action keep in its audit log (modules/work/crm_proposals.py).
use btx_omni_prospect.Prelude.{String, List}
use btx_omni_prospect.Prelude.Json.{Json}

-- The saved snapshot: the whole dictionary, and the entries of it that are read again.
pub record Proposal : Type 0 where
  pub proposal_id : String
  pub snapshot : Json
  pub operation : String
  pub payload : Json
  pub blockers : List String

pub record Decision : Type 0 where
  pub proposal_id : String
  pub decision_id : String
  pub decision : String
  pub actor_id : String
  pub decided_at : String

-- What a caller sees of an attempt: the keys that do not start with `request_`.
pub record Receipt : Type 0 where
  pub proposal_id : String
  pub attempt_id : String
  pub decision_id : String
  pub actor_id : String
  pub attempted_at : String
  pub status : String
  pub detail : String

pub record Attempt : Type 0 where
  pub receipt : Receipt
  pub request_key_hash : String
  pub request_fingerprint : String
