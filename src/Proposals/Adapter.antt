-- ===== src/Proposals/Adapter.antt =====
-- `SampleHubSpotAdapter` (integrations/hubspot/contracts.py).
use btx_omni_prospect.Prelude.{
  String, Bool, true, false, not, Option, none, some, List, string_eq, if◌then◌else◌,
}
use btx_omni_prospect.Prelude.Dict.{lookup}
use btx_omni_prospect.Prelude.Json.{Json}
use btx_omni_prospect.Prelude.Result.{Result, ok, raise_if, ◌>>◌}
use btx_omni_prospect.Work.Domain.{WorkError, confirmation_required}

pub record CrmCompany : Type 0 where
  pub id : String
  pub account_id : String
  pub owner_id : Option String
  pub properties : Option Json

-- The company of each context; `other_port` is an adapter of any other class.
pub data Adapter : Type 0 where
  sample : (contexts : List (String × Option CrmCompany)) (available : Bool) → Adapter
  other_port : Adapter

pub record CrmActionPreview : Type 0 where
  pub action_id : String
  pub account_id : Option String
  pub operation : String
  pub payload : Json
  pub confirmed : Bool
  pub executed : Bool
  pub unavailable_reason : Option String

-- self._contexts.get(account_id, …).company
abbrev pub linked_company : List (String × Option CrmCompany) → Option String → Option CrmCompany
linked_company contexts none = none
linked_company contexts (some account) = elim (lookup account contexts) [
  | none ↦ none
  | some company ↦ company
]

-- `account_context(account_id).company`
unfoldable pub account_company :
    List (String × Option CrmCompany) → Bool → Option String → Option CrmCompany
account_company contexts available account =
    if available then linked_company contexts account else none

unfoldable pub preview_action : String → Option String → String → Json → CrmActionPreview
preview_action action_id account_id operation payload = record {
  action_id = action_id;
  account_id = account_id;
  operation = operation;
  payload = payload;
  confirmed = false;
  executed = false;
  unavailable_reason = none;
}

unfoldable pub execute_action : Bool → CrmActionPreview → Result WorkError CrmActionPreview
execute_action available preview = do
  raise_if (not preview.confirmed) confirmation_required
  ok (
      if available
      then record preview { executed = true }
      else record preview { unavailable_reason = some "HubSpot provider is unavailable." })
